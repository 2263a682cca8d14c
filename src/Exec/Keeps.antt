-- ===== src/Exec/Keeps.antt =====
-- Invariants of functions that change state, whether they return or fail.
use photogallery.Prelude.{◌≡◌, refl, Bool, true, false, Option, none, some, if◌then◌else◌}
use photogallery.Exec.{
  Result, ok, err, Exec, pure, throw, gets, or_throw, throw_if, after, ◌>>=◌, attempt, finally,
  rethrow,
}

pub record Keeps {S E A : Type 0} (P : S → Type 0) (m : Exec S E A) : Type 0 where
  pub at : (s : S) → P s → P (m s).1

module _ {S E A : Type 0} {P : S → Type 0} where
  pub Keeps-pure : (a : A) → Keeps P (pure {E = E} a)
  Keeps-pure a = record { at = λ s h. h }

  pub Keeps-throw : (e : E) → Keeps P (throw {A = A} e)
  Keeps-throw e = record { at = λ s h. h }

  pub Keeps-gets : (f : S → A) → Keeps P (gets {E = E} f)
  Keeps-gets f = record { at = λ s h. h }

  pub Keeps-or_throw : (e : E) (o : Option A) → Keeps P (or_throw e o)
  Keeps-or_throw e none = record { at = λ s h. h }
  Keeps-or_throw e (some a) = record { at = λ s h. h }

  pub Keeps-if :
      (test : Bool) (left right : Exec S E A)
      → (test ≡ false → Keeps P right)
      → (test ≡ true → Keeps P left)
      → Keeps P (if test then left else right)
  Keeps-if false left right keep keep' = keep refl
  Keeps-if true left right keep keep' = keep' refl

module _ {S E : Type 0} {P : S → Type 0} where
  pub Keeps-throw_if : (b : Bool) (e : E) → Keeps P (throw_if {S = S} b e)
  Keeps-throw_if true e = record { at = λ s h. h }
  Keeps-throw_if false e = record { at = λ s h. h }

module _ {S E A B : Type 0} {P : S → Type 0} where
  Keeps-after :
      (r : Result E A) (f : A → Exec S E B) (s : S)
      → ((a : A) → Keeps P (f a))
      → P s
      → P (after r f s).1
  Keeps-after (ok a) f s kf h = (kf a).at s h
  Keeps-after (err e) f s kf h = h

  pub Keeps-bind :
      (m : Exec S E A) (f : A → Exec S E B)
      → Keeps P m
      → ((a : A) → Keeps P (f a))
      → Keeps P (m >>= f)
  Keeps-bind m f km kf = record { at = λ s h. Keeps-after (m s).0 f (m s).1 kf (km.at s h) }

module _ {S E F A : Type 0} {P : S → Type 0} where
  pub Keeps-attempt : (m : Exec S E A) → Keeps P m → Keeps P (attempt {F = F} m)
  Keeps-attempt m km = record { at = km.at }

module _ {S E A : Type 0} {P : S → Type 0} where
  pub Keeps-finally :
      (clean : S → S) (m : Exec S E A)
      → ((s : S) → P s → P (clean s))
      → Keeps P m
      → Keeps P (finally clean m)
  Keeps-finally clean m kc km = record { at = λ s h. kc (m s).1 (km.at s h) }

  pub Keeps-rethrow : (r : Result E A) → Keeps P (rethrow r)
  Keeps-rethrow r = record { at = λ s h. h }

pub ruleset keeps_rules = (
  Keeps-pure, Keeps-throw, Keeps-gets, Keeps-or_throw, Keeps-if, Keeps-throw_if, Keeps-bind,
  Keeps-attempt, Keeps-rethrow,
)
