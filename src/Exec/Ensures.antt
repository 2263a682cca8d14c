-- ===== src/Exec/Ensures.antt =====
-- What a returned value satisfies, from the states of an invariant on.
use mathlib.Core.Path.{subst, ap}
use photogallery.Prelude.{◌≡◌, refl, Bool, true, false, Option, none, some, arith, if◌then◌else◌}
use photogallery.Exec.{Result, ok, err, Exec, pure, throw, or_throw, throw_if, after, ◌>>=◌}
use photogallery.Exec.Keeps.{Keeps}

pub record Ensures {S E A : Type 0} (P : S → Type 0) (Q : A → Type 0) (m : Exec S E A)
    : Type 0 where
  pub at : (s : S) (a : A) → P s → (m s).0 ≡ ok a → Q a

abbrev or_else : {E A : Type 0} → A → Result E A → A
or_else d (ok a) = a
or_else d (err e) = d

module _ {S E A : Type 0} {P : S → Type 0} {Q : A → Type 0} where
  pub Ensures-pure : (a : A) → Q a → Ensures P Q (pure {E = E} a)
  Ensures-pure a q = record { at = λ s b h e. subst Q (ap (or_else a) e) q }

  pub Ensures-throw : (e : E) → Ensures P Q (throw {A = A} e)
  Ensures-throw e = record { at = λ s a h k. absurd (ground (arith, k)) }

  pub Ensures-or_throw :
      (e : E) (o : Option A) → ((a : A) → o ≡ some a → Q a) → Ensures P Q (or_throw e o)
  Ensures-or_throw e none k = Ensures-throw e
  Ensures-or_throw e (some a) k = Ensures-pure a (k a refl)

module _ {S E B : Type 0} {P : S → Type 0} {Q : B → Type 0} where
  pub Ensures-if :
      (c : Bool) (m n : Exec S E B)
      → Ensures P Q m
      → Ensures P Q n
      → Ensures P Q (if c then m else n)
  Ensures-if true m n km kn = km
  Ensures-if false m n km kn = kn

  pub Ensures-guard :
      (c : Bool) (e : E) (m : Exec S E B)
      → (c ≡ false → Ensures P Q m)
      → Ensures P Q (throw_if c e >>= λ _. m)
  Ensures-guard true e m k = record { at = λ s b h r. absurd (ground (arith, r)) }
  Ensures-guard false e m k = record { at = (k refl).at }

module _ {S E A B : Type 0} {P : S → Type 0} {Q : B → Type 0} where
  Ensures-after :
      (r : Result E A) (f : A → Exec S E B) (s : S) (b : B)
      → ((a : A) → r ≡ ok a → Ensures P Q (f a))
      → P s
      → (after r f s).0 ≡ ok b
      → Q b
  Ensures-after (ok a) f s b k h e = (k a refl).at s b h e
  Ensures-after (err x) f s b k h e = absurd (ground (arith, e))

  -- Whatever the first step returns.
  pub Ensures-next :
      (m : Exec S E A) (f : A → Exec S E B)
      → Keeps P m
      → ((a : A) → Ensures P Q (f a))
      → Ensures P Q (m >>= f)
  Ensures-next m f km kf = record {
    at = λ s b h e. Ensures-after (m s).0 f (m s).1 b (λ a r. kf a) (km.at s h) e;
  }

  pub Ensures-bind :
      (R : A → Type 0) (m : Exec S E A) (f : A → Exec S E B)
      → Keeps P m
      → Ensures P R m
      → ((a : A) → R a → Ensures P Q (f a))
      → Ensures P Q (m >>= f)
  Ensures-bind R m f km rm kf = record {
    at = λ s b h e. Ensures-after (m s).0 f (m s).1 b (λ a r. kf a (rm.at s a h r)) (km.at s h) e;
  }
