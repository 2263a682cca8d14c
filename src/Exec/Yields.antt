-- ===== src/Exec/Yields.antt =====
-- What holds of the value and of the state after a function that returns: a rule for each construct.
use photogallery.Prelude.{◌≡◌, refl, Bool, true, false, if◌then◌else◌}
use photogallery.Exec.{Result, ok, err, Exec, pure, throw, throw_if, after, ◌>>=◌, attempt}
use photogallery.Exec.Keeps.{Keeps}

abbrev pub OkThen : {S E A : Type 0} → (A → S → Type 0) → Result E A → S → Type 0
OkThen Q (ok a) s = Q a s
OkThen Q (err e) s = Unit

pub record Yields {S E A : Type 0} (P : S → Type 0) (m : Exec S E A) (Q : A → S → Type 0)
    : Type 0 where
  pub at : (s : S) → P s → OkThen Q (m s).0 (m s).1

module _ {S E A : Type 0} {P : S → Type 0} {Q : A → S → Type 0} where
  pub Yields-pure : (a : A) → ((s : S) → P s → Q a s) → Yields P (pure {E = E} a) Q
  Yields-pure a k = record { at = k }

  pub Yields-throw : (e : E) → Yields P (throw e) Q
  Yields-throw e = record { at = λ s h. tt }

module _ {S E A B : Type 0} {Q : B → S → Type 0} where
  Yields-after :
      (R : A → S → Type 0) (r : Result E A) (s : S) (f : A → Exec S E B)
      → ((a : A) → Yields (R a) (f a) Q)
      → OkThen R r s
      → OkThen Q (after r f s).0 (after r f s).1
  Yields-after R (ok a) s f k h = (k a).at s h
  Yields-after R (err e) s f k h = tt

module _ {S E A B : Type 0} {P : S → Type 0} {Q : B → S → Type 0} where
  pub Yields-bind :
      (R : A → S → Type 0) (m : Exec S E A) (f : A → Exec S E B)
      → Yields P m R
      → ((a : A) → Yields (R a) (f a) Q)
      → Yields P (m >>= f) Q
  Yields-bind R m f km kf = record { at = λ s h. Yields-after R (m s).0 (m s).1 f kf (km.at s h) }

OkThen-any :
    {S E A : Type 0} (P : S → Type 0) (r : Result E A) (s : S) → P s → OkThen (λ a s'. P s') r s
OkThen-any P (ok a) s h = h
OkThen-any P (err e) s h = tt

module _ {S E A : Type 0} {P : S → Type 0} where
  -- An invariant, read as what holds after.
  pub Yields-Keeps : (m : Exec S E A) → Keeps P m → Yields P m (λ a s. P s)
  Yields-Keeps m k = record { at = λ s h. OkThen-any P (m s).0 (m s).1 (k.at s h) }

module _ {S E B : Type 0} {P : S → Type 0} {Q : B → S → Type 0} where
  -- An error ends the function, so that the test is false afterwards.
  pub Yields-guard :
      (b : Bool) (e : E) (m : Exec S E B)
      → (b ≡ false → Yields P m Q)
      → Yields P (throw_if b e >>= λ _. m) Q
  Yields-guard true e m k = record { at = λ s h. tt }
  Yields-guard false e m k = record { at = (k refl).at }

module _ {S E F A : Type 0} {P : S → Type 0} {Q : A → S → Type 0} where
  pub Yields-attempt :
      (m : Exec S E A) → Yields P m Q → Yields P (attempt {F = F} m) (λ r s. OkThen Q r s)
  Yields-attempt m k = record { at = k.at }

module _ {S E A : Type 0} {P : S → Type 0} {Q : A → S → Type 0} where
  pub Yields-if :
      (b : Bool) (m n : Exec S E A)
      → (b ≡ true → Yields P m Q)
      → (b ≡ false → Yields P n Q)
      → Yields P (if b then m else n) Q
  Yields-if true m n k l = k refl
  Yields-if false m n k l = l refl

module _ {S E A : Type 0} {Q R : A → S → Type 0} where
  pub OkThen-weaken :
      (r : Result E A) (s : S) → ((a : A) (t : S) → Q a t → R a t) → OkThen Q r s → OkThen R r s
  OkThen-weaken (ok a) s k q = k a s q
  OkThen-weaken (err e) s k q = tt
