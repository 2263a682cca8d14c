-- ===== src/Exec/Returns.antt =====
-- A function that returns, and what then holds of the value and of the state.
use photogallery.Prelude.{◌≡◌, refl, Bool, true, false, if◌then◌else◌}
use photogallery.Exec.{Result, ok, err, Exec, after, ◌>>=◌}
use photogallery.Exec.Yields.{OkThen}

abbrev pub OkAnd : {S E A : Type 0} → (A → S → Type 0) → Result E A → S → Type 0
OkAnd Q (ok a) s = Q a s
OkAnd Q (err e) s = ⊥

pub record Returns {S E A : Type 0} (P : S → Type 0) (m : Exec S E A) (Q : A → S → Type 0)
    : Type 0 where
  pub at : (s : S) → P s → OkAnd Q (m s).0 (m s).1

module _ {S E A B : Type 0} {Q : B → S → Type 0} where
  Returns-after :
      (R : A → S → Type 0) (r : Result E A) (s : S) (f : A → Exec S E B)
      → ((a : A) → Returns (R a) (f a) Q)
      → OkAnd R r s
      → OkAnd Q (after r f s).0 (after r f s).1
  Returns-after R (ok a) s f k h = (k a).at s h
  Returns-after R (err e) s f k h = absurd h

module _ {S E A B : Type 0} {P : S → Type 0} {Q : B → S → Type 0} where
  pub Returns-bind :
      (R : A → S → Type 0) (m : Exec S E A) (f : A → Exec S E B)
      → Returns P m R
      → ((a : A) → Returns (R a) (f a) Q)
      → Returns P (m >>= f) Q
  Returns-bind R m f km kf = record { at = λ s h. Returns-after R (m s).0 (m s).1 f kf (km.at s h) }

module _ {S E A : Type 0} {P : S → Type 0} {Q : A → S → Type 0} where
  pub Returns-if :
      (b : Bool) (m n : Exec S E A)
      → (b ≡ true → Returns P m Q)
      → (b ≡ false → Returns P n Q)
      → Returns P (if b then m else n) Q
  Returns-if true m n k l = k refl
  Returns-if false m n k l = l refl

module _ {S E A : Type 0} (Q R : A → S → Type 0) where
  -- It returns, and what holds when it returns.
  pub OkAnd-both :
      (r : Result E A) (s : S) → OkAnd Q r s → OkThen R r s → OkAnd (λ a t. Q a t × R a t) r s
  OkAnd-both (ok a) s q h = (q, h)
  OkAnd-both (err e) s q h = absurd q

  pub OkAnd-weaken :
      (r : Result E A) (s : S) → ((a : A) (t : S) → Q a t → R a t) → OkAnd Q r s → OkAnd R r s
  OkAnd-weaken (ok a) s k q = k a s q
  OkAnd-weaken (err e) s k q = absurd q
