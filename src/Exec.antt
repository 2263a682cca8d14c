-- ===== src/Exec.antt =====
-- Go functions that change state and may fail: the state comes back beside the error too.
pub mod Keeps
pub mod Ensures
pub mod Yields
pub mod Returns
pub mod Reaches
use photogallery.Prelude.{Bool, true, false, Option, none, some}

pub data Result {ℓ} (E A : Type ℓ) : Type ℓ where
  ok : A → Result E A
  err : E → Result E A

abbrev pub Exec : Type 0 → Type 0 → Type 0 → Type 0
Exec S E A = S → Result E A × S

module _ {S E A : Type 0} where
  abbrev pub pure : A → Exec S E A
  pure a s = (ok a, s)

  abbrev pub throw : E → Exec S E A
  throw e s = (err e, s)

  abbrev pub gets : (S → A) → Exec S E A
  gets f s = (ok (f s), s)

  abbrev pub or_throw : E → Option A → Exec S E A
  or_throw e none = throw e
  or_throw e (some a) = pure a

module _ {S E : Type 0} where
  abbrev pub modify : (S → S) → Exec S E Unit
  modify f s = (ok tt, f s)

  abbrev pub throw_if : Bool → E → Exec S E Unit
  throw_if true e = throw e
  throw_if false e = pure tt

  abbrev pub skip : Exec S E Unit
  skip = pure tt

module _ {S E A B : Type 0} where
  abbrev pub after : Result E A → (A → Exec S E B) → Exec S E B
  after (ok a) f s = f a s
  after (err e) f s = (err e, s)

  infixl 5 ◌>>=◌
  abbrev pub ◌>>=◌ : Exec S E A → (A → Exec S E B) → Exec S E B
  ◌>>=◌ m f s = let (r, s') = m s in after r f s'

module _ {S E B : Type 0} where
  infixl 5 ◌>>◌
  abbrev pub ◌>>◌ : Exec S E Unit → Exec S E B → Exec S E B
  m >> n = m >>= λ _. n

-- The error as a value, for a caller that looks at it.
abbrev pub attempt : {S E F A : Type 0} → Exec S E A → Exec S F (Result E A)
attempt m s = let (r, s') = m s in (ok r, s')

-- `defer`: the clean-up runs whether the body returns or fails.
abbrev pub finally : {S E A : Type 0} → (S → S) → Exec S E A → Exec S E A
finally clean m s = let (r, s') = m s in (r, clean s')

-- An error that was kept as a value, returned after all.
abbrev pub rethrow : {S E A : Type 0} → Result E A → Exec S E A
rethrow r s = (r, s)
