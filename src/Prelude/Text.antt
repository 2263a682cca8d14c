-- ===== src/Prelude/Text.antt =====
-- Go strings: sequences of bytes, with the functions of package strings that the server calls.
use Prim.Native.Nat.{ℕ, ◌≤◌}
use Prim.Native.Char.{code}
use Prim.Native.String.{String}
use mathlib.Core.Path.{◌≡◌, refl, ap₂}
use mathlib.Core.Logic.{◌≢◌, ite}
use mathlib.Core.Bool.{Bool, true, false}
use mathlib.Core.List.{List, [], ◌∷◌}
use native.Mathlib.Omega.{arith}
use native.Mathlib.Decide.{ℕ_discrete}
use photogallery.Prelude.Tests.{eqb, if◌then◌else◌}
use photogallery.Prelude.Lists.{length}

abbrev pub Text : Type 0
Text = List ℕ

-- The bytes of an ASCII literal.
abbrev pub bytes : String → Text
bytes String.[] = []
bytes (String.◌∷◌ c s) = code c ∷ bytes s

unfoldable pub text_dec : Discrete Text
unfolding ℕ_discrete
text_dec [] [] = yes refl
text_dec [] (b ∷ t) = no (λ p. cc)
text_dec (a ∷ s) [] = no (λ p. cc)
text_dec (a ∷ s) (b ∷ t) =
    let rest = text_dec s t in
    elim (ℕ_discrete a b) [
      | yes p ↦ elim rest [ yes q ↦ yes (ap₂ ◌∷◌ p q) | no n ↦ no (λ r. n (cc)) ]
      | no n ↦ no (λ r. n (cc))
    ]

-- Shut in proofs, where a split on `s == t` yields the equation or its negation.
infix 50 ◌==◌
abbrev pub ◌==◌ : Text → Text → Bool
s == t = ite (text_dec s t) true false

abbrev pub is_empty : Text → Bool
is_empty [] = true
is_empty (c ∷ s) = false

-- strings.TrimLeft(s, cutset) for a one-byte cutset
unfoldable pub trim_left : ℕ → Text → Text
trim_left c [] = []
trim_left c (x ∷ s) = if eqb x c then trim_left c s else x ∷ s

-- strings.TrimRight(s, cutset) for a one-byte cutset
unfoldable pub trim_right : ℕ → Text → Text
trim_right c [] = []
trim_right c (x ∷ s) =
    let rest = trim_right c s in
    if eqb x c then (if is_empty rest then [] else x ∷ rest) else x ∷ rest

-- strings.Trim(s, cutset) for a one-byte cutset
unfoldable pub trim : ℕ → Text → Text
unfolding trim_left trim_right
trim c s = trim_right c (trim_left c s)

length-trim_left-le : (c : ℕ) (s : Text) → length (trim_left c s) ≤ length s
unfolding trim_left
length-trim_left-le c [] = omega arith
length-trim_left-le c (x ∷ s) = ground (arith, length-trim_left-le c s)

length-trim_right-le : (c : ℕ) (s : Text) → length (trim_right c s) ≤ length s
unfolding trim_right
length-trim_right-le c [] = omega arith
length-trim_right-le c (x ∷ s) = ground (arith, length-trim_right-le c s)

pub length-trim-le : (c : ℕ) (s : Text) → length (trim c s) ≤ length s
unfolding trim
length-trim-le c s = omega (arith, length-trim_right-le c (trim_left c s), length-trim_left-le c s)

pub text_eq : (s t : Text) → s ≡ t → (s == t) ≡ true
text_eq s t e = ground (arith, e)

pub text_ne : (s t : Text) → s ≢ t → (s == t) ≡ false
text_ne s t k = ground (arith, k)
