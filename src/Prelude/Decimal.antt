-- ===== src/Prelude/Decimal.antt =====
-- `%d` of package fmt, for a number that is not negative.
use Prim.Native.Nat.{ℕ, zero, suc, ◌+◌, ◌-◌, ◌*◌, ◌/◌, ◌%◌, ◌<◌}
use mathlib.Core.Path.{◌≡◌, refl, sym, ap, ◌∙◌}
use mathlib.Core.Logic.{inl, inr}
use mathlib.Core.List.{[], ◌∷◌, ◌++◌}
use native.Mathlib.Omega.{arith}
use photogallery.Prelude.Tests.{ltb, if◌then◌else◌, Bool-cases}
use photogallery.Prelude.Text.{Text}

-- The digits, on fuel; a number has fewer than one more than itself.
unfoldable pub decimal_on : ℕ → ℕ → Text
decimal_on zero n = []
decimal_on (suc k) n =
    let rest = decimal_on k (n / 10) in
    if ltb n 10 then (48 + n) ∷ [] else rest ++ (48 + n % 10) ∷ []

unfoldable pub decimal : ℕ → Text
unfolding decimal_on
decimal n = decimal_on (n + 1) n

number : ℕ → Text → ℕ
number acc [] = acc
number acc (c ∷ s) = number (acc * 10 + (c - 48)) s

number-append :
    (acc : ℕ) (s : Text) (d : ℕ) → number acc (s ++ d ∷ []) ≡ number acc s * 10 + (d - 48)
unfolding number
number-append acc [] d = refl
number-append acc (c ∷ s) d = number-append (acc * 10 + (c - 48)) s d

number-decimal_on : (k n : ℕ) → n < k → number 0 (decimal_on k n) ≡ n
unfolding number decimal_on
number-decimal_on zero n h = absurd (omega (arith, h))
number-decimal_on (suc k) n h = elim (Bool-cases (ltb n 10)) [
  | inl e ↦ rw e (omega arith)
  | inr e ↦ rw e (
      number-append 0 (decimal_on k (n / 10)) (48 + n % 10)
      ∙ rw (number-decimal_on k (n / 10) (ground (arith, h, e))) (omega arith))
]

pub decimal-inj : (m n : ℕ) → decimal m ≡ decimal n → m ≡ n
unfolding decimal
decimal-inj m n e =
    sym (number-decimal_on (m + 1) m (omega arith))
    ∙ (ap (number 0) e ∙ number-decimal_on (n + 1) n (omega arith))
