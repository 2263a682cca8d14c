-- ===== src/Auth/Base64/Tokens.antt =====
-- Encoded text in a header: strings.TrimSpace leaves it as it is.
use mathlib.Core.List.{reverse, reverse-cons, reverse-reverse}
use photogallery.Prelude.{
  ℕ, ◌+◌, ◌/◌, ◌%◌, ◌*◌, ◌<◌, ◌≤◌, ◌≡◌, refl, Bool, true, ◌&&◌, [], ◌∷◌, arith, leb, all,
  all-append_one, all_below, test_below, length,
}
use photogallery.Prelude.Text.{Text}
use photogallery.Prelude.Space.{skip_space, skip_space_back, trim_space}
use photogallery.Auth.Base64.{AreBytes, digit, encode}

abbrev pub is_token : ℕ → Bool
is_token c = leb 45 c && leb c 122

token_table : all_below 64 (λ v. is_token (digit v)) ≡ true
unfolding all_below digit
token_table = refl

digit-is_token : (v : ℕ) → v < 64 → is_token (digit v) ≡ true
digit-is_token v h = test_below (λ v. is_token (digit v)) 64 token_table v h

pub encode-is_token : (s : Text) → AreBytes s → all is_token (encode s) ≡ true
unfolding encode all
encode-is_token [] h = refl
encode-is_token (a ∷ []) h =
    ground (arith, digit-is_token (a / 4) (omega arith), digit-is_token (a % 4 * 16) (omega arith))
encode-is_token (a ∷ b ∷ []) h = ground (
  arith,
  digit-is_token (a / 4) (omega arith),
  digit-is_token (a % 4 * 16 + b / 16) (omega arith),
  digit-is_token (b % 16 * 4) (omega arith),
)
encode-is_token (a ∷ b ∷ c ∷ s) h = ground (
  arith,
  digit-is_token (a / 4) (omega arith),
  digit-is_token (a % 4 * 16 + b / 16) (omega arith),
  digit-is_token (b % 16 * 4 + c / 64) (omega arith),
  digit-is_token (c % 64) (omega arith),
  encode-is_token s h.1.1.1,
)

pub length-encode-ge : (s : Text) → length s ≤ length (encode s)
unfolding encode
length-encode-ge [] = omega arith
length-encode-ge (a ∷ []) = omega arith
length-encode-ge (a ∷ b ∷ []) = omega arith
length-encode-ge (a ∷ b ∷ c ∷ s) = omega (arith, length-encode-ge s)

skip-tokens : (s : Text) → all is_token s ≡ true → skip_space s ≡ s
unfolding skip_space all
skip-tokens [] h = refl
skip-tokens (a ∷ []) h = ground (arith, h)
skip-tokens (a ∷ b ∷ []) h = ground (arith, h)
skip-tokens (a ∷ b ∷ c ∷ s) h = ground (arith, h)

skip_back-tokens : (s : Text) → all is_token s ≡ true → skip_space_back s ≡ s
unfolding skip_space_back all
skip_back-tokens [] h = refl
skip_back-tokens (a ∷ []) h = ground (arith, h)
skip_back-tokens (a ∷ b ∷ []) h = ground (arith, h)
skip_back-tokens (a ∷ b ∷ c ∷ s) h = ground (arith, h)

all-reverse : (p : ℕ → Bool) (s : Text) → all p s ≡ true → all p (reverse s) ≡ true
unfolding all
all-reverse p [] h = refl
all-reverse p (c ∷ s) h =
    rw (reverse-cons c s)
      (all-append_one p c (reverse s) (all-reverse p s (ground (arith, h))) (ground (arith, h)))

pub trim_space-tokens : (s : Text) → all is_token s ≡ true → trim_space s ≡ s
unfolding trim_space
trim_space-tokens s h =
    rw (skip-tokens s h, skip_back-tokens (reverse s) (all-reverse is_token s h))
      (reverse-reverse s)
