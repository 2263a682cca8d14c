-- ===== src/Auth/Base64.antt =====
-- base64.RawURLEncoding of Go's standard library, as cookie.go and apikey.go use it: three bytes
-- to four characters, no padding. The decoder skips line breaks and ignores left-over low bits.
pub mod Tokens
use photogallery.Prelude.{
  ℕ, ◌+◌, ◌*◌, ◌/◌, ◌%◌, ◌<◌, ◌≡◌, refl, ap, Bool, true, false, ◌||◌, Option, none, some, [], ◌∷◌,
  arith, leb, eqb, if◌then◌else◌, All, filter, all_below, test_below, ◌&&◌, ◌-◌, not,
}
use photogallery.Prelude.Text.{Text}

abbrev pub AreBytes : Text → Type 0
AreBytes s = All (λ c. c < 256) s

-- The character of a 6-bit value.
unfoldable pub digit : ℕ → ℕ
digit v =
    if leb v 25
    then b'A' + v
    else if leb v 51
    then b'a' + v - 26
    else if leb v 61
    then b'0' + v - 52
    else if eqb v 62
    then b'-'
    else b'_'

-- The value of a character; none for one outside the alphabet.
unfoldable pub value : ℕ → Option ℕ
value c =
    if leb b'A' c && leb c b'Z'
    then some (c - b'A')
    else if leb b'a' c && leb c b'z'
    then some (c - b'a' + 26)
    else if leb b'0' c && leb c b'9'
    then some (c - b'0' + 52)
    else if eqb c b'-'
    then some 62
    else if eqb c b'_'
    then some 63
    else none

unfoldable pub encode : Text → Text
unfolding digit
encode [] = []
encode (a ∷ []) = digit (a / 4) ∷ digit (a % 4 * 16) ∷ []
encode (a ∷ b ∷ []) = digit (a / 4) ∷ digit (a % 4 * 16 + b / 16) ∷ digit (b % 16 * 4) ∷ []
encode (a ∷ b ∷ c ∷ s) =
    digit (a / 4)
    ∷ digit (a % 4 * 16 + b / 16)
    ∷ digit (b % 16 * 4 + c / 64)
    ∷ digit (c % 64)
    ∷ encode s

infixl 5 ◌>>=◌
abbrev ◌>>=◌ : {A B : Type 0} → Option A → (A → Option B) → Option B
none >>= f = none
some a >>= f = f a

abbrev is_break : ℕ → Bool
is_break c = eqb c 10 || eqb c 13

-- The decoder behind the removal of line breaks.
unfoldable pub decode_digits : Text → Option Text
unfolding value
decode_digits [] = some []
decode_digits (w ∷ []) = none
decode_digits (w ∷ x ∷ []) = do a ← value w; b ← value x; some ((a * 4 + b / 16) ∷ [])
decode_digits (w ∷ x ∷ y ∷ []) = do
  a ← value w
  b ← value x
  c ← value y
  some ((a * 4 + b / 16) ∷ (b % 16 * 16 + c / 4) ∷ [])
decode_digits (w ∷ x ∷ y ∷ z ∷ s) = do
  a ← value w
  b ← value x
  c ← value y
  d ← value z
  rest ← decode_digits s
  some ((a * 4 + b / 16) ∷ (b % 16 * 16 + c / 4) ∷ (c % 4 * 64 + d) ∷ rest)

unfoldable pub decode : Text → Option Text
unfolding decode_digits filter
decode s = decode_digits (filter (λ c. not (is_break c)) s)

-- What the alphabet gives: a digit is read back, and is no line break and no dot.
abbrev digit_test : ℕ → Bool
digit_test v =
    elim (value (digit v)) [ none ↦ false | some w ↦ eqb w v ]
    && not (is_break (digit v))
    && not (eqb (digit v) b'.')

digit_table : all_below 64 digit_test ≡ true
unfolding all_below value digit
digit_table = refl

digit_tests : (v : ℕ) → v < 64 → digit_test v ≡ true
digit_tests v h = test_below digit_test 64 digit_table v h

value-digit : (v : ℕ) → v < 64 → value (digit v) ≡ some v
value-digit v h = ground (arith, digit_tests v h)

digit-ne-break : (v : ℕ) → v < 64 → is_break (digit v) ≡ false
digit-ne-break v h = ground (arith, digit_tests v h)

digit-ne-dot : (v : ℕ) → v < 64 → eqb (digit v) b'.' ≡ false
digit-ne-dot v h = ground (arith, digit_tests v h)

abbrev IsPlain : ℕ → Type 0
IsPlain c = (is_break c ≡ false) × (eqb c b'.' ≡ false)

digit-IsPlain : (v : ℕ) → v < 64 → IsPlain (digit v)
digit-IsPlain v h = (digit-ne-break v h, digit-ne-dot v h)

-- Encoded text holds no line break and no dot.
encode-IsPlain : (s : Text) → AreBytes s → All IsPlain (encode s)
unfolding encode
encode-IsPlain [] h = tt
encode-IsPlain (a ∷ []) h =
    (digit-IsPlain (a / 4) (omega arith), (digit-IsPlain (a % 4 * 16) (omega arith), tt))
encode-IsPlain (a ∷ b ∷ []) h = (
  digit-IsPlain (a / 4) (omega arith),
  (
    digit-IsPlain (a % 4 * 16 + b / 16) (omega arith),
    (digit-IsPlain (b % 16 * 4) (omega arith), tt),
  ),
)
encode-IsPlain (a ∷ b ∷ c ∷ s) h = (
  digit-IsPlain (a / 4) (omega arith),
  (
    digit-IsPlain (a % 4 * 16 + b / 16) (omega arith),
    (
      digit-IsPlain (b % 16 * 4 + c / 64) (omega arith),
      (digit-IsPlain (c % 64) (omega arith), encode-IsPlain s h.1.1.1),
    ),
  ),
)

abbrev pub HasNoDot : Text → Type 0
HasNoDot s = All (λ c. eqb c b'.' ≡ false) s

no_dot_of_plain : (s : Text) → All IsPlain s → HasNoDot s
no_dot_of_plain [] h = tt
no_dot_of_plain (c ∷ s) h = (h.0.1, no_dot_of_plain s h.1)

pub encode-HasNoDot : (s : Text) → AreBytes s → HasNoDot (encode s)
encode-HasNoDot s h = no_dot_of_plain (encode s) (encode-IsPlain s h)

filter_plain : (s : Text) → All IsPlain s → filter (λ c. not (is_break c)) s ≡ s
unfolding filter
filter_plain [] h = refl
filter_plain (c ∷ s) h = rw (h.0.0, filter_plain s h.1)

decode_digits-encode : (s : Text) → AreBytes s → decode_digits (encode s) ≡ some s
unfolding decode_digits encode
decode_digits-encode [] h = refl
decode_digits-encode (a ∷ []) h =
    rw (value-digit (a / 4) (omega arith), value-digit (a % 4 * 16) (omega arith))
      (ap (λ x. some (x ∷ [])) (omega arith))
decode_digits-encode (a ∷ b ∷ []) h =
    rw
      (
        value-digit (a / 4) (omega arith),
        value-digit (a % 4 * 16 + b / 16) (omega arith),
        value-digit (b % 16 * 4) (omega arith),
      )
      (ground arith)
decode_digits-encode (a ∷ b ∷ c ∷ s) h =
    rw
      (
        value-digit (a / 4) (omega arith),
        value-digit (a % 4 * 16 + b / 16) (omega arith),
        value-digit (b % 16 * 4 + c / 64) (omega arith),
        value-digit (c % 64) (omega arith),
        decode_digits-encode s h.1.1.1,
      )
      (ground arith)

-- Decoding gives back the bytes that were encoded.
pub decode-encode : (s : Text) → AreBytes s → decode (encode s) ≡ some s
unfolding decode
decode-encode s h = rw (filter_plain (encode s) (encode-IsPlain s h)) (decode_digits-encode s h)
