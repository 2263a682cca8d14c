-- ===== src/Prelude/Space.antt =====
-- strings.TrimSpace of Go's standard library: white space of Unicode, in its UTF-8 encoding.
use photogallery.Prelude.Tests.{leb, eqb, if◌then◌else◌}
use photogallery.Prelude.Text.{Text}
use Prim.Native.Nat.{ℕ}
use mathlib.Core.Bool.{Bool, ◌&&◌, ◌||◌}
use mathlib.Core.List.{[], ◌∷◌, reverse}

abbrev pub is_ascii_space : ℕ → Bool
is_ascii_space c = (leb 9 c && leb c 13) || eqb c 32

-- U+0085 and U+00A0
abbrev is_space₂ : ℕ → ℕ → Bool
is_space₂ a b = eqb a 0xc2 && (eqb b 0x85 || eqb b 0xa0)

-- U+1680, U+2000 to U+200A, U+2028, U+2029, U+202F, U+205F and U+3000
abbrev is_space₃ : ℕ → ℕ → ℕ → Bool
is_space₃ a b c =
    (eqb a 0xe1 && eqb b 0x9a && eqb c 0x80)
    || ((eqb a 0xe2
          && eqb b 0x80
          && (leb 0x80 c && leb c 0x8a || eqb c 0xa8 || eqb c 0xa9 || eqb c 0xaf))
        || ((eqb a 0xe2 && eqb b 0x81 && eqb c 0x9f) || (eqb a 0xe3 && eqb b 0x80 && eqb c 0x80)))

unfoldable pub skip_space : Text → Text
skip_space [] = []
skip_space (a ∷ []) = if is_ascii_space a then [] else a ∷ []
skip_space (a ∷ b ∷ []) =
    let one = skip_space (b ∷ []) in
    if is_ascii_space a then one else if is_space₂ a b then [] else a ∷ b ∷ []
skip_space (a ∷ b ∷ c ∷ s) =
    let one = skip_space (b ∷ c ∷ s) in
    let two = skip_space (c ∷ s) in
    let three = skip_space s in
    if is_ascii_space a
    then one
    else if is_space₂ a b
    then two
    else if is_space₃ a b c
    then three
    else a ∷ b ∷ c ∷ s

-- From the end: the bytes of a character come in the reverse order.
unfoldable pub skip_space_back : Text → Text
skip_space_back [] = []
skip_space_back (a ∷ []) = if is_ascii_space a then [] else a ∷ []
skip_space_back (a ∷ b ∷ []) =
    let one = skip_space_back (b ∷ []) in
    if is_ascii_space a then one else if is_space₂ b a then [] else a ∷ b ∷ []
skip_space_back (a ∷ b ∷ c ∷ s) =
    let one = skip_space_back (b ∷ c ∷ s) in
    let two = skip_space_back (c ∷ s) in
    let three = skip_space_back s in
    if is_ascii_space a
    then one
    else if is_space₂ b a
    then two
    else if is_space₃ c b a
    then three
    else a ∷ b ∷ c ∷ s

unfoldable pub trim_space : Text → Text
unfolding skip_space skip_space_back
trim_space s = reverse (skip_space_back (reverse (skip_space s)))
