-- ===== src/Prelude/Utf8.antt =====
-- `for _, r := range s` of Go: the runes of a string, each as its UTF-8 encoding.
use Prim.Native.Nat.{ℕ, zero, suc, ◌-◌}
use mathlib.Core.Bool.{Bool, ◌&&◌}
use mathlib.Core.List.{List, [], ◌∷◌}
use photogallery.Prelude.Tests.{ltb, leb, eqb, if◌then◌else◌}
use photogallery.Prelude.Lists.{get_or, take}
use photogallery.Prelude.Text.{Text}

abbrev is_continuation : ℕ → Bool
is_continuation c = leb 0x80 c && leb c 0xbf

-- The second byte of three: no overlong form and no surrogate.
abbrev is_second₃ : ℕ → ℕ → Bool
is_second₃ a b =
    leb (if eqb a 0xe0 then 0xa0 else 0x80) b && leb b (if eqb a 0xed then 0x9f else 0xbf)

-- The second byte of four: no overlong form and nothing above U+10FFFF.
abbrev is_second₄ : ℕ → ℕ → Bool
is_second₄ a b =
    leb (if eqb a 0xf0 then 0x90 else 0x80) b && leb b (if eqb a 0xf4 then 0x8f else 0xbf)

-- The length of the encoding that starts with these four bytes; 0 if none does.
unfoldable pub rune_len : ℕ → ℕ → ℕ → ℕ → ℕ
rune_len a b c d =
    if ltb a 0x80
    then 1
    else if leb 0xc2 a && leb a 0xdf
    then (if is_continuation b then 2 else 0)
    else if leb 0xe0 a && leb a 0xef
    then (if is_second₃ a b && is_continuation c then 3 else 0)
    else if leb 0xf0 a && leb a 0xf4
    then (if is_second₄ a b && (is_continuation c && is_continuation d) then 4 else 0)
    else 0

abbrev pub first_len : Text → ℕ
first_len s = rune_len (get_or s 0 0) (get_or s 1 0) (get_or s 2 0) (get_or s 3 0)

-- An invalid byte is read as U+FFFD.
abbrev pub rune : ℕ → Text → Text
rune zero s = 0xef ∷ 0xbf ∷ 0xbd ∷ []
rune (suc n) s = take (suc n) s

-- `skip` bytes belong to the rune before.
unfoldable pub runes : ℕ → Text → List Text
unfolding rune_len
runes skip [] = []
runes (suc skip) (c ∷ s) = runes skip s
runes zero (c ∷ s) = rune (first_len (c ∷ s)) (c ∷ s) ∷ runes (first_len (c ∷ s) - 1) s
