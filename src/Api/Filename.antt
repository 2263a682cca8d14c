-- ===== src/Api/Filename.antt =====
-- backend/internal/api/publish_photos.go: sanitizeFilename, with path.Base of the standard library.
pub mod Safe
use mathlib.Core.List.{map}
use photogallery.Prelude.{
  ℕ, Bool, true, false, ◌&&◌, ◌||◌, List, [], ◌∷◌, ◌++◌, ltb, eqb, if◌then◌else◌, length, take, any,
}
use photogallery.Prelude.Text.{Text, bytes, is_empty, trim_right, ◌==◌}
use photogallery.Prelude.Space.{trim_space}
use photogallery.Prelude.Utf8.{runes}

abbrev pub max_filename_len : ℕ
max_filename_len = 255

-- What follows the last `c`.
unfoldable pub after_last : ℕ → Text → Text
after_last c [] = []
after_last c (x ∷ s) =
    let rest = after_last c s in if any (eqb c) s then rest else if eqb x c then s else x ∷ s

abbrev or_slash : Text → Text
or_slash s = if is_empty s then bytes "/" else s

-- `path.Base`
unfoldable pub base_name : Text → Text
unfolding after_last trim_right
base_name [] = bytes "."
base_name (c ∷ s) = or_slash (after_last b'/' (trim_right b'/' (c ∷ s)))

-- / \ " : * ? < > |
abbrev pub is_unsafe : ℕ → Bool
is_unsafe c = any (eqb c) (b'/' ∷ 0x5c ∷ 0x22 ∷ b':' ∷ b'*' ∷ b'?' ∷ b'<' ∷ b'>' ∷ b'|' ∷ [])

abbrev pub is_unsafe_rune : Text → Bool
is_unsafe_rune (c ∷ []) = is_unsafe c
is_unsafe_rune r = false

-- `unicode.IsControl`: below U+0020, and from U+007F to U+009F
abbrev pub is_control : Text → Bool
is_control (c ∷ []) = ltb c 0x20 || eqb c 0x7f
is_control (a ∷ b ∷ []) = eqb a 0xc2 && ltb b 0xa0
is_control r = false

unfoldable pub sanitize_rune : Text → Text
sanitize_rune r = if is_unsafe_rune r then bytes "_" else if is_control r then [] else r

unfoldable pub sanitize_runes : List Text → Text
unfolding sanitize_rune
sanitize_runes [] = []
sanitize_runes (r ∷ rs) = sanitize_rune r ++ sanitize_runes rs

-- `strings.ReplaceAll(name, "\\", "/")`
abbrev pub forward_slashes : Text → Text
forward_slashes name = map (λ c. if eqb c 0x5c then b'/' else c) name

-- `out[:n]` of a longer name
unfoldable pub cut_at : ℕ → Text → Text
cut_at n out = if ltb n (length out) then take n out else out

unfoldable pub cut_name : Text → Text
unfolding cut_at
cut_name out = if (out == bytes ".") || (out == bytes "..") then [] else cut_at max_filename_len out

unfoldable pub sanitize_filename : Text → Text
unfolding base_name runes sanitize_runes trim_space cut_name
sanitize_filename name =
    cut_name (trim_space (sanitize_runes (runes 0 (base_name (forward_slashes name)))))
