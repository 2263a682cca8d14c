-- ===== src/Api/Filename/Safe.antt =====
-- What a sanitized file name can hold.
use mathlib.Core.List.{reverse, reverse-append}
use photogallery.Prelude.{
  ℕ, ◌-◌, zero, suc, ◌≤◌, ◌<◌, ◌≡◌, ◌≢◌, refl, ap, Bool, true, ◌&&◌, not, [], ◌∷◌, ◌++◌, arith, leb,
  eqb, length, take, any, all, length-take,
}
use photogallery.Prelude.Text.{Text, text_dec, text_eq, text_ne, bytes}
use photogallery.Prelude.Space.{skip_space, skip_space_back, trim_space}
use photogallery.Prelude.Utf8.{rune_len, first_len, rune, runes}
use photogallery.Api.Filename.{
  is_unsafe, sanitize_rune, sanitize_runes, forward_slashes, base_name, cut_at, cut_name,
  sanitize_filename,
}

-- A byte that a file name may hold.
abbrev pub is_safe : ℕ → Bool
is_safe c = leb 0x20 c && (not (eqb c 0x7f) && not (is_unsafe c))

all_and :
    (p : ℕ → Bool) (x : ℕ) (xs : Text) → all p (x ∷ xs) ≡ true → (p x ≡ true) × (all p xs ≡ true)
unfolding all
all_and p x xs h = (ground (arith, h), ground (arith, h))

all-append :
    (p : ℕ → Bool) (xs ys : Text) → all p xs ≡ true → all p ys ≡ true → all p (xs ++ ys) ≡ true
unfolding all
all-append p [] ys h k = k
all-append p (x ∷ xs) ys h k = ground (arith, h, k, all-append p xs ys)

all-take : (p : ℕ → Bool) (n : ℕ) (xs : Text) → all p xs ≡ true → all p (take n xs) ≡ true
unfolding all
all-take p zero xs h = refl
all-take p (suc n) [] h = refl
all-take p (suc n) (x ∷ xs) h = ground (arith, h, all-take p n xs)

all-skip_space : (p : ℕ → Bool) (xs : Text) → all p xs ≡ true → all p (skip_space xs) ≡ true
unfolding all skip_space
all-skip_space p [] h = refl
all-skip_space p (a ∷ []) h = ground (arith, h)
all-skip_space p (a ∷ b ∷ []) h = ground (arith, h, all-skip_space p (b ∷ []))
all-skip_space p (a ∷ b ∷ c ∷ s) h =
    ground (arith, h, all-skip_space p (b ∷ c ∷ s), all-skip_space p (c ∷ s), all-skip_space p s)

all-skip_space_back :
    (p : ℕ → Bool) (xs : Text) → all p xs ≡ true → all p (skip_space_back xs) ≡ true
unfolding all skip_space_back
all-skip_space_back p [] h = refl
all-skip_space_back p (a ∷ []) h = ground (arith, h)
all-skip_space_back p (a ∷ b ∷ []) h = ground (arith, h, all-skip_space_back p (b ∷ []))
all-skip_space_back p (a ∷ b ∷ c ∷ s) h = ground (
  arith,
  h,
  all-skip_space_back p (b ∷ c ∷ s),
  all-skip_space_back p (c ∷ s),
  all-skip_space_back p s,
)

all-reverse : (p : ℕ → Bool) (xs : Text) → all p xs ≡ true → all p (reverse xs) ≡ true
unfolding all
all-reverse p [] h = refl
all-reverse p (x ∷ xs) h =
    rw (reverse-append (x ∷ []) xs)
      (all-append p (reverse xs) (x ∷ []) (ground (arith, h, all-reverse p xs)) (ground (arith, h)))

all-trim_space : (p : ℕ → Bool) (xs : Text) → all p xs ≡ true → all p (trim_space xs) ≡ true
unfolding trim_space
all-trim_space p xs h =
    all-reverse p _
      (all-skip_space_back p _ (all-reverse p (skip_space xs) (all-skip_space p xs h)))

-- A rune is one byte below 0x80, or all its bytes are above.
abbrev is_rune : Text → Bool
is_rune [] = true
is_rune (c ∷ []) = true
is_rune (c ∷ r) = all (leb 0x80) (c ∷ r)

rune-is_rune : (a : ℕ) (s : Text) → is_rune (rune (first_len (a ∷ s)) (a ∷ s)) ≡ true
unfolding rune_len all
rune-is_rune a [] = ground arith
rune-is_rune a (b ∷ []) = ground arith
rune-is_rune a (b ∷ c ∷ []) = ground arith
rune-is_rune a (b ∷ c ∷ d ∷ s) = ground arith

all_mono :
    (p q : ℕ → Bool) (xs : Text)
    → ((c : ℕ) → p c ≡ true → q c ≡ true)
    → all p xs ≡ true
    → all q xs ≡ true
unfolding all
all_mono p q [] k h = refl
all_mono p q (x ∷ xs) k h = ground (arith, h, k x, all_mono p q xs k)

above-is_safe : (c : ℕ) → leb 0x80 c ≡ true → is_safe c ≡ true
unfolding any
above-is_safe c h = ground (arith, h)

sanitize_rune-is_safe : (r : Text) → is_rune r ≡ true → all is_safe (sanitize_rune r) ≡ true
unfolding sanitize_rune all any
sanitize_rune-is_safe [] h = refl
sanitize_rune-is_safe (c ∷ []) h = ground arith
sanitize_rune-is_safe (c ∷ d ∷ []) h = ground (arith, h)
sanitize_rune-is_safe (c ∷ d ∷ e ∷ r) h =
    all_mono (leb 0x80) is_safe (c ∷ d ∷ e ∷ r) above-is_safe h

runes-is_safe : (skip : ℕ) (s : Text) → all is_safe (sanitize_runes (runes skip s)) ≡ true
unfolding runes sanitize_runes all
runes-is_safe skip [] = refl
runes-is_safe (suc skip) (c ∷ s) = runes-is_safe skip s
runes-is_safe zero (c ∷ s) =
    let first = rune (first_len (c ∷ s)) (c ∷ s) in
    all-append is_safe (sanitize_rune first) (sanitize_runes (runes (first_len (c ∷ s) - 1) s))
      (sanitize_rune-is_safe first (rune-is_rune c s)) (runes-is_safe (first_len (c ∷ s) - 1) s)

length-cut_at-le : (n : ℕ) (out : Text) → length (cut_at n out) ≤ n
unfolding cut_at
length-cut_at-le n out = ground (arith, length-take n out)

-- A name that is cut has the full length.
cut_at-ne : (n : ℕ) (out s : Text) → length s < n → out ≢ s → cut_at n out ≢ s
unfolding cut_at
cut_at-ne n out s h k e = ground (arith, h, k, e, ap length e, length-take n out)

all-cut_at : (p : ℕ → Bool) (n : ℕ) (out : Text) → all p out ≡ true → all p (cut_at n out) ≡ true
unfolding cut_at
all-cut_at p n out h = ground (arith, h, all-take p n out)

-- Only safe bytes, at most 255 of them, and no name of a directory.
pub record IsSafeName (out : Text) : Type 0 where
  pub bytes_safe : all is_safe out ≡ true
  pub short : length out ≤ 255
  pub not_dot : out ≢ bytes "."
  pub not_dots : out ≢ bytes ".."

cut_name-IsSafeName : (out : Text) → all is_safe out ≡ true → IsSafeName (cut_name out)
unfolding cut_name all
cut_name-IsSafeName out h = elim (text_dec out (bytes ".")) [
  | yes e ↦ rw (text_eq out (bytes ".") e) empty
  | no k ↦ elim (text_dec out (bytes "..")) [
    | yes e ↦ rw (text_eq out (bytes "..") e) (ground (arith, empty))
    | no l ↦
        rw (text_ne out (bytes ".") k, text_ne out (bytes "..") l)
          (record {
            bytes_safe = all-cut_at is_safe 255 out h;
            short = length-cut_at-le 255 out;
            not_dot = cut_at-ne 255 out (bytes ".") (omega arith) k;
            not_dots = cut_at-ne 255 out (bytes "..") (omega arith) l;
          })
  ]
]
  where
    empty : IsSafeName []
    empty = record { bytes_safe = refl; short = omega arith; not_dot = λ e. cc; not_dots = λ e. cc }

-- Whatever text a client sends as a file name: the sanitized name has at most 255 bytes, none of
-- them an ASCII control character or one of / \ " : * ? < > |, and it is neither "." nor "..".
pub sanitize_filename-IsSafeName : (name : Text) → IsSafeName (sanitize_filename name)
unfolding sanitize_filename
sanitize_filename-IsSafeName name =
    cut_name-IsSafeName _
      (all-trim_space is_safe _ (runes-is_safe 0 (base_name (forward_slashes name))))
