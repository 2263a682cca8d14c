-- ===== src/Slug/Valid.antt =====
-- Every slug that `slugify` and `withUniqueSlug` make passes the test that the visitor handlers
-- put in front of it, and the test's automaton is the regular expression.
use photogallery.Prelude.{
  ℕ, zero, suc, ◌+◌, ◌%◌, ◌≤◌, ◌<◌, ◌≡◌, refl, ◌⊎◌, inl, inr, Bool, true, false, not, some, List,
  [], ◌∷◌, ◌++◌, arith, leb, ltb, get_or, ap, Bool-cases, length, take, All, length-take,
  length-append, all_below, test_below,
}
use photogallery.Prelude.Text.{Text, trim_left, trim_right, trim, length-trim-le}
use photogallery.Slug.{
  dash, max_slug_len, is_lower_alnum, is_upper, slug_step, slug_loop, cap_slug, or_album, slugify,
  slug_re_from, valid_slug, suffix_char, suffix_chars, slug_suffix, slug_suffix_alphabet, read_full,
  Rand,
}

-- Letters, digits and dashes, no two dashes in a row, and no dash first if `last_dash`.
abbrev Clean : Bool → Text → Type 0
Clean last_dash [] = Unit
Clean last_dash (c ∷ s) =
    ((is_lower_alnum c ≡ true) × Clean false s) ⊎ ((c ≡ dash) × (last_dash ≡ false) × Clean true s)

Clean-weaken : (s : Text) → Clean true s → Clean false s
Clean-weaken [] h = tt
Clean-weaken (c ∷ s) h = ground arith

lower-IsAlnum : (r : ℕ) → is_upper r ≡ true → is_lower_alnum (r + 32) ≡ true
lower-IsAlnum r h = ground arith

slug_loop-Clean :
    (mark : ℕ → Bool) (last_dash : Bool) (rs : List ℕ)
    → Clean last_dash (slug_loop mark last_dash rs)
unfolding slug_loop slug_step
slug_loop-Clean mark last_dash [] = tt
slug_loop-Clean mark last_dash (r ∷ rs) = elim (Bool-cases (is_lower_alnum r)) [
  | inl low ↦ rw low (inl (low, slug_loop-Clean mark false rs))
  | inr nlow ↦ elim (Bool-cases (is_upper r)) [
    | inl up ↦ rw (nlow, up) (inl (lower-IsAlnum r up, slug_loop-Clean mark false rs))
    | inr nup ↦ elim (Bool-cases (mark r)) [
      | inl m ↦ rw (nlow, nup, m) (slug_loop-Clean mark last_dash rs)
      | inr nm ↦ elim (Bool-cases last_dash) [
        | inl e ↦ rw (nlow, nup, nm, e) (slug_loop-Clean mark true rs)
        | inr e ↦ rw (nlow, nup, nm, e) (inr (refl, refl, slug_loop-Clean mark true rs))
      ]
    ]
  ]
]

trim_left-Clean : (b : Bool) (s : Text) → Clean b s → Clean true (trim_left dash s)
unfolding trim_left
trim_left-Clean b [] h = tt
trim_left-Clean b (c ∷ s) (inl (low, h)) = ground arith
trim_left-Clean b (c ∷ s) (inr (e, _, h)) = rw e (trim_left-Clean true s h)

take-Clean : (n : ℕ) (b : Bool) (s : Text) → Clean b s → Clean b (take n s)
take-Clean zero b s h = tt
take-Clean (suc n) b [] h = tt
take-Clean (suc n) b (c ∷ s) (inl (low, h)) = inl (low, take-Clean n false s h)
take-Clean (suc n) b (c ∷ s) (inr (e, f, h)) = inr (e, f, take-Clean n true s h)

-- Without a dash at its end a clean text matches, or is empty.
slug_re_from-trim_right :
    (seen : Bool) (s : Text)
    → Clean (not seen) s
    → (trim_right dash s ≡ []) ⊎ (slug_re_from seen (trim_right dash s) ≡ true)
unfolding trim_right slug_re_from
slug_re_from-trim_right seen [] h = inl refl
slug_re_from-trim_right seen (c ∷ s) (inl (low, h)) =
    ground (arith, slug_re_from-trim_right true s h)
slug_re_from-trim_right true (c ∷ s) (inr (e, f, h)) =
    ground (arith, slug_re_from-trim_right false s h)
slug_re_from-trim_right false (c ∷ s) (inr (e, f, h)) = cc

slug_re_from-Clean : (seen : Bool) (s : Text) → slug_re_from seen s ≡ true → Clean (not seen) s
unfolding slug_re_from
slug_re_from-Clean seen [] h = tt
slug_re_from-Clean true (c ∷ s) h = elim (Bool-cases (is_lower_alnum c)) [
  | inl low ↦ inl (low, slug_re_from-Clean true s (ground arith))
  | inr nlow ↦ inr (ground arith, refl, slug_re_from-Clean false s (ground arith))
]
slug_re_from-Clean false (c ∷ s) h = elim (Bool-cases (is_lower_alnum c)) [
  | inl low ↦ inl (low, slug_re_from-Clean true s (ground arith))
  | inr nlow ↦ ground arith
]

Matches : Text → Type 0
Matches s = (s ≡ []) ⊎ (slug_re_from false s ≡ true)

Matches-Clean : (s : Text) → Matches s → Clean false s
unfolding Matches
Matches-Clean s (inl e) = rw e tt
Matches-Clean s (inr m) = Clean-weaken s (slug_re_from-Clean false s m)

trim-Matches : (b : Bool) (s : Text) → Clean b s → Matches (trim dash s)
unfolding Matches trim
trim-Matches b s h = slug_re_from-trim_right false (trim_left dash s) (trim_left-Clean b s h)

cap_slug-Matches : (s : Text) → Matches s → Matches (cap_slug s) × (length (cap_slug s) ≤ 80)
cap_slug-Matches s h = elim (Bool-cases (ltb max_slug_len (length s))) [
  | inl long ↦ rw long (
    trim-Matches false (take 80 s) (take-Clean 80 false s (Matches-Clean s h)),
    omega (arith, length-trim-le dash (take 80 s), length-take 80 s),
  )
  | inr short ↦ rw short (h, ground arith)
]

or_album-IsSlug :
    (s : Text)
    → Matches s
    → length s ≤ 80
    → (slug_re_from false (or_album s) ≡ true) × (length (or_album s) ≤ 80)
unfolding Matches slug_re_from
or_album-IsSlug [] h l = (refl, omega arith)
or_album-IsSlug (c ∷ s) h l = (ground arith, l)

slugify-IsSlug :
    (nfkd : Text → List ℕ) (mark : ℕ → Bool) (name : Text)
    → (slug_re_from false (slugify nfkd mark name) ≡ true) × (length (slugify nfkd mark name) ≤ 80)
unfolding slugify
slugify-IsSlug nfkd mark name =
    let raw = slug_loop mark true (nfkd name) in
    let (m, l) =
      cap_slug-Matches (trim dash raw)
        (trim-Matches true raw (slug_loop-Clean mark true (nfkd name))) in
    or_album-IsSlug (cap_slug (trim dash raw)) m l

valid_slug_of_re : (s : Text) → slug_re_from false s ≡ true → length s ≤ 85 → valid_slug s ≡ true
unfolding valid_slug
valid_slug_of_re s h l = ground arith

-- Whatever the name, the decomposition and the table of marks, the slug made of the name passes
-- `validSlug`, and it is at most 80 bytes long.
pub valid_slug-slugify :
    (nfkd : Text → List ℕ) (mark : ℕ → Bool) (name : Text)
    → (valid_slug (slugify nfkd mark name) ≡ true) × (length (slugify nfkd mark name) ≤ 80)
valid_slug-slugify nfkd mark name =
    let (m, l) = slugify-IsSlug nfkd mark name in
    (valid_slug_of_re (slugify nfkd mark name) m (omega arith), l)

suffix_char-IsAlnum : (b : ℕ) → is_lower_alnum (suffix_char b) ≡ true
unfolding suffix_char
suffix_char-IsAlnum b =
    test_below (λ i. is_lower_alnum (get_or slug_suffix_alphabet i 0)) 36 (unfold all_below in refl)
      (b % 36) (omega arith)

suffix_chars-IsAlnum : (buf : Text) → All (λ c. is_lower_alnum c ≡ true) (suffix_chars buf)
unfolding suffix_chars
suffix_chars-IsAlnum [] = tt
suffix_chars-IsAlnum (b ∷ buf) = (suffix_char-IsAlnum b, suffix_chars-IsAlnum buf)

length-suffix_chars : (buf : Text) → length (suffix_chars buf) ≡ length buf
unfolding suffix_chars
length-suffix_chars [] = refl
length-suffix_chars (b ∷ buf) = ap suc (length-suffix_chars buf)

enough_le : (n m : ℕ) → leb n m ≡ true → n ≤ m
enough_le n m h = ground arith

pub slug_suffix-IsAlnum :
    (rand rand' : Rand) (n : ℕ) (suffix : Text)
    → slug_suffix rand n ≡ some (suffix, rand')
    → All (λ c. is_lower_alnum c ≡ true) suffix × (length suffix ≡ n)
unfolding slug_suffix read_full
slug_suffix-IsAlnum rand rand' n suffix h = elim (Bool-cases (leb n (length rand))) [
  | inl enough ↦
      let e : suffix_chars (take n rand) ≡ suffix = ground arith in
      rw (← e) (
        suffix_chars-IsAlnum (take n rand),
        omega (
          arith,
          enough_le n (length rand) enough,
          length-suffix_chars (take n rand),
          length-take n rand,
        ),
      )
  | inr short ↦ ground arith
]

slug_re_from-alnum : (s : Text) → All (λ c. is_lower_alnum c ≡ true) s → slug_re_from true s ≡ true
unfolding slug_re_from
slug_re_from-alnum [] h = refl
slug_re_from-alnum (c ∷ s) h = rw h.0 (slug_re_from-alnum s h.1)

slug_re_from-dash :
    (suffix : Text)
    → All (λ c. is_lower_alnum c ≡ true) suffix
    → 0 < length suffix
    → slug_re_from true (dash ∷ suffix) ≡ true
unfolding slug_re_from
slug_re_from-dash [] h l = absurd (omega arith)
slug_re_from-dash (c ∷ s) h l = rw h.0 (slug_re_from-alnum s h.1)

slug_re_from-append :
    (seen : Bool) (base suffix : Text)
    → slug_re_from seen base ≡ true
    → slug_re_from true (dash ∷ suffix) ≡ true
    → slug_re_from seen (base ++ (dash ∷ suffix)) ≡ true
unfolding slug_re_from
slug_re_from-append seen [] suffix h k = rw h k
slug_re_from-append seen (c ∷ base) suffix h k =
    ground (arith, slug_re_from-append true base suffix, slug_re_from-append false base suffix)

-- A slug of `slugify` stays valid with a dash and a suffix of four drawn characters.
pub valid_slug-suffix :
    (nfkd : Text → List ℕ) (mark : ℕ → Bool) (name suffix : Text) (rand rand' : Rand)
    → slug_suffix rand 4 ≡ some (suffix, rand')
    → valid_slug (slugify nfkd mark name ++ (dash ∷ suffix)) ≡ true
valid_slug-suffix nfkd mark name suffix rand rand' h =
    let (alnum, four) = slug_suffix-IsAlnum rand rand' 4 suffix h in
    let (m, l) = slugify-IsSlug nfkd mark name in
    let base = slugify nfkd mark name in
    valid_slug_of_re (base ++ (dash ∷ suffix))
      (slug_re_from-append false base suffix m (slug_re_from-dash suffix alnum (omega arith)))
      (omega (arith, length-append base (dash ∷ suffix)))
