-- ===== src/Slug.antt =====
-- backend/internal/api/slug.go, and `validSlug` of backend/internal/api/access.go.
-- The compatibility decomposition of golang.org/x/text and the Unicode table of combining marks
-- are parameters: any functions, of which nothing is assumed.
pub mod Valid
pub mod Unique
use photogallery.Prelude.{
  ℕ, zero, suc, ◌+◌, ◌-◌, ◌%◌, String, Bool, true, false, ◌&&◌, ◌||◌, Option, none, some, List, [],
  ◌∷◌, ◌++◌, ltb, leb, eqb, if◌then◌else◌, length, take, drop, get_or,
}
use photogallery.Prelude.Text.{Text, bytes, is_empty, trim}

abbrev pub dash : ℕ
dash = b'-'

abbrev pub max_slug_len : ℕ
max_slug_len = 80

abbrev pub slug_retries : ℕ
slug_retries = 10

abbrev pub is_lower_alnum : ℕ → Bool
is_lower_alnum r = (leb b'a' r && leb r b'z') || (leb b'0' r && leb r b'9')

abbrev pub is_upper : ℕ → Bool
is_upper r = leb b'A' r && leb r b'Z'

-- One round of the loop of `slugify`: what it writes, and the new `lastDash`.
unfoldable pub slug_step : (ℕ → Bool) → Bool → ℕ → Text × Bool
slug_step mark last_dash r =
    if is_lower_alnum r
    then (r ∷ [], false)
    else if is_upper r
    then ((r + (b'a' - b'A')) ∷ [], false)
    else if mark r
    then ([], last_dash)
    else if last_dash
    then ([], true)
    else (dash ∷ [], true)

unfoldable pub slug_loop : (ℕ → Bool) → Bool → List ℕ → Text
slug_loop mark last_dash [] = []
slug_loop mark last_dash (r ∷ rs) =
    let (out, last_dash') = slug_step mark last_dash r in out ++ slug_loop mark last_dash' rs

abbrev cap_slug : Text → Text
cap_slug s = if ltb max_slug_len (length s) then trim dash (take max_slug_len s) else s

abbrev or_album : Text → Text
or_album s = if is_empty s then bytes "album" else s

unfoldable pub slugify : (Text → List ℕ) → (ℕ → Bool) → Text → Text
unfolding slug_loop slug_step trim
slugify nfkd mark name = or_album (cap_slug (trim dash (slug_loop mark true (nfkd name))))

-- The regular expression `^[a-z0-9]+(-[a-z0-9]+)*$` as an automaton: `seen` tells whether the run
-- of letters and digits at hand has begun.
unfoldable pub slug_re_from : Bool → Text → Bool
slug_re_from seen [] = seen
slug_re_from seen (c ∷ s) =
    let in_run = slug_re_from true s in
    let next_run = slug_re_from false s in
    if is_lower_alnum c then in_run else if eqb c dash && seen then next_run else false

unfoldable pub valid_slug : Text → Bool
unfolding slug_re_from
valid_slug s = leb (length s) (max_slug_len + 5) && slug_re_from false s

-- The bytes that a random source still delivers. `io.ReadFull` fails when they run out.
abbrev pub Rand : Type 0
Rand = List ℕ

unfoldable pub read_full : ℕ → Rand → Option (Text × Rand)
read_full n rand = if leb n (length rand) then some (take n rand, drop n rand) else none

abbrev pub slug_suffix_alphabet : Text
slug_suffix_alphabet = bytes "abcdefghijklmnopqrstuvwxyz0123456789"

unfoldable pub suffix_char : ℕ → ℕ
suffix_char b = get_or slug_suffix_alphabet (b % length slug_suffix_alphabet) 0

unfoldable pub suffix_chars : Text → Text
unfolding suffix_char
suffix_chars [] = []
suffix_chars (b ∷ buf) = suffix_char b ∷ suffix_chars buf

unfoldable pub slug_suffix : Rand → ℕ → Option (Text × Rand)
unfolding read_full suffix_chars
slug_suffix rand n = elim (read_full n rand) [
  | none ↦ none
  | some (buf, rand') ↦ some (suffix_chars buf, rand')
]

-- What `create` answers, in as far as `withUniqueSlug` tells the answers apart; `rand_failed` is
-- the error of the random source.
pub data Created (E : Type 0) : Type 0 where
  created : Created E
  slug_taken : Created E
  rand_failed : Created E
  failed : E → Created E

-- The result, the slug that was set last, the state that `create` works on, and the random source.
pub record Outcome (E S : Type 0) : Type 0 where
  pub result : Created E
  pub slug : Text
  pub state : S
  pub rand : Rand

module _ {E S : Type 0} (create : Text → S → Created E × S) where
  -- The loop of `withUniqueSlug`, over the retries that are left: `slugRetries - attempt`.
  unfoldable pub retry_slug : ℕ → Text → Text → S → Rand → Outcome E S
  unfolding slug_suffix
  retry_slug zero base slug s rand =
      let (r, s') = create slug s in record { result = r; slug = slug; state = s'; rand = rand }
  retry_slug (suc left) base slug s rand =
      let (r, s') = create slug s in
      elim r [
        | slug_taken ↦ elim (slug_suffix rand 4) [
          | none ↦ record { result = rand_failed; slug = slug; state = s'; rand = rand }
          | some (suffix, rand') ↦ retry_slug left base (base ++ (dash ∷ suffix)) s' rand'
        ]
        | other ↦ record { result = other; slug = slug; state = s'; rand = rand }
      ]

  unfoldable pub with_unique_slug : (Text → List ℕ) → (ℕ → Bool) → Rand → Text → S → Outcome E S
  unfolding retry_slug slugify
  with_unique_slug nfkd mark rand name s =
      let base = slugify nfkd mark name in retry_slug slug_retries base base s rand
