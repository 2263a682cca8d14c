-- ===== src/Tests/Slugs.antt =====
-- The theorems on slugs at concrete inputs.
use photogallery.Prelude.{◌++◌, some, false, ◌≤◌, ◌≡◌, refl, true, List, [], ◌∷◌, arith, length}
use photogallery.Prelude.Text.{Text, bytes}
use photogallery.Slug.{
  Rand, dash, slug_suffix, Created, created, slug_taken, slugify, valid_slug, with_unique_slug,
}
use photogallery.Slug.Valid.{valid_slug-slugify, valid_slug-suffix}
use photogallery.Slug.Unique.{
  IsLastCall, counted, CallsWithin, with_unique_slug-Keeps, with_unique_slug-Calls,
}
use photogallery.Tests.World.{same, no_marks}

valid_slug-slugify_example :
    (valid_slug (slugify same no_marks (bytes "Summer Trip")) ≡ true)
    × (length (slugify same no_marks (bytes "Summer Trip")) ≤ 80)
valid_slug-slugify_example = valid_slug-slugify same no_marks (bytes "Summer Trip")

-- A store of slugs that refuses what it has.
abbrev insert : Text → List Text → Created (Unit {0}) × List Text
insert slug [] = (created, slug ∷ [])
insert slug (s ∷ rest) = (slug_taken, s ∷ rest)

abbrev Short : List Text → Type 0
Short slugs = length slugs ≤ 1

insert-Short :
    (slug : Text) (s : List Text) → valid_slug slug ≡ true → Short s → Short (insert slug s).1
insert-Short slug [] v h = omega arith
insert-Short slug (t ∷ s) v h = h

with_unique_slug-Keeps_example :
    Short (with_unique_slug insert same no_marks [] (bytes "Trip") []).state
    × IsLastCall insert (with_unique_slug insert same no_marks [] (bytes "Trip") [])
with_unique_slug-Keeps_example =
    with_unique_slug-Keeps insert Short insert-Short same no_marks (bytes "Trip") [] []
      (omega arith)

with_unique_slug-Calls_example : CallsWithin insert 11 (
    with_unique_slug
      (counted insert)
      same
      no_marks
      (1 ∷ 2 ∷ 3 ∷ 4 ∷ [])
      (bytes "Trip")
      (bytes "trip" ∷ [], 0))
with_unique_slug-Calls_example =
    with_unique_slug-Calls insert same no_marks (bytes "Trip") (1 ∷ 2 ∷ 3 ∷ 4 ∷ [])
      (bytes "trip" ∷ [])

slugify_runs :
    (slugify same no_marks (bytes "  Summer Trip, 2024! ") ≡ bytes "summer-trip-2024")
    × (slugify same no_marks (bytes "---") ≡ bytes "album")
    × (valid_slug (bytes "a--b") ≡ false)
    × (valid_slug (bytes "a-b-") ≡ false)
unfolding slugify valid_slug
slugify_runs = (refl, refl, refl, refl)

abbrev drawn : Rand
drawn = 0 ∷ 1 ∷ 36 ∷ 35 ∷ 7 ∷ []

slug_suffix_runs : slug_suffix drawn 4 ≡ some (bytes "aba9", 7 ∷ [])
unfolding slug_suffix
slug_suffix_runs = refl

valid_slug-suffix_example :
    valid_slug (slugify same no_marks (bytes "Trip") ++ (dash ∷ bytes "aba9")) ≡ true
valid_slug-suffix_example =
    valid_slug-suffix same no_marks (bytes "Trip") (bytes "aba9") drawn (7 ∷ []) slug_suffix_runs
