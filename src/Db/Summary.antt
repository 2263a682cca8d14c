-- ===== src/Db/Summary.antt =====
-- backend/internal/db/albums.go: an album with the aggregates that visitors see, over the photos whose
-- variants are ready.
pub mod Agrees
use photogallery.Prelude.{
  ℕ, Bool, true, false, ◌&&◌, not, Option, none, some, List, [], ◌∷◌, if◌then◌else◌, find, filter,
  length,
}
use mathlib.Core.List.{map}
use photogallery.Prelude.Text.{Text, is_empty, ◌==◌}
use photogallery.Exec.{gets, or_throw, pure, ◌>>=◌, ◌>>◌}
use photogallery.Db.{not_found, Album, Photo, Query, statement}
use photogallery.Db.Albums.{album_has_slug}
use photogallery.Db.Photos.{text_lt, photo_before, sort_by, is_visible_in}

pub record AlbumSummary : Type 0 where
  pub album : Album
  pub photo_count : ℕ
  pub taken_from : Text
  pub taken_to : Text
  pub resolved_cover : Text

-- `MIN` and `MAX` over the texts that are neither NULL nor empty; empty if there are none
unfoldable pub earliest : List Text → Text
unfolding text_lt
earliest [] = []
earliest (t ∷ ts) =
    let rest = earliest ts in
    if is_empty t then rest else if is_empty rest then t else if text_lt rest t then rest else t

unfoldable pub latest : List Text → Text
unfolding text_lt
latest [] = []
latest (t ∷ ts) = let rest = latest ts in if text_lt t rest then rest else t

abbrev pub first_id : List Photo → Text
first_id [] = []
first_id (p ∷ ps) = p.id

abbrev pub is_cover : Text → Photo → Bool
is_cover cover p = if is_empty cover then false else p.id == cover

abbrev pub chosen_cover : Option Photo → Text → Text
chosen_cover none fallback = fallback
chosen_cover (some p) fallback = p.id

-- The chosen cover while it is ready, and otherwise the first photo.
unfoldable pub resolve_cover : Text → List Photo → Text
unfolding sort_by
resolve_cover cover visible =
    chosen_cover (find (is_cover cover) visible) (first_id (sort_by photo_before visible))

-- The columns of `summarySelect`.
unfoldable pub summary : List Photo → Album → AlbumSummary
unfolding earliest latest resolve_cover
summary photos a =
    let visible = filter (is_visible_in a.id) photos in
    record {
      album = a;
      photo_count = length visible;
      taken_from = earliest (map (λ p. p.taken_at) visible);
      taken_to = latest (map (λ p. p.taken_at) visible);
      resolved_cover = resolve_cover a.cover_photo_id visible;
    }

abbrev pub summarize : List Photo → Option Album → Option AlbumSummary
summarize photos none = none
summarize photos (some a) = some (summary photos a)

unfoldable pub get_album_summary_by_slug : Text → Query AlbumSummary
unfolding summary
get_album_summary_by_slug slug = do
  statement
  t ← gets (λ db. db.tables)
  or_throw not_found (summarize t.photos (find (album_has_slug slug) t.albums))
