-- ===== src/Api/Visitor/Pages/Listed.antt =====
-- What the page of an album lists.
use mathlib.Core.List.{map, reverse}
use mathlib.Core.Path.{subst}
use mathlib.Core.Option.{some-injective}
use photogallery.Prelude.{
  ◌+◌, ◌≡◌, refl, ap, true, not, Option, none, some, List, [], ◌∷◌, arith, find, filter, length,
}
use photogallery.Prelude.Text.{Text}
use photogallery.Exec.{ok, pure, throw_if, ◌>>=◌}
use photogallery.Exec.Keeps.{Keeps, Keeps-bind, Keeps-pure, Keeps-throw_if, keeps_rules}
use photogallery.Exec.Ensures.{Ensures, Ensures-pure, Ensures-guard, Ensures-next, Ensures-bind}
use photogallery.Slug.{valid_slug}
use photogallery.Db.{Album, Photo, Folder, Tables}
use photogallery.Db.Albums.{album_has_slug}
use photogallery.Db.Photos.{photo_before, sort_by, is_visible_in, list_ready_photos}
use photogallery.Db.Folders.{folder_chain, walk_up}
use photogallery.Db.Summary.{AlbumSummary, summary, summarize, get_album_summary_by_slug}
use photogallery.Api.{
  Env, Server, Crumb, AlbumDetail, Reply, album_page, Handler, internal_error, fetch, query,
}
use photogallery.Api.Visitor.Access.{album_access}
use photogallery.Api.Visitor.Pages.{
  album_missing, list_item, to_photo_json, summary_from_path, to_crumb, folder_breadcrumb, detail,
  get_album,
}
use photogallery.Api.Visitor.Pages.Reads.{select, IsAt, fetch-select-Keeps, fetch-select-Ensures}
use photogallery.Api.Visitor.Pages.Guarded.{then_access}

-- The summary is that of the album with the slug.
pub record IsSummary (t : Tables) (slug : Text) (sum : AlbumSummary) : Type 0 where
  pub named : find (album_has_slug slug) t.albums ≡ some sum.album
  pub made : sum ≡ summary t.photos sum.album

summarize-IsSummary :
    (t : Tables) (slug : Text) (sum : AlbumSummary)
    → summarize t.photos (find (album_has_slug slug) t.albums) ≡ some sum
    → IsSummary t slug sum
unfolding summary
summarize-IsSummary t slug sum h = go (find (album_has_slug slug) t.albums) refl h
  where
    go :
        (o : Option Album)
        → find (album_has_slug slug) t.albums ≡ o
        → summarize t.photos o ≡ some sum
        → IsSummary t slug sum
    go none e k = absurd (ground (arith, k))
    go (some a) e k =
        subst (IsSummary t slug) (some-injective _ _ k) (record { named = e; made = refl })

module _ (s0 : Server) where
  pub breadcrumb-Keeps : (id : Text) → Keeps (IsAt s0) (folder_breadcrumb id)
  unfolding folder_breadcrumb query folder_chain
  breadcrumb-Keeps [] = search keeps_rules
  breadcrumb-Keeps (c ∷ id) =
      let g : Tables → Option (List Folder) =
        λ t. some (reverse (walk_up (length t.folders + 1) t.folders (c ∷ id))) in
      Keeps-bind (fetch (select g) internal_error) (λ chain. pure (map to_crumb chain))
        (fetch-select-Keeps s0 g internal_error) (λ chain. Keeps-pure (map to_crumb chain))

  module _ {B : Type 0} {Q : B → Type 0} where
    pub then_summary :
        (slug : Text) (f : AlbumSummary → Handler B)
        → ((sum : AlbumSummary) → IsSummary s0.db.tables slug sum → Ensures (IsAt s0) Q (f sum))
        → Ensures (IsAt s0) Q (summary_from_path slug >>= f)
    unfolding summary_from_path get_album_summary_by_slug
    then_summary slug f k =
        let g : Tables → Option AlbumSummary =
          λ t. summarize t.photos (find (album_has_slug slug) t.albums) in
        Ensures-bind (λ sum. g s0.db.tables ≡ some sum) (summary_from_path slug) f
          (Keeps-bind (throw_if (not (valid_slug slug)) album_missing)
            (λ _. fetch (select g) album_missing) (Keeps-throw_if _ _)
            (λ _. fetch-select-Keeps s0 g album_missing))
          (Ensures-guard (not (valid_slug slug)) album_missing (fetch (select g) album_missing)
            (λ _. fetch-select-Ensures s0 g album_missing))
          (λ sum e. k sum (summarize-IsSummary s0.db.tables slug sum e))

    pub then_photos :
        (album_id : Text) (f : List Photo → Handler B)
        → Ensures
            (IsAt s0)
            Q
            (f (sort_by photo_before (filter (is_visible_in album_id) s0.db.tables.photos)))
        → Ensures (IsAt s0) Q (query (list_ready_photos album_id) >>= f)
    unfolding list_ready_photos query
    then_photos album_id f k =
        let g : Tables → Option (List Photo) =
          λ t. some (sort_by photo_before (filter (is_visible_in album_id) t.photos)) in
        Ensures-bind (λ ps. g s0.db.tables ≡ some ps) (fetch (select g) internal_error) f
          (fetch-select-Keeps s0 g internal_error) (fetch-select-Ensures s0 g internal_error)
          (λ ps e. subst (λ ps. Ensures (IsAt s0) Q (f ps)) (some-injective _ _ e) k)

-- What an album's page shows.
pub record IsPage (env : Env) (s : Server) (cookie : Option Text) (slug : Text) (d : AlbumDetail)
    : Type 0 where
  pub album : Album
  pub named : find (album_has_slug slug) s.db.tables.albums ≡ some album
  pub access : album_access env s cookie album ≡ true
  pub photos :
      d.photos
      ≡ map
          (to_photo_json album.slug)
          (sort_by photo_before (filter (is_visible_in album.id) s.db.tables.photos))
  pub item : d.item ≡ list_item (summary s.db.tables.photos album)
  pub cover : d.cover_photo_id ≡ (summary s.db.tables.photos album).resolved_cover

abbrev OnlyPage : Env → Server → Option Text → Text → Reply → Type 0
OnlyPage env s cookie slug (album_page d) = IsPage env s cookie slug d
OnlyPage env s cookie slug other = Unit

module _ (env : Env) (s0 : Server) (cookie : Option Text) (slug : Text) where
  page :
      (sum : AlbumSummary) (crumbs : List Crumb)
      → IsSummary s0.db.tables slug sum
      → album_access env s0 cookie sum.album ≡ true
      → OnlyPage env s0 cookie slug (
          album_page (
            detail sum crumbs
              (sort_by photo_before (filter (is_visible_in sum.album.id) s0.db.tables.photos))))
  page sum crumbs h access = record {
    album = sum.album;
    named = h.named;
    access = access;
    photos = refl;
    item = ap list_item h.made;
    cover = ap (λ z. z.resolved_cover) h.made;
  }

  get_album-Ensures : Ensures (IsAt s0) (OnlyPage env s0 cookie slug) (get_album env cookie slug)
  unfolding get_album
  get_album-Ensures =
      search
        (then_summary, then_access, then_photos, breadcrumb-Keeps, Ensures-pure, Ensures-next, page)
        depth 20

  -- Whatever statements fail: a visitor who is sent the page of an album has access to the album with
  -- the slug when the request comes, and the page lists, in the album's order, exactly the photos of
  -- that album whose variants are ready, with the count and the cover of the album's summary.
  pub get_album-IsPage :
      (d : AlbumDetail)
      → (get_album env cookie slug s0).0 ≡ ok (album_page d)
      → IsPage env s0 cookie slug d
  get_album-IsPage d e =
      get_album-Ensures.at s0 (album_page d)
        (record { tables = refl; sessions = refl; now = refl; files = refl }) e
