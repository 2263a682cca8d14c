-- ===== src/Api/Visitor/Pages/Cover.antt =====
-- What `albumCover` sends.
use mathlib.Core.Path.{subst}
use photogallery.Prelude.{
  ◌≡◌, refl, Bool, true, false, Option, some, arith, if◌then◌else◌, find, inl, inr,
}
use photogallery.Prelude.Text.{Text}
use photogallery.Exec.{ok, ◌>>=◌}
use photogallery.Exec.Ensures.{Ensures, Ensures-guard, Ensures-bind}
use photogallery.Db.{Album, Photo, Tables, is_protected}
use photogallery.Db.Albums.{album_has_slug}
use photogallery.Db.Photos.{photo_has_id, get_photo}
use photogallery.Db.Summary.{AlbumSummary, summary}
use photogallery.Storage.{Variant, thumb, blur, contents_at}
use photogallery.Api.{Env, Server, Served, Reply, photo_file, internal_error, fetch, query}
use photogallery.Api.Visitor.Pages.{serve_variant, cover_variant, album_cover}
use photogallery.Api.Visitor.Pages.Reads.{select, IsAt, fetch-select-Keeps, fetch-select-Ensures}
use photogallery.Api.Visitor.Pages.Sending.{ServedAs, SendsFile, serve_variant-SendsFile}
use photogallery.Api.Visitor.Pages.Listed.{IsSummary, then_summary}

-- What the cover of an album shows: the blurred picture if the album is protected, else the
-- thumbnail, of the photo that the album's summary names.
pub record IsCover (s : Server) (slug : Text) (f : Served) : Type 0 where
  pub album : Album
  pub photo : Photo
  pub named : find (album_has_slug slug) s.db.tables.albums ≡ some album
  pub found :
      find
        (photo_has_id album.id (summary s.db.tables.photos album).resolved_cover)
        s.db.tables.photos
      ≡ some photo
  pub variant : f.variant ≡ (if is_protected album then blur else thumb)
  pub contents :
      contents_at album.id photo.id (if is_protected album then blur else thumb) s.store
      ≡ some f.contents

abbrev OnlyCover : Server → Text → Reply → Type 0
OnlyCover s slug (photo_file f) = IsCover s slug f
OnlyCover s slug other = Unit

cover-ServedAs :
    (s : Server) (env : Env) (a : Album) (p : Photo) (b : Bool) (v : Variant)
    → ServedAs s env a p (if b then blur else thumb) v
    → v ≡ (if b then blur else thumb)
cover-ServedAs s env a p b v (inl e) = e
cover-ServedAs s env a p true v (inr (e, k)) = absurd (ground (arith, e))
cover-ServedAs s env a p false v (inr (e, k)) = absurd (ground (arith, e))

module _ (env : Env) (s0 : Server) (slug : Text) where
  covered :
      (sum : AlbumSummary) (p : Photo) (cache : Text)
      → IsSummary s0.db.tables slug sum
      → find (photo_has_id sum.album.id sum.resolved_cover) s0.db.tables.photos ≡ some p
      → Ensures
          (IsAt s0)
          (OnlyCover s0 slug)
          (serve_variant env sum.album p (cover_variant env sum.album) cache)
  covered sum p cache h found = record {
    at = λ s r i e. go r (
        (serve_variant-SendsFile s0 env sum.album p (cover_variant env sum.album) cache).at s r i
          e);
  }
    where
      go :
          (r : Reply)
          → SendsFile s0 env sum.album p (cover_variant env sum.album) r
          → OnlyCover s0 slug r
      go (photo_file f) (served, holds) =
          let e = cover-ServedAs s0 env sum.album p (is_protected sum.album) f.variant served in
          record {
            album = sum.album;
            photo = p;
            named = h.named;
            found =
                subst
                  (λ z.
                    find (photo_has_id sum.album.id z.resolved_cover) s0.db.tables.photos ≡ some p)
                  h.made found;
            variant = e;
            contents =
                subst (λ v. contents_at sum.album.id p.id v s0.store ≡ some f.contents) e holds;
          }
      go other k = tt

  then_cover :
      (sum : AlbumSummary) (cache : Text)
      → IsSummary s0.db.tables slug sum
      → Ensures (IsAt s0) (OnlyCover s0 slug) (
          query (get_photo sum.album.id sum.resolved_cover) >>= λ p.
          serve_variant env sum.album p (cover_variant env sum.album) cache)
  unfolding query get_photo
  then_cover sum cache h =
      let g : Tables → Option Photo =
        λ t. find (photo_has_id sum.album.id sum.resolved_cover) t.photos in
      Ensures-bind (λ p. g s0.db.tables ≡ some p) (fetch (select g) internal_error) _
        (fetch-select-Keeps s0 g internal_error) (fetch-select-Ensures s0 g internal_error)
        (λ p found. covered sum p cache h found)

  album_cover-Ensures : Ensures (IsAt s0) (OnlyCover s0 slug) (album_cover env slug)
  unfolding album_cover
  album_cover-Ensures = search (then_summary, Ensures-guard, then_cover) depth 20

  -- Whatever statements and system calls fail: the file that anybody is sent as the cover of an
  -- album holds what lies, when the request comes, at the path of the blurred picture if the album
  -- with the slug is protected, and else of the thumbnail, of the photo that is the album's cover by
  -- its summary, and is labelled as that variant.
  pub album_cover-IsCover :
      (f : Served) → (album_cover env slug s0).0 ≡ ok (photo_file f) → IsCover s0 slug f
  album_cover-IsCover f e =
      album_cover-Ensures.at s0 (photo_file f)
        (record { tables = refl; sessions = refl; now = refl; files = refl }) e
