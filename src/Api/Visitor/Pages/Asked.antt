-- ===== src/Api/Visitor/Pages/Asked.antt =====
-- Which file `getPhotoVariant` sends.
use photogallery.Prelude.{◌≡◌, refl, Option, none, some, find, ◌⊎◌}
use photogallery.Prelude.Text.{Text}
use photogallery.Exec.{ok, or_throw, ◌>>=◌}
use photogallery.Exec.Keeps.{Keeps-or_throw}
use photogallery.Exec.Ensures.{Ensures, Ensures-guard, Ensures-bind, Ensures-or_throw}
use photogallery.Db.{Album, Photo}
use photogallery.Db.Albums.{album_has_slug}
use photogallery.Db.Photos.{photo_has_id}
use photogallery.Storage.{Variant, large, original, parse_variant, contents_at}
use photogallery.Api.{Env, Server, Served, Reply, photo_file, Handler}
use photogallery.Api.Visitor.Pages.{serve_variant, get_photo_variant}
use photogallery.Api.Visitor.Pages.Reads.{IsAt}
use photogallery.Api.Visitor.Pages.Guarded.{then_access, then_album, then_photo}
use photogallery.Api.Visitor.Pages.Sending.{SendsFile, serve_variant-SendsFile}

-- The file is the one that the request names.
pub record IsAsked (s : Server) (slug photo_id variant : Text) (f : Served) : Type 0 where
  pub album : Album
  pub photo : Photo
  pub asked : Variant
  pub named : find (album_has_slug slug) s.db.tables.albums ≡ some album
  pub found : find (photo_has_id album.id photo_id) s.db.tables.photos ≡ some photo
  pub parsed : parse_variant variant ≡ some asked
  pub served :
      (f.variant ≡ asked)
      ⊎ ((asked ≡ large)
          × ((f.variant ≡ original) × (contents_at album.id photo.id large s.store ≡ none)))
  pub contents : contents_at album.id photo.id f.variant s.store ≡ some f.contents

abbrev OnlyAsked : Server → Text → Text → Text → Reply → Type 0
OnlyAsked s slug photo_id variant (photo_file f) = IsAsked s slug photo_id variant f
OnlyAsked s slug photo_id variant other = Unit

module _ (env : Env) (s0 : Server) (cookie : Option Text) (slug photo_id variant : Text) where
  abbrev Answers : Handler Reply → Type 0
  Answers m = Ensures (IsAt s0) (OnlyAsked s0 slug photo_id variant) m

  then_parsed :
      {A : Type 0} (o : Option A) (e : Reply) (f : A → Handler Reply)
      → ((a : A) → o ≡ some a → Answers (f a))
      → Answers (or_throw e o >>= f)
  then_parsed o e f k =
      Ensures-bind (λ a. o ≡ some a) (or_throw e o) f (Keeps-or_throw e o)
        (Ensures-or_throw e o (λ a h. h)) k

  sent-Answers :
      (a : Album) (p : Photo) (v : Variant) (cache : Text)
      → find (album_has_slug slug) s0.db.tables.albums ≡ some a
      → find (photo_has_id a.id photo_id) s0.db.tables.photos ≡ some p
      → parse_variant variant ≡ some v
      → Answers (serve_variant env a p v cache)
  sent-Answers a p v cache named found parsed = record {
    at = λ s r i e. go r ((serve_variant-SendsFile s0 env a p v cache).at s r i e);
  }
    where
      go : (r : Reply) → SendsFile s0 env a p v r → OnlyAsked s0 slug photo_id variant r
      go (photo_file f) (served, holds) = record {
        album = a;
        photo = p;
        asked = v;
        named = named;
        found = found;
        parsed = parsed;
        served = served;
        contents = holds;
      }
      go other k = tt

  get_photo_variant-Answers : Answers (get_photo_variant env cookie slug photo_id variant)
  unfolding get_photo_variant
  get_photo_variant-Answers =
      search (then_access, then_album, then_photo, then_parsed, Ensures-guard, sent-Answers) depth
        20

  -- Whatever statements and system calls fail: the file that a visitor is sent holds what lies, when
  -- the request comes, at the path of the photo with the id in the album with the slug, and of the
  -- variant that the request names; or of the original if the request names the large variant and
  -- no file of that lies there.
  pub get_photo_variant-IsAsked :
      (f : Served)
      → (get_photo_variant env cookie slug photo_id variant s0).0 ≡ ok (photo_file f)
      → IsAsked s0 slug photo_id variant f
  get_photo_variant-IsAsked f e =
      get_photo_variant-Answers.at s0 (photo_file f)
        (record { tables = refl; sessions = refl; now = refl; files = refl }) e
