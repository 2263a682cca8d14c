-- ===== src/Api/Visitor/Pages/Guarded.antt =====
-- What a visitor may see: the album's page, its files and its cover.
use photogallery.Prelude.{◌≡◌, refl, sym, ◌∙◌, true, false, not, Option, none, some, arith, find}
use photogallery.Prelude.Text.{Text}
use photogallery.Exec.{ok, gets, ◌>>=◌}
use photogallery.Exec.Keeps.{Keeps-or_throw}
use photogallery.Exec.Ensures.{Ensures, Ensures-guard, Ensures-next, Ensures-bind}
use photogallery.Db.{Album, Photo, Tables}
use photogallery.Db.Albums.{album_has_slug, get_album_by_slug}
use photogallery.Db.Photos.{photo_has_id, get_photo}
use photogallery.Storage.{Variant}
use photogallery.Api.{Env, Server, Served, Reply, photo_file, Handler, fetch}
use photogallery.Api.Visitor.Access.{album_access}
use photogallery.Api.Visitor.Pages.{serve_variant, get_photo_variant}
use photogallery.Exec.{Exec, throw_if}
use photogallery.Api.Visitor.Pages.Reads.{select, IsAt, fetch-select-Keeps, fetch-select-Ensures}

Ensures-all :
    {S E A : Type 0} {P : S → Type 0} {Q : A → Type 0} (m : Exec S E A)
    → ((a : A) → Q a)
    → Ensures P Q m
Ensures-all m q = record { at = λ s a h e. q a }

module _ (env : Env) (s0 : Server) (cookie : Option Text) where
  album_access-IsAt :
      (a : Album) (s : Server)
      → IsAt s0 s
      → album_access env s cookie a ≡ album_access env s0 cookie a
  unfolding album_access
  album_access-IsAt a s h = go cookie
    where
      go : (c : Option Text) → album_access env s c a ≡ album_access env s0 c a
      go none = refl
      go (some value) = rw (h.sessions, h.now) refl

  module _ {B : Type 0} {Q : B → Type 0} where
    -- The question whether the visitor has access is answered as at the beginning.
    pub then_access :
        (a : Album) (e : Reply) (m : Handler B)
        → (album_access env s0 cookie a ≡ true → Ensures (IsAt s0) Q m)
        → Ensures
            (IsAt s0)
            Q
            (gets (λ s. album_access env s cookie a) >>= λ b. throw_if (not b) e >>= λ _. m)
    then_access a e m k = record {
      at = λ s b h r.
          (Ensures-guard (not (album_access env s cookie a)) e m
              (λ c. k (sym (album_access-IsAt a s h) ∙ ground (arith, c)))).at
            s b h r;
    }

    pub then_album :
        (slug : Text) (missing : Reply) (f : Album → Handler B)
        → ((a : Album)
            → find (album_has_slug slug) s0.db.tables.albums ≡ some a
            → Ensures (IsAt s0) Q (f a))
        → Ensures (IsAt s0) Q (fetch (get_album_by_slug slug) missing >>= f)
    unfolding get_album_by_slug
    then_album slug missing f k =
        let g : Tables → Option Album = λ t. find (album_has_slug slug) t.albums in
        Ensures-bind (λ a. g s0.db.tables ≡ some a) (fetch (select g) missing) f
          (fetch-select-Keeps s0 g missing) (fetch-select-Ensures s0 g missing) k

    pub then_photo :
        (album_id id : Text) (missing : Reply) (f : Photo → Handler B)
        → ((p : Photo)
            → find (photo_has_id album_id id) s0.db.tables.photos ≡ some p
            → Ensures (IsAt s0) Q (f p))
        → Ensures (IsAt s0) Q (fetch (get_photo album_id id) missing >>= f)
    unfolding get_photo
    then_photo album_id id missing f k =
        let g : Tables → Option Photo = λ t. find (photo_has_id album_id id) t.photos in
        Ensures-bind (λ p. g s0.db.tables ≡ some p) (fetch (select g) missing) f
          (fetch-select-Keeps s0 g missing) (fetch-select-Ensures s0 g missing) k

-- Why a visitor is sent a file.
pub record IsShown (env : Env) (s : Server) (cookie : Option Text) (slug photo_id : Text)
    : Type 0 where
  pub album : Album
  pub photo : Photo
  pub named : find (album_has_slug slug) s.db.tables.albums ≡ some album
  pub access : album_access env s cookie album ≡ true
  pub found : find (photo_has_id album.id photo_id) s.db.tables.photos ≡ some photo
  pub ready : photo.variants_ready ≡ true

abbrev pub OnlyShown : Env → Server → Option Text → Text → Text → Reply → Type 0
OnlyShown env s cookie slug photo_id (photo_file f) = IsShown env s cookie slug photo_id
OnlyShown env s cookie slug photo_id other = Unit

OnlyShown-all :
    (env : Env) (s : Server) (cookie : Option Text) (slug photo_id : Text)
    → IsShown env s cookie slug photo_id
    → (r : Reply) → OnlyShown env s cookie slug photo_id r
OnlyShown-all env s cookie slug photo_id h (photo_file f) = h
OnlyShown-all env s cookie slug photo_id h other = tt

module _ (env : Env) (s0 : Server) (cookie : Option Text) (slug photo_id variant : Text) where
  sent :
      (a : Album) (p : Photo) (v : Variant) (cache : Text)
      → find (album_has_slug slug) s0.db.tables.albums ≡ some a
      → album_access env s0 cookie a ≡ true
      → find (photo_has_id a.id photo_id) s0.db.tables.photos ≡ some p
      → not p.variants_ready ≡ false
      → Ensures (IsAt s0) (OnlyShown env s0 cookie slug photo_id) (serve_variant env a p v cache)
  sent a p v cache named access found ready = Ensures-all (serve_variant env a p v cache) (
      OnlyShown-all env s0 cookie slug photo_id (record {
        album = a;
        photo = p;
        named = named;
        access = access;
        found = found;
        ready = ground (arith, ready);
      }))

  get_photo_variant-Ensures :
      Ensures
        (IsAt s0)
        (OnlyShown env s0 cookie slug photo_id)
        (get_photo_variant env cookie slug photo_id variant)
  unfolding get_photo_variant
  get_photo_variant-Ensures =
      search
        (then_access, then_album, then_photo, Ensures-guard, sent, Ensures-next, Keeps-or_throw)
        depth 20

  -- Whatever statements and system calls fail: a visitor who asks for a file of a photo and is sent
  -- one has access to the album with the slug when the request comes, and the photo is one of that
  -- album whose variants are ready.
  pub get_photo_variant-IsShown :
      (f : Served)
      → (get_photo_variant env cookie slug photo_id variant s0).0 ≡ ok (photo_file f)
      → IsShown env s0 cookie slug photo_id
  get_photo_variant-IsShown f e =
      get_photo_variant-Ensures.at s0 (photo_file f)
        (record { tables = refl; sessions = refl; now = refl; files = refl }) e
