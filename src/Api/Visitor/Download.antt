-- ===== src/Api/Visitor/Download.antt =====
-- backend/internal/api/download.go: downloadAlbum and uniqueZipName, with path.Ext of the standard
-- library. The modification times of the entries are left out.
pub mod Names
pub mod Enough
pub mod Sent
use photogallery.Prelude.{
  ℕ, zero, suc, ◌+◌, ◌-◌, Bool, true, false, not, ◌||◌, Option, none, some, List, [], ◌∷◌, ◌++◌,
  leb, eqb, if◌then◌else◌, any, length, take,
}
use photogallery.Prelude.Decimal.{decimal}
use photogallery.Prelude.Text.{Text, bytes, is_empty, ◌==◌}
use photogallery.Exec.{Result, ok, err, pure, gets, throw_if, ◌>>=◌, ◌>>◌}
use photogallery.Slug.{valid_slug}
use photogallery.Db.{Album, Photo}
use photogallery.Db.Albums.{get_album_by_slug}
use photogallery.Db.Photos.{list_ready_photos}
use photogallery.Storage.{original, StoreError, open_file}
use photogallery.Api.{
  Env, Reply, password_required, retry_after, no_reply, zip_file, Handler, fetch, query, try_store,
}
use photogallery.Api.Filename.{sanitize_filename}
use photogallery.Api.Visitor.Access.{album_access}
use photogallery.Api.Visitor.Pages.{album_missing}

abbrev pub max_concurrent_zips : ℕ
max_concurrent_zips = 2

-- `seen`: the newest pair of a key counts, and a key that is missing counts 0.
abbrev pub Seen : Type 0
Seen = List (Text × ℕ)

unfoldable pub count : Text → Seen → ℕ
count key [] = 0
count key (e ∷ seen) = let rest = count key seen in if e.0 == key then e.1 else rest

-- `path.Ext`: from the last dot on, if no slash follows it.
unfoldable pub extension : Text → Text
extension [] = []
extension (c ∷ s) =
    let rest = extension s in
    if any (λ d. eqb d b'.' || eqb d b'/') s then rest else if eqb c b'.' then c ∷ s else []

-- `strings.TrimSuffix` of the extension
abbrev pub without_extension : Text → Text
without_extension name = take (length name - length (extension name)) name

abbrev pub candidate : Text → Text → ℕ → Text
candidate base ext i = base ++ (b'-' ∷ (decimal i ++ ext))

abbrev pub or_photo : Text → Text
or_photo name = if is_empty name then bytes "photo.jpg" else name

abbrev pub or_album : Text → Text
or_album name = if is_empty name then bytes "album" else name

module _ (lower : Text → Text) where
  -- The loop over the numbers; none when the fuel is used up.
  unfoldable pub find_free : ℕ → Text → Text → ℕ → Seen → Option (Text × Seen)
  unfolding count
  find_free zero base ext i seen = none
  find_free (suc fuel) base ext i seen =
      let rest = find_free fuel base ext (i + 1) seen in
      if eqb (count (lower (candidate base ext i)) seen) 0
      then some (candidate base ext i, (lower (candidate base ext i), 1) ∷ seen)
      else rest

  abbrev pub zip_name : Text → ℕ → Seen → Option (Text × Seen)
  zip_name name n seen =
      if eqb n 0
      then some (name, seen)
      else find_free (length seen + 1) (without_extension name) (extension name) (n + 1) seen

  -- The name, and `seen` after the call.
  unfoldable pub unique_zip_name : Seen → Text → Option (Text × Seen)
  unfolding count extension find_free
  unique_zip_name seen asked =
      let name = or_photo asked in
      let n = count (lower name) seen in zip_name name n ((lower name, n + 1) ∷ seen)

-- `stays` tells for each entry whether the client is still there to take it.
module _ (env : Env) (filename : Text) where
  abbrev pub Rest : Type 0
  Rest = List Bool → Seen → List (Text × Text) → Handler Reply

  abbrev pub zipped : List (Text × Text) → Bool → Reply
  zipped entries is_whole =
      zip_file (record { filename = filename; entries = entries; is_whole = is_whole })

  -- Without fuel, nothing; it does not happen.
  abbrev pub send_entry :
      Rest → List Bool → List (Text × Text) → Text → Option (Text × Seen) → Handler Reply
  send_entry rest stays entries contents none = pure no_reply
  send_entry rest (false ∷ stays) entries contents (some n) = pure (zipped entries false)
  send_entry rest (true ∷ stays) entries contents (some n) =
      rest stays n.1 (entries ++ (n.0, contents) ∷ [])
  send_entry rest [] entries contents (some n) = rest [] n.1 (entries ++ (n.0, contents) ∷ [])

  -- A photo without its file is passed over.
  abbrev pub add_entry :
      Rest → Text → List Bool → Seen → List (Text × Text) → Result StoreError Text → Handler Reply
  add_entry rest name stays seen entries (err e) = rest stays seen entries
  add_entry rest name stays seen entries (ok contents) =
      send_entry rest stays entries contents (unique_zip_name env.to_lower seen name)

  unfoldable pub zip_photos : Album → List Photo → Rest
  unfolding unique_zip_name try_store
  zip_photos a [] stays seen entries = pure (zipped entries true)
  zip_photos a (p ∷ ps) stays seen entries = do
    file ← try_store (open_file env.uuid_canonical a.id p.id original)
    add_entry (zip_photos a ps) p.filename stays seen entries file

-- `running`: the downloads that hold a slot.
unfoldable pub download_album : Env → ℕ → List Bool → Option Text → Text → Handler Reply
unfolding fetch query zip_photos
download_album env running stays cookie slug = do
  throw_if (not (valid_slug slug)) album_missing
  a ← fetch (get_album_by_slug slug) album_missing
  access ← gets (λ s. album_access env s cookie a)
  throw_if (not access) (password_required none [])
  throw_if (leb max_concurrent_zips running) (retry_after 503 30 (bytes "too_many_downloads"))
  photos ← query (list_ready_photos a.id)
  zip_photos env (or_album (sanitize_filename a.name) ++ bytes ".zip") a photos stays [] []
