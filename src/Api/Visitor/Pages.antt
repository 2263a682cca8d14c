-- ===== src/Api/Visitor/Pages.antt =====
-- backend/internal/api/albums.go and photos.go: the page of an album, its cover and its files, and the
-- breadcrumb of folders.go. The download's file name and the byte ranges are left out.
pub mod Reads
pub mod Files
pub mod Sending
pub mod Asked
pub mod Guarded
pub mod Listed
pub mod Cover
use mathlib.Core.List.{map}
use photogallery.Prelude.{
  ℕ, Bool, true, false, not, Option, none, some, List, [], ◌∷◌, ◌++◌, if◌then◌else◌,
}
use photogallery.Prelude.Text.{Text, bytes, is_empty}
use photogallery.Exec.{Result, ok, err, pure, throw, gets, or_throw, throw_if, ◌>>=◌, ◌>>◌}
use photogallery.Slug.{valid_slug}
use photogallery.Db.{Album, Photo, Folder, is_protected}
use photogallery.Db.Albums.{get_album_by_slug}
use photogallery.Db.Photos.{get_photo, list_ready_photos}
use photogallery.Db.Folders.{folder_chain}
use photogallery.Db.Summary.{AlbumSummary, get_album_summary_by_slug}
use photogallery.Storage.{
  Variant, original, large, thumb, blur, parse_variant, variant_name, StoreError, not_exist,
  syscall, open_file, stat,
}
use photogallery.Api.{
  Env, Server, Crumb, PhotoJson, AlbumListItem, AlbumDetail, Locked, Served, Reply, failure,
  password_required, album_page, photo_file, Handler, internal_error, fetch, query, try_store,
}
use photogallery.Api.Visitor.Access.{album_access}

abbrev pub album_missing : Reply
album_missing = failure 404 (bytes "album_not_found")

abbrev pub photo_missing : Reply
photo_missing = failure 404 (bytes "photo_not_found")

abbrev pub api_album_path : Text → Text
api_album_path slug = bytes "/api/albums/" ++ slug

abbrev pub list_item : AlbumSummary → AlbumListItem
list_item sum = record {
  slug = sum.album.slug;
  name = sum.album.name;
  description = sum.album.description;
  locked = is_protected sum.album;
  photo_count = sum.photo_count;
  taken_from = sum.taken_from;
  taken_to = sum.taken_to;
  cover_url =
      if is_empty sum.resolved_cover then [] else api_album_path sum.album.slug ++ bytes "/cover";
}

-- `url_base` is the common beginning of the six links.
abbrev pub to_photo_json : Text → Photo → PhotoJson
to_photo_json slug p = record {
  id = p.id;
  filename = p.filename;
  width = p.width;
  height = p.height;
  title = p.title;
  caption = p.caption;
  keywords = p.keywords;
  taken_at = p.taken_at;
  exif = p.exif;
  url_base = api_album_path slug ++ (bytes "/photos/" ++ (p.id ++ bytes "/"));
}

unfoldable pub summary_from_path : Text → Handler AlbumSummary
unfolding fetch
summary_from_path slug = do
  throw_if (not (valid_slug slug)) album_missing
  fetch (get_album_summary_by_slug slug) album_missing

abbrev pub to_crumb : Folder → Crumb
to_crumb f = record { slug = f.slug; name = f.name }

unfoldable pub folder_breadcrumb : Text → Handler (List Crumb)
unfolding query
folder_breadcrumb [] = pure []
folder_breadcrumb (c ∷ id) = do chain ← query (folder_chain (c ∷ id)); pure (map to_crumb chain)

abbrev pub locked_of : AlbumSummary → Locked
locked_of sum = record {
  slug = sum.album.slug;
  name = sum.album.name;
  photo_count = sum.photo_count;
}

abbrev pub detail : AlbumSummary → List Crumb → List Photo → AlbumDetail
detail sum crumbs photos = record {
  item = list_item sum;
  breadcrumb = crumbs;
  cover_photo_id = sum.resolved_cover;
  download_url = api_album_path sum.album.slug ++ bytes "/download";
  photos = map (to_photo_json sum.album.slug) photos;
}

-- A missing large variant is replaced by the original.
abbrev pub fall_back : Result StoreError (Unit {0}) → Variant
fall_back (err StoreError.not_exist) = original
fall_back other = large

abbrev pub opened : Result StoreError Text → Handler Text
opened (ok contents) = pure contents
opened (err StoreError.not_exist) = throw (failure 404 (bytes "file_missing"))
opened (err e) = throw internal_error

abbrev pub or_internal : Result StoreError (Unit {0}) → Handler Unit
or_internal (ok u) = pure tt
or_internal (err e) = throw internal_error

abbrev pub etag : Photo → Variant → Text
etag p v = p.content_hash ++ (b'-' ∷ variant_name v)

-- `cookie` is the value of the session cookie, if the request has one.
module _ (env : Env) where
  unfoldable pub effective : Album → Photo → Variant → Handler Variant
  unfolding try_store
  effective a p large = do
    found ← try_store (stat env.uuid_canonical a.id p.id large)
    pure (fall_back found)
  effective a p v = pure v

  unfoldable pub serve_variant : Album → Photo → Variant → Text → Handler Reply
  unfolding effective try_store
  serve_variant a p asked cache_control = do
    v ← effective a p asked
    file ← try_store (open_file env.uuid_canonical a.id p.id v)
    contents ← opened file
    info ← try_store syscall
    or_internal info
    pure (
        photo_file (record {
          variant = v;
          contents = contents;
          etag = etag p v;
          cache_control = cache_control;
        }))

  unfoldable pub get_album : Option Text → Text → Handler Reply
  unfolding summary_from_path folder_breadcrumb query
  get_album cookie slug = do
    sum ← summary_from_path slug
    crumbs ← folder_breadcrumb sum.album.folder_id
    access ← gets (λ s. album_access env s cookie sum.album)
    throw_if (not access) (password_required (some (locked_of sum)) crumbs)
    photos ← query (list_ready_photos sum.album.id)
    pure (album_page (detail sum crumbs photos))

  abbrev pub cover_variant : Album → Variant
  cover_variant a = if is_protected a then blur else thumb

  unfoldable pub album_cover : Text → Handler Reply
  unfolding summary_from_path query serve_variant
  album_cover slug = do
    sum ← summary_from_path slug
    throw_if (is_empty sum.resolved_cover) (failure 404 (bytes "no_cover"))
    photo ← query (get_photo sum.album.id sum.resolved_cover)
    serve_variant sum.album photo (cover_variant sum.album) (bytes "public, max-age=300")

  abbrev pub variant_cache : Album → Text
  variant_cache a =
      if is_protected a then bytes "private, max-age=3600" else bytes "public, max-age=86400"

  unfoldable pub get_photo_variant : Option Text → Text → Text → Text → Handler Reply
  unfolding fetch serve_variant parse_variant
  get_photo_variant cookie slug photo_id variant_text = do
    throw_if (not (valid_slug slug)) album_missing
    variant ← or_throw (failure 404 (bytes "variant_not_found")) (parse_variant variant_text)
    throw_if (not (env.uuid_parses photo_id)) photo_missing
    a ← fetch (get_album_by_slug slug) album_missing
    access ← gets (λ s. album_access env s cookie a)
    throw_if (not access) (password_required none [])
    photo ← fetch (get_photo a.id photo_id) photo_missing
    throw_if (not photo.variants_ready) photo_missing
    serve_variant a photo variant (variant_cache a)
