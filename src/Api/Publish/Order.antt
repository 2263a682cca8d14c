-- ===== src/Api/Publish/Order.antt =====
-- backend/internal/api/publish_albums.go: the photos of an album, their order, and deleting one.
use mathlib.Core.List.{map}
use photogallery.Prelude.{not, List, any}
use photogallery.Prelude.Text.{Text, bytes}
use photogallery.Exec.{pure, throw_if, ◌>>=◌, ◌>>◌}
use photogallery.Db.{Photo}
use photogallery.Db.Photos.{list_photos, set_photo_order, delete_photo}
use photogallery.Storage.{remove_photo}
use photogallery.Api.{
  Env, PublishedPhoto, Reply, failure, no_content, photo_list, Handler, fetch, query, try_store,
}
use photogallery.Api.Input.{Decoded, decode_json}
use photogallery.Api.Publish.Albums.{album_from_path}

abbrev pub published : Photo → PublishedPhoto
published p = record {
  id = p.id;
  lr_photo_uuid = p.lr_photo_uuid;
  content_hash = p.content_hash;
  filename = p.filename;
}

abbrev pub photo_not_found : Reply
photo_not_found = failure 404 (bytes "photo_not_found")

module _ (env : Env) where
  unfoldable pub list_published_photos : Text → Handler Reply
  unfolding album_from_path query
  list_published_photos id = do
    a ← album_from_path env id
    photos ← query (list_photos a.id)
    pure (photo_list (map published photos))

  unfoldable pub set_order_handler : Text → Decoded (List Text) → Handler Reply
  unfolding album_from_path decode_json query
  set_order_handler id body = do
    a ← album_from_path env id
    photo_ids ← decode_json body
    throw_if (any (λ p. not (env.uuid_parses p)) photo_ids) (failure 400 (bytes "invalid_photo_id"))
    query (set_photo_order a.id photo_ids)
    pure no_content

  unfoldable pub delete_photo_handler : Text → Text → Handler Reply
  unfolding album_from_path fetch try_store
  delete_photo_handler id photo_id = do
    a ← album_from_path env id
    throw_if (not (env.uuid_parses photo_id)) photo_not_found
    fetch (delete_photo a.id photo_id) photo_not_found
    removed ← try_store (remove_photo env.uuid_canonical a.id photo_id)
    pure no_content
