-- ===== src/Api/Publish/Routes.antt =====
-- backend/internal/api/server.go: the publish endpoints, each behind the API key.
pub mod Sound
use photogallery.Prelude.{ℕ, Option, List, [], ◌∷◌}
use photogallery.Prelude.Text.{Text}
use photogallery.Exec.{pure}
use photogallery.Api.{Env, Server, Reply, status_ok, Handler, respond}
use photogallery.Api.Input.{Decoded}
use photogallery.Api.Publish.Auth.{require_api_key}
use photogallery.Api.Publish.Albums.{AlbumInput, create_album_handler}
use photogallery.Api.Publish.Updates.{update_album_handler, delete_album_handler}
use photogallery.Api.Publish.Folders.{
  FolderInput, create_folder_handler, update_folder_handler, delete_folder_handler,
}
use photogallery.Api.Publish.Order.{list_published_photos, set_order_handler, delete_photo_handler}
use photogallery.Api.Publish.Upload.{Body}
use photogallery.Api.Publish.Ingest.{Client, upload_photo, replace_photo}

-- A request of the plugin: its method and path, with the body where it has one.
pub data PublishCall : Type 0 where
  create_album : Decoded AlbumInput → PublishCall
  update_album : Text → Decoded AlbumInput → PublishCall
  delete_album : Text → PublishCall
  list_photos : Text → PublishCall
  ping : PublishCall
  delete_photo : Text → Text → PublishCall
  set_order : Text → Decoded (List Text) → PublishCall
  create_folder : Decoded FolderInput → PublishCall
  update_folder : Text → Decoded FolderInput → PublishCall
  delete_folder : Text → PublishCall
  upload : Text → Client → Body → PublishCall
  replace : Text → Text → Client → Body → PublishCall

module _ (env : Env) where
  abbrev pub handler : PublishCall → Handler Reply
  handler (create_album body) = create_album_handler env body
  handler (update_album id body) = update_album_handler env id body
  handler (delete_album id) = delete_album_handler env id
  handler (list_photos id) = list_published_photos env id
  handler ping = pure status_ok
  handler (delete_photo id photo_id) = delete_photo_handler env id photo_id
  handler (set_order id body) = set_order_handler env id body
  handler (create_folder body) = create_folder_handler env body
  handler (update_folder id body) = update_folder_handler env id body
  handler (delete_folder id) = delete_folder_handler env id
  handler (upload id client body) = upload_photo env id client body
  handler (replace id photo_id client body) = replace_photo env id photo_id client body

-- The Authorization header and the request.
pub record PublishRequest : Type 0 where
  pub header : Text
  pub call : PublishCall

module _ (env : Env) (sha256 : Text → Text) where
  unfoldable pub serve : PublishRequest → Server → Reply × Server
  unfolding require_api_key respond
  serve req = respond (require_api_key sha256 req.header (handler env req.call))

  -- The server after the requests, one after the other.
  unfoldable pub serve_all : List PublishRequest → Server → Server
  unfolding serve
  serve_all [] s = s
  serve_all (req ∷ reqs) s = serve_all reqs (serve req s).1
