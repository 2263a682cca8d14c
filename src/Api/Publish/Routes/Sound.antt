-- ===== src/Api/Publish/Routes/Sound.antt =====
-- Publish requests keep the constraints of the tables, and change nothing without a valid key.
use photogallery.Prelude.{ℕ, Option, none, some, List, [], ◌∷◌, arith}
use photogallery.Prelude.Text.{Text}
use photogallery.Exec.Keeps.{Keeps, Keeps-bind, keeps_rules}
use photogallery.Db.{ApiKey}
use photogallery.Db.Keys.{list_api_keys_by_prefix, touch_api_key}
use photogallery.Db.Consistent.{Holds, statement-Keeps, Keeps-statement}
use photogallery.Api.{Env, Server, Reply, Handler, respond}
use photogallery.Api.Keeps.{IsSound, query-Keeps, try_query-Keeps}
use photogallery.Api.Publish.Auth.{
  bearer, api_key_prefix, touch, admit, with_prefix, with_bearer, require_api_key,
}
use photogallery.Api.Publish.Keeps.OfAlbums.{
  create_album_handler-Keeps, update_album_handler-Keeps, delete_album_handler-Keeps,
}
use photogallery.Api.Publish.Keeps.OfFolders.{
  create_folder_handler-Keeps, update_folder_handler-Keeps, delete_folder_handler-Keeps,
  list_published_photos-Keeps, set_order_handler-Keeps, delete_photo_handler-Keeps,
}
use photogallery.Api.Publish.Keeps.OfUploads.{upload_photo-Keeps, replace_photo-Keeps}
use photogallery.Api.Publish.Routes.{
  PublishCall, create_album, update_album, delete_album, list_photos, ping, delete_photo, set_order,
  create_folder, update_folder, delete_folder, upload, replace, handler, PublishRequest, serve,
  serve_all,
}

list_api_keys_by_prefix-Keeps : (prefix : Text) → Keeps Holds (list_api_keys_by_prefix prefix)
unfolding list_api_keys_by_prefix
list_api_keys_by_prefix-Keeps prefix = search (keeps_rules, statement-Keeps) depth 9

touch_api_key-Keeps : (id : Text) (now : ℕ) → Keeps Holds (touch_api_key id now)
unfolding touch_api_key
touch_api_key-Keeps id now = Keeps-statement _ (record {
  at = λ db h. record {
    albums = h.albums;
    photos = h.photos;
    folders = h.folders;
    photo_albums = h.photo_albums;
    album_folders = h.album_folders;
    folder_parents = h.folder_parents;
  };
})

touch-Keeps : (k : ApiKey) → Keeps IsSound (touch k)
unfolding touch
touch-Keeps k = record {
  at = λ s h. ground (
    arith,
    h,
    (try_query-Keeps (touch_api_key k.id s.now) (touch_api_key-Keeps k.id s.now)).at s h,
  );
}

module _ (sha256 : Text → Text) where
  module _ (next : Handler Reply) (next-Keeps : Keeps IsSound next) where
    admit-Keeps : (k : Option ApiKey) → Keeps IsSound (admit sha256 k next)
    admit-Keeps none = search keeps_rules
    admit-Keeps (some k) = Keeps-bind (touch k) (λ _. next) (touch-Keeps k) (λ _. next-Keeps)

    with_prefix-Keeps :
        (plain : Text) (p : Option Text) → Keeps IsSound (with_prefix sha256 plain p next)
    with_prefix-Keeps plain none = search keeps_rules
    with_prefix-Keeps plain (some p) =
        search (keeps_rules, query-Keeps, list_api_keys_by_prefix-Keeps, admit-Keeps) depth 9

    with_bearer-Keeps : (b : Option Text) → Keeps IsSound (with_bearer sha256 b next)
    with_bearer-Keeps none = search keeps_rules
    with_bearer-Keeps (some plain) = with_prefix-Keeps plain (api_key_prefix plain)

    require_api_key-Keeps : (header : Text) → Keeps IsSound (require_api_key sha256 header next)
    unfolding require_api_key
    require_api_key-Keeps header = with_bearer-Keeps (bearer header)

module _ (env : Env) where
  handler-Keeps : (c : PublishCall) → Keeps IsSound (handler env c)
  handler-Keeps (create_album body) = create_album_handler-Keeps env body
  handler-Keeps (update_album id body) = update_album_handler-Keeps env id body
  handler-Keeps (delete_album id) = delete_album_handler-Keeps env id
  handler-Keeps (list_photos id) = list_published_photos-Keeps env id
  handler-Keeps ping = search keeps_rules
  handler-Keeps (delete_photo id photo_id) = delete_photo_handler-Keeps env id photo_id
  handler-Keeps (set_order id body) = set_order_handler-Keeps env id body
  handler-Keeps (create_folder body) = create_folder_handler-Keeps env body
  handler-Keeps (update_folder id body) = update_folder_handler-Keeps env id body
  handler-Keeps (delete_folder id) = delete_folder_handler-Keeps env id
  handler-Keeps (upload id client body) = upload_photo-Keeps env id client body
  handler-Keeps (replace id photo_id client body) = replace_photo-Keeps env id photo_id client body

module _ (env : Env) (sha256 : Text → Text) where
  serve-IsSound :
      (req : PublishRequest) (s : Server) → IsSound s → IsSound (serve env sha256 req s).1
  unfolding serve respond
  serve-IsSound req s h =
      (require_api_key-Keeps sha256 (handler env req.call) (handler-Keeps env req.call)
          req.header).at
        s h

  -- Whatever publish requests, uploads included, arrive one after the other, with whatever headers and bodies, and
  -- whatever statements fail: when the tables of the server keep their primary keys, unique indexes
  -- and foreign keys before, they keep them after.
  pub serve_all-IsSound :
      (reqs : List PublishRequest) (s : Server) → IsSound s → IsSound (serve_all env sha256 reqs s)
  unfolding serve_all
  serve_all-IsSound [] s h = h
  serve_all-IsSound (req ∷ reqs) s h =
      serve_all-IsSound reqs (serve env sha256 req s).1 (serve-IsSound req s h)
