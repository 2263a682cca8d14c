-- ===== src/Api/Publish/Keeps/OfFolders.antt =====
-- Each step of the folder handlers, and of those for order and deletion of photos, keeps the
-- constraints.
use photogallery.Prelude.{◌≡◌, true, Option, none, some, List, [], ◌∷◌, arith}
use photogallery.Prelude.Text.{Text}
use photogallery.Exec.{Result, ok, err}
use photogallery.Exec.Keeps.{Keeps, Keeps-bind, keeps_rules}
use photogallery.Slug.{valid_slug, with_unique_slug}
use photogallery.Slug.Unique.{with_unique_slug-Keeps}
use photogallery.Db.{DbError, Folder, Db}
use photogallery.Db.Folders.{get_folder_by_idempotency_key}
use photogallery.Db.Consistent.{Holds}
use photogallery.Db.Consistent.OfFolders.{
  create_folder-Keeps, update_folder-Keeps, get_folder-Keeps, get_folder_by_idempotency_key-Keeps,
  folder_chain-Keeps, subtree_album_ids-Keeps,
}
use photogallery.Db.Consistent.Cascade.{delete_folder-Keeps}
use photogallery.Db.Consistent.OfPhotos.{
  list_photos-Keeps, set_photo_order-Keeps, delete_photo-Keeps,
}
use photogallery.Storage.{remove_album}
use photogallery.Api.{Env, Server, try_store}
use photogallery.Api.Keeps.{
  IsSound, fetch-Keeps, query-Keeps, try_query-Keeps, try_store-Keeps, valid_name-Keeps,
  sound_rules,
}
use photogallery.Api.Input.{Decoded}
use photogallery.Api.Publish.Folders.{
  FolderInput, create_with_slug, folder_from_path, set_parent, insert_folder, replay, replay_found,
  unless_missing, create_folder_handler, set_name, check_chain, move, update_folder_handler,
  remove_albums, delete_folder_handler,
}
use photogallery.Api.Publish.Order.{list_published_photos, set_order_handler, delete_photo_handler}
use photogallery.Api.Publish.Keeps.OfAlbums.{album_from_path-Keeps, resolve_parent_folder-Keeps}

replay_found-Keeps : (r : Result DbError Folder) → Keeps IsSound (replay_found r)
replay_found-Keeps (ok f) = record { at = λ s h. h }
replay_found-Keeps (err DbError.not_found) = record { at = λ s h. h }
replay_found-Keeps (err e) = record { at = λ s h. h }

unless_missing-Keeps : (r : Result DbError (Unit {0})) → Keeps IsSound (unless_missing r)
unless_missing-Keeps (ok u) = record { at = λ s h. h }
unless_missing-Keeps (err DbError.not_found) = record { at = λ s h. h }
unless_missing-Keeps (err e) = record { at = λ s h. h }

module _ (env : Env) where
  folder_from_path-Keeps : (id : Text) → Keeps IsSound (folder_from_path env id)
  unfolding folder_from_path
  folder_from_path-Keeps id = search (keeps_rules, fetch-Keeps, get_folder-Keeps)

  set_parent-Keeps : (p : Option Text) (f : Folder) → Keeps IsSound (set_parent env p f)
  unfolding set_parent
  set_parent-Keeps none f = search keeps_rules
  set_parent-Keeps (some p) f = search (keeps_rules, resolve_parent_folder-Keeps)

  create_with_slug-Holds :
      (f : Folder) (slug : Text) (db : Db)
      → valid_slug slug ≡ true
      → Holds db
      → Holds (create_with_slug f slug db).1
  create_with_slug-Holds f slug db v h = (create_folder-Keeps (record f { slug = slug })).at db h

  insert_folder-Keeps : (f : Folder) → Keeps IsSound (insert_folder env f)
  unfolding insert_folder
  insert_folder-Keeps f = record { at = λ s h. go s h }
    where
      go : (s : Server) → IsSound s → IsSound (insert_folder env f s).1
      go s h =
          let o = with_unique_slug (create_with_slug f) env.nfkd env.mark s.rand f.name s.db in
          let k =
            (with_unique_slug-Keeps (create_with_slug f) Holds (create_with_slug-Holds f) env.nfkd
              env.mark f.name s.rand s.db h).0 in
          ground (
            arith,
            k,
            (query-Keeps (get_folder_by_idempotency_key f.idempotency_key)
                  (get_folder_by_idempotency_key-Keeps f.idempotency_key)).at
                (record s { db = o.state; rand = o.rand }) k,
          )

  replay-Keeps : (key : Text) → Keeps IsSound (replay env key)
  unfolding replay
  replay-Keeps [] = search keeps_rules
  replay-Keeps (c ∷ key) =
      search (keeps_rules, try_query-Keeps, get_folder_by_idempotency_key-Keeps, replay_found-Keeps)

  pub create_folder_handler-Keeps :
      (body : Decoded FolderInput) → Keeps IsSound (create_folder_handler env body)
  unfolding create_folder_handler
  create_folder_handler-Keeps body =
      search (keeps_rules, sound_rules, replay-Keeps, set_parent-Keeps, insert_folder-Keeps) depth
        20

  set_name-Keeps : (name : Option Text) (f : Folder) → Keeps IsSound (set_name env name f)
  unfolding set_name
  set_name-Keeps none f = search keeps_rules
  set_name-Keeps (some raw) f = search (keeps_rules, valid_name-Keeps)

  check_chain-Keeps : (id folder_id : Text) → Keeps IsSound (check_chain env id folder_id)
  unfolding check_chain
  check_chain-Keeps id [] = search keeps_rules
  check_chain-Keeps id (c ∷ folder_id) = search (keeps_rules, query-Keeps, folder_chain-Keeps)

  move-Keeps : (p : Option Text) (f : Folder) → Keeps IsSound (move env p f)
  unfolding move
  move-Keeps none f = search keeps_rules
  move-Keeps (some p) f =
      search (keeps_rules, resolve_parent_folder-Keeps, check_chain-Keeps) depth 9

  pub update_folder_handler-Keeps :
      (id : Text) (body : Decoded FolderInput) → Keeps IsSound (update_folder_handler env id body)
  unfolding update_folder_handler
  update_folder_handler-Keeps id body =
      search
        (
          keeps_rules, sound_rules, folder_from_path-Keeps, set_name-Keeps, move-Keeps,
          update_folder-Keeps,
        )
        depth 20

  remove_albums-Keeps : (ids : List Text) → Keeps IsSound (remove_albums env ids)
  unfolding remove_albums
  remove_albums-Keeps [] = search keeps_rules
  remove_albums-Keeps (id ∷ ids) =
      Keeps-bind (try_store (remove_album env.uuid_canonical id)) (λ _. remove_albums env ids)
        (try_store-Keeps (remove_album env.uuid_canonical id)) (λ _. remove_albums-Keeps ids)

  pub delete_folder_handler-Keeps : (id : Text) → Keeps IsSound (delete_folder_handler env id)
  unfolding delete_folder_handler
  delete_folder_handler-Keeps id =
      search
        (
          keeps_rules, sound_rules, folder_from_path-Keeps, subtree_album_ids-Keeps,
          delete_folder-Keeps, unless_missing-Keeps, remove_albums-Keeps,
        )
        depth 20

  pub list_published_photos-Keeps : (id : Text) → Keeps IsSound (list_published_photos env id)
  unfolding list_published_photos
  list_published_photos-Keeps id =
      search (keeps_rules, query-Keeps, album_from_path-Keeps, list_photos-Keeps) depth 9

  pub set_order_handler-Keeps :
      (id : Text) (body : Decoded (List Text)) → Keeps IsSound (set_order_handler env id body)
  unfolding set_order_handler
  set_order_handler-Keeps id body =
      search (keeps_rules, sound_rules, album_from_path-Keeps, set_photo_order-Keeps) depth 12

  pub delete_photo_handler-Keeps :
      (id photo_id : Text) → Keeps IsSound (delete_photo_handler env id photo_id)
  unfolding delete_photo_handler
  delete_photo_handler-Keeps id photo_id =
      search (keeps_rules, sound_rules, album_from_path-Keeps, delete_photo-Keeps) depth 12
