-- ===== src/Api/Publish/Keeps/OfAlbums.antt =====
-- Each step of the album handlers keeps the constraints.
use photogallery.Prelude.{◌≡◌, true, Option, none, some, [], ◌∷◌, arith}
use photogallery.Prelude.Text.{Text}
use photogallery.Exec.{Result, ok, err}
use photogallery.Exec.Keeps.{Keeps, keeps_rules}
use photogallery.Slug.{valid_slug, with_unique_slug}
use photogallery.Slug.Unique.{with_unique_slug-Keeps}
use photogallery.Db.{DbError, Album, Db}
use photogallery.Db.Albums.{get_album_by_idempotency_key}
use photogallery.Db.Consistent.{Holds}
use photogallery.Db.Consistent.OfAlbums.{
  create_album-Keeps, update_album-Keeps, delete_album-Keeps, get_album-Keeps,
  get_album_by_idempotency_key-Keeps,
}
use photogallery.Db.Consistent.OfPhotos.{get_photo-Keeps}
use photogallery.Db.Consistent.OfFolders.{get_folder-Keeps}
use photogallery.Api.{Env, Server}
use photogallery.Api.Keeps.{
  IsSound, fetch-Keeps, query-Keeps, try_query-Keeps, draw-Keeps, valid_name-Keeps, sound_rules,
}
use photogallery.Api.Input.{Decoded}
use photogallery.Api.Publish.Albums.{
  AlbumInput, create_with_slug, album_from_path, resolve_parent_folder, set_parent, hash_password,
  first_password, insert_album, replay, create_album_handler, set_description, replay_found,
}
use photogallery.Api.Publish.Updates.{
  set_name, set_cover, change_password, update_album_handler, delete_album_handler, unless_missing,
}

set_description-Keeps : (d : Option Text) (a : Album) → Keeps IsSound (set_description d a)
set_description-Keeps none a = record { at = λ s h. h }
set_description-Keeps (some d) a = record { at = λ s h. ground (arith, h) }

replay_found-Keeps : (r : Result DbError Album) → Keeps IsSound (replay_found r)
replay_found-Keeps (ok a) = record { at = λ s h. h }
replay_found-Keeps (err DbError.not_found) = record { at = λ s h. h }
replay_found-Keeps (err e) = record { at = λ s h. h }

unless_missing-Keeps : (r : Result DbError (Unit {0})) → Keeps IsSound (unless_missing r)
unless_missing-Keeps (ok u) = record { at = λ s h. h }
unless_missing-Keeps (err DbError.not_found) = record { at = λ s h. h }
unless_missing-Keeps (err e) = record { at = λ s h. h }

module _ (env : Env) where
  pub album_from_path-Keeps : (id : Text) → Keeps IsSound (album_from_path env id)
  unfolding album_from_path
  album_from_path-Keeps id = search (keeps_rules, fetch-Keeps, get_album-Keeps)

  pub resolve_parent_folder-Keeps : (id : Text) → Keeps IsSound (resolve_parent_folder env id)
  unfolding resolve_parent_folder
  resolve_parent_folder-Keeps [] = search keeps_rules
  resolve_parent_folder-Keeps (c ∷ id) = search (keeps_rules, fetch-Keeps, get_folder-Keeps)

  set_parent-Keeps : (p : Option Text) (a : Album) → Keeps IsSound (set_parent env p a)
  unfolding set_parent
  set_parent-Keeps none a = search keeps_rules
  set_parent-Keeps (some p) a = search (keeps_rules, resolve_parent_folder-Keeps)

  hash_password-Keeps : (pw : Text) → Keeps IsSound (hash_password env pw)
  unfolding hash_password
  hash_password-Keeps pw = search (keeps_rules, draw-Keeps)

  first_password-Keeps : (pw : Option Text) (a : Album) → Keeps IsSound (first_password env pw a)
  unfolding first_password
  first_password-Keeps none a = search keeps_rules
  first_password-Keeps (some []) a = search keeps_rules
  first_password-Keeps (some (c ∷ pw)) a = search (keeps_rules, hash_password-Keeps)

  create_with_slug-Holds :
      (a : Album) (slug : Text) (db : Db)
      → valid_slug slug ≡ true
      → Holds db
      → Holds (create_with_slug a slug db).1
  create_with_slug-Holds a slug db v h = (create_album-Keeps (record a { slug = slug })).at db h

  insert_album-Keeps : (a : Album) → Keeps IsSound (insert_album env a)
  unfolding insert_album
  insert_album-Keeps a = record { at = λ s h. go s h }
    where
      go : (s : Server) → IsSound s → IsSound (insert_album env a s).1
      go s h =
          let k =
            (with_unique_slug-Keeps (create_with_slug a) Holds (create_with_slug-Holds a) env.nfkd
              env.mark a.name s.rand s.db h).0 in
          ground (
            arith,
            k,
            (query-Keeps (get_album_by_idempotency_key a.idempotency_key)
                  (get_album_by_idempotency_key-Keeps a.idempotency_key)).at
                (record s {
                  db =
                      (with_unique_slug (create_with_slug a) env.nfkd env.mark s.rand a.name
                        s.db).state;
                  rand =
                      (with_unique_slug (create_with_slug a) env.nfkd env.mark s.rand a.name
                        s.db).rand;
                })
                k,
          )

  replay-Keeps : (key : Text) → Keeps IsSound (replay env key)
  unfolding replay
  replay-Keeps [] = search keeps_rules
  replay-Keeps (c ∷ key) =
      search (keeps_rules, try_query-Keeps, get_album_by_idempotency_key-Keeps, replay_found-Keeps)

  pub create_album_handler-Keeps :
      (body : Decoded AlbumInput) → Keeps IsSound (create_album_handler env body)
  unfolding create_album_handler
  create_album_handler-Keeps body =
      search
        (
          keeps_rules, sound_rules, replay-Keeps, set_description-Keeps, first_password-Keeps,
          set_parent-Keeps, insert_album-Keeps,
        )
        depth 20

  set_name-Keeps : (name : Option Text) (a : Album) → Keeps IsSound (set_name env name a)
  unfolding set_name
  set_name-Keeps none a = search keeps_rules
  set_name-Keeps (some raw) a = search (keeps_rules, valid_name-Keeps)

  set_cover-Keeps : (cover : Option Text) (a : Album) → Keeps IsSound (set_cover env cover a)
  unfolding set_cover
  set_cover-Keeps none a = search keeps_rules
  set_cover-Keeps (some []) a = search keeps_rules
  set_cover-Keeps (some (c ∷ id)) a = search (keeps_rules, fetch-Keeps, get_photo-Keeps)

  change_password-Keeps : (pw : Option Text) (a : Album) → Keeps IsSound (change_password env pw a)
  unfolding change_password
  change_password-Keeps none a = search keeps_rules
  change_password-Keeps (some []) a = search keeps_rules
  change_password-Keeps (some (c ∷ pw)) a = search (keeps_rules, hash_password-Keeps) depth 9

  pub update_album_handler-Keeps :
      (id : Text) (body : Decoded AlbumInput) → Keeps IsSound (update_album_handler env id body)
  unfolding update_album_handler
  update_album_handler-Keeps id body =
      search
        (
          keeps_rules, sound_rules, album_from_path-Keeps, set_name-Keeps, set_description-Keeps,
          set_parent-Keeps, set_cover-Keeps, change_password-Keeps, update_album-Keeps,
        )
        depth 20

  pub delete_album_handler-Keeps : (id : Text) → Keeps IsSound (delete_album_handler env id)
  unfolding delete_album_handler
  delete_album_handler-Keeps id =
      search
        (keeps_rules, sound_rules, album_from_path-Keeps, delete_album-Keeps, unless_missing-Keeps)
        depth 20
