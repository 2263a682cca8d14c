-- ===== src/Api/Publish/Updates.antt =====
-- backend/internal/api/publish_albums.go: updating and deleting albums.
use photogallery.Prelude.{◌+◌, ◌&&◌, Option, none, some, [], ◌∷◌, ltb, if◌then◌else◌, length}
use photogallery.Prelude.Text.{Text, bytes}
use photogallery.Exec.{Result, ok, err, pure, throw, gets, skip, ◌>>=◌, ◌>>◌}
use photogallery.Db.{DbError, Album, is_protected}
use photogallery.Db.Albums.{update_album, delete_album}
use photogallery.Db.Photos.{get_photo}
use photogallery.Storage.{remove_album}
use photogallery.Api.{
  Env, Reply, failure, no_content, Handler, internal_error, fetch, query, try_query, try_store,
}
use photogallery.Api.Input.{Decoded, decode_json, valid_name, max_password_len}
use photogallery.Api.Publish.Albums.{
  AlbumInput, answer, set_description, set_listed, invalid_password, album_from_path, set_parent,
  hash_password,
}

-- A missing row is no error to a deletion.
abbrev pub unless_missing : Result DbError (Unit {0}) → Handler Unit
unless_missing (ok u) = skip
unless_missing (err DbError.not_found) = skip
unless_missing (err e) = throw internal_error

module _ (env : Env) where
  -- `if in.Name != nil { ... }`
  unfoldable pub set_name : Option Text → Album → Handler Album
  unfolding valid_name
  set_name none a = pure a
  set_name (some raw) a = do name ← valid_name raw; pure (record a { name = name })

  -- `if in.CoverPhotoID != nil { ... }`
  unfoldable pub set_cover : Option Text → Album → Handler Album
  unfolding fetch
  set_cover none a = pure a
  set_cover (some []) a = pure (record a { cover_photo_id = [] })
  set_cover (some (c ∷ photo_id)) a = do
    cover ← fetch (get_photo a.id (c ∷ photo_id)) (failure 422 (bytes "cover_photo_not_found"))
    pure (record a { cover_photo_id = c ∷ photo_id })

  -- The switch on a new password.
  unfoldable pub change_password : Option Text → Album → Handler Album
  unfolding hash_password
  change_password none a = pure a
  change_password (some []) a =
      if is_protected a
      then pure (record a { password_hash = []; password_version = a.password_version + 1 })
      else pure a
  change_password (some (c ∷ pw)) a =
      if ltb max_password_len (length (c ∷ pw))
      then throw invalid_password
      else if is_protected a && env.bcrypt_matches a.password_hash (c ∷ pw)
      then pure a
      else do
        hash ← hash_password env (c ∷ pw)
        pure (record a { password_hash = hash; password_version = a.password_version + 1 })

  unfoldable pub update_album_handler : Text → Decoded AlbumInput → Handler Reply
  unfolding album_from_path decode_json set_name set_parent set_cover change_password query
  update_album_handler id body = do
    old ← album_from_path env id
    input ← decode_json body
    named ← set_name input.name old
    described ← set_description input.description named
    placed ← set_parent env input.parent_id (set_listed input.is_listed described)
    covered ← set_cover input.cover_photo_id placed
    secured ← change_password input.password covered
    now ← gets (λ s. s.now)
    let a = record secured { updated_at = now }
    query (update_album a)
    answer 200 a

  unfoldable pub delete_album_handler : Text → Handler Reply
  unfolding album_from_path try_query try_store
  delete_album_handler id = do
    a ← album_from_path env id
    deleted ← try_query (delete_album a.id)
    unless_missing deleted
    removed ← try_store (remove_album env.uuid_canonical a.id)
    pure no_content
