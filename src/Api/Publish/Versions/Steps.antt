-- ===== src/Api/Publish/Versions/Steps.antt =====
-- The steps of `updateAlbum` before its UPDATE leave the tables as they were.
use photogallery.Prelude.{◌≡◌, not, Option, none, some, [], ◌∷◌, find}
use photogallery.Prelude.Text.{Text}
use photogallery.Exec.Keeps.{Keeps, keeps_rules}
use photogallery.Exec.Ensures.{Ensures, Ensures-guard}
use photogallery.Db.{Album}
use photogallery.Db.Albums.{folder_has_id, album_has_id, get_album}
use photogallery.Db.Photos.{photo_has_id, get_photo}
use photogallery.Db.Folders.{get_folder}
use photogallery.Api.{Env, Server, Reply, fetch, draw}
use photogallery.Api.Input.{Decoded, too_large, malformed, decoded, decode_json, valid_name}
use photogallery.Api.Publish.Albums.{
  album_from_path, resolve_parent_folder, set_parent, hash_password, set_description,
}
use photogallery.Api.Publish.Updates.{set_name, set_cover, change_password}
use photogallery.Api.Visitor.Pages.Reads.{IsAt, fetch-select-Keeps, fetch-select-Ensures}

module _ (s0 : Server) (env : Env) where
  get_album-At : (id : Text) (missing : Reply) → Keeps (IsAt s0) (fetch (get_album id) missing)
  unfolding get_album
  get_album-At id missing = fetch-select-Keeps s0 (λ t. find (album_has_id id) t.albums) missing

  get_folder-At : (id : Text) (missing : Reply) → Keeps (IsAt s0) (fetch (get_folder id) missing)
  unfolding get_folder
  get_folder-At id missing = fetch-select-Keeps s0 (λ t. find (folder_has_id id) t.folders) missing

  pub get_photo-At :
      (album_id id : Text) (missing : Reply)
      → Keeps (IsAt s0) (fetch (get_photo album_id id) missing)
  unfolding get_photo
  get_photo-At album_id id missing =
      fetch-select-Keeps s0 (λ t. find (photo_has_id album_id id) t.photos) missing

  pub decode_json-At : {A : Type 0} (body : Decoded A) → Keeps (IsAt s0) (decode_json body)
  unfolding decode_json
  decode_json-At too_large = record { at = λ s h. h }
  decode_json-At malformed = record { at = λ s h. h }
  decode_json-At (decoded a) = record { at = λ s h. h }

  pub valid_name-At : (raw : Text) → Keeps (IsAt s0) (valid_name raw)
  unfolding valid_name
  valid_name-At raw = search keeps_rules

  draw-At : Keeps (IsAt s0) draw
  unfolding draw
  draw-At = record {
    at = λ s h. record { tables = h.tables; sessions = h.sessions; now = h.now; files = h.files };
  }

  pub hash_password-At : (pw : Text) → Keeps (IsAt s0) (hash_password env pw)
  unfolding hash_password
  hash_password-At pw = search (keeps_rules, draw-At)

  pub album_from_path-At : (id : Text) → Keeps (IsAt s0) (album_from_path env id)
  unfolding album_from_path
  album_from_path-At id = search (keeps_rules, get_album-At)

  pub album_from_path-Finds :
      (id : Text)
      → Ensures
          (IsAt s0)
          (λ a. find (album_has_id id) s0.db.tables.albums ≡ some a)
          (album_from_path env id)
  unfolding album_from_path get_album
  album_from_path-Finds id =
      Ensures-guard (not (env.uuid_parses id)) _ _
        λ k. fetch-select-Ensures s0 (λ t. find (album_has_id id) t.albums) _

  pub set_name-At : (name : Option Text) (a : Album) → Keeps (IsAt s0) (set_name env name a)
  unfolding set_name
  set_name-At none a = search keeps_rules
  set_name-At (some raw) a = search (keeps_rules, valid_name-At)

  pub set_description-At : (d : Option Text) (a : Album) → Keeps (IsAt s0) (set_description d a)
  set_description-At none a = search keeps_rules
  set_description-At (some d) a = search keeps_rules

  pub resolve_parent_folder-At : (id : Text) → Keeps (IsAt s0) (resolve_parent_folder env id)
  unfolding resolve_parent_folder
  resolve_parent_folder-At [] = search keeps_rules
  resolve_parent_folder-At (c ∷ id) = search (keeps_rules, get_folder-At)

  pub set_parent-At : (p : Option Text) (a : Album) → Keeps (IsAt s0) (set_parent env p a)
  unfolding set_parent
  set_parent-At none a = search keeps_rules
  set_parent-At (some p) a = search (keeps_rules, resolve_parent_folder-At)

  pub set_cover-At : (cover : Option Text) (a : Album) → Keeps (IsAt s0) (set_cover env cover a)
  unfolding set_cover
  set_cover-At none a = search keeps_rules
  set_cover-At (some []) a = search keeps_rules
  set_cover-At (some (c ∷ id)) a = search (keeps_rules, get_photo-At)

  pub change_password-At :
      (pw : Option Text) (a : Album) → Keeps (IsAt s0) (change_password env pw a)
  unfolding change_password
  change_password-At none a = search keeps_rules
  change_password-At (some []) a = search keeps_rules
  change_password-At (some (c ∷ pw)) a = search (keeps_rules, hash_password-At) depth 9
