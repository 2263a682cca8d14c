-- ===== src/Api/Publish/Albums.antt =====
-- backend/internal/api/publish_albums.go: creating an album, and what the other handlers share.
use photogallery.Prelude.{
  ℕ, Bool, true, not, Option, none, some, [], ◌∷◌, ltb, if◌then◌else◌, length,
}
use photogallery.Prelude.Text.{Text, bytes}
use photogallery.Prelude.Space.{trim_space}
use photogallery.Exec.{Result, ok, err, pure, throw, gets, throw_if, or_throw, skip, ◌>>=◌, ◌>>◌}
use photogallery.Slug.{Created, created, slug_taken, rand_failed, failed, with_unique_slug}
use photogallery.Db.{DbError, Album, Db, is_protected}
use photogallery.Db.Albums.{create_album, get_album, get_album_by_idempotency_key}
use photogallery.Db.Folders.{get_folder}
use photogallery.Api.{
  Env, Server, AlbumOutput, Reply, failure, album_reply, Handler, internal_error, fetch, query,
  try_query, draw, album_url,
}
use photogallery.Api.Input.{
  Decoded, decode_json, valid_name, invalid_name, valid_idempotency_key, max_description_len,
  max_password_len,
}

pub record AlbumInput : Type 0 where
  pub name : Option Text
  pub description : Option Text
  pub password : Option Text
  pub is_listed : Option Bool
  pub cover_photo_id : Option Text
  pub parent_id : Option Text
  pub idempotency_key : Option Text

abbrev pub album_not_found : Reply
album_not_found = failure 404 (bytes "album_not_found")

abbrev pub album_output : Server → Album → AlbumOutput
album_output s a = record {
  id = a.id;
  slug = a.slug;
  url = album_url s a.slug;
  name = a.name;
  protected = is_protected a;
  is_listed = a.is_listed;
}

-- writeJSON(w, status, s.albumOutput(a))
abbrev pub answer : ℕ → Album → Handler Reply
answer status a = gets (λ s. album_reply status (album_output s a))

abbrev pub invalid_description : Reply
invalid_description = failure 400 (bytes "invalid_description")

abbrev pub set_description : Option Text → Album → Handler Album
set_description none a = pure a
set_description (some d) a =
    if ltb max_description_len (length d)
    then throw invalid_description
    else pure (record a { description = trim_space d })

abbrev pub set_listed : Option Bool → Album → Album
set_listed none a = a
set_listed (some b) a = record a { is_listed = b }

abbrev pub invalid_password : Reply
invalid_password = failure 400 (bytes "invalid_password")

-- `CreateAlbum` with the slug set, as `withUniqueSlug` sees its errors.
abbrev pub created_of : Result DbError (Unit {0}) → Created DbError
created_of (ok u) = created
created_of (err DbError.slug_taken) = slug_taken
created_of (err e) = failed e

abbrev pub create_with_slug : Album → Text → Db → Created DbError × Db
create_with_slug a slug db =
    let (r, db') = create_album (record a { slug = slug }) db in (created_of r, db')

-- The answer of an earlier request with the key.
abbrev pub replay_found : Result DbError Album → Handler Unit
replay_found (ok existing) = answer 201 existing >>= λ reply. throw reply
replay_found (err DbError.not_found) = skip
replay_found (err e) = throw internal_error

module _ (env : Env) where
  -- `albumFromPath`
  unfoldable pub album_from_path : Text → Handler Album
  unfolding fetch
  album_from_path id = do
    throw_if (not (env.uuid_parses id)) album_not_found
    fetch (get_album id) album_not_found

  abbrev pub folder_not_found : Reply
  folder_not_found = failure 400 (bytes "folder_not_found")

  -- `resolveParentFolder`
  unfoldable pub resolve_parent_folder : Text → Handler Text
  unfolding fetch
  resolve_parent_folder [] = pure []
  resolve_parent_folder (c ∷ parent_id) = do
    throw_if (not (env.uuid_parses (c ∷ parent_id))) folder_not_found
    parent ← fetch (get_folder (c ∷ parent_id)) folder_not_found
    pure (c ∷ parent_id)

  -- `if in.ParentID != nil { ... }`
  unfoldable pub set_parent : Option Text → Album → Handler Album
  unfolding resolve_parent_folder
  set_parent none a = pure a
  set_parent (some parent_id) a = do
    folder_id ← resolve_parent_folder parent_id
    pure (record a { folder_id = folder_id })

  -- `auth.HashPassword`
  unfoldable pub hash_password : Text → Handler Text
  unfolding draw
  hash_password pw = do salt ← draw; or_throw internal_error (env.bcrypt salt pw)

  -- The password of a new album.
  unfoldable pub first_password : Option Text → Album → Handler Album
  unfolding hash_password
  first_password none a = pure a
  first_password (some []) a = pure a
  first_password (some (c ∷ pw)) a = do
    throw_if (ltb max_password_len (length (c ∷ pw))) invalid_password
    hash ← hash_password (c ∷ pw)
    pure (record a { password_hash = hash; password_version = 1 })

  -- `withUniqueSlug` around `CreateAlbum`, and the answer after a lost race.
  unfoldable pub insert_album : Album → Handler Album
  unfolding query
  insert_album a s =
      let o = with_unique_slug (create_with_slug a) env.nfkd env.mark s.rand a.name s.db in
      let s' : Server = record s { db = o.state; rand = o.rand } in
      elim o.result [
        | created ↦ (ok (record a { slug = o.slug }), s')
        | slug_taken ↦ (err internal_error, s')
        | rand_failed ↦ (err internal_error, s')
        | failed e ↦ elim e [
          | DbError.idempotency_key_taken ↦
              query (get_album_by_idempotency_key a.idempotency_key) s'
          | _ ↦ (err internal_error, s')
        ]
      ]

  -- The album that an earlier request with the key has made is the answer.
  unfoldable pub replay : Text → Handler Unit
  unfolding try_query
  replay [] = skip
  replay (c ∷ key) = do
    found ← try_query (get_album_by_idempotency_key (c ∷ key))
    replay_found found

  abbrev pub new_album : Text → Text → Text → ℕ → Album
  new_album id name key now = record {
    id = id;
    folder_id = [];
    slug = [];
    name = name;
    description = [];
    password_hash = [];
    password_version = 0;
    is_listed = true;
    cover_photo_id = [];
    idempotency_key = key;
    created_at = now;
    updated_at = now;
  }

  unfoldable pub create_album_handler : Decoded AlbumInput → Handler Reply
  unfolding decode_json valid_name valid_idempotency_key replay draw first_password set_parent
      insert_album
  create_album_handler body = do
    input ← decode_json body
    raw ← or_throw invalid_name input.name
    name ← valid_name raw
    key ← valid_idempotency_key input.idempotency_key
    replay key
    now ← gets (λ s. s.now)
    n ← draw
    described ← set_description input.description (new_album (env.new_uuid n) name key now)
    a ← first_password input.password (set_listed input.is_listed described)
    placed ← set_parent input.parent_id a
    stored ← insert_album placed
    answer 201 stored
