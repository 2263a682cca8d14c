-- ===== src/Api/Publish/Folders.antt =====
-- backend/internal/api/publish_folders.go.
use photogallery.Prelude.{ℕ, not, Option, none, some, List, [], ◌∷◌, any}
use photogallery.Prelude.Text.{Text, bytes, ◌==◌}
use photogallery.Exec.{Result, ok, err, pure, throw, gets, throw_if, or_throw, skip, ◌>>=◌, ◌>>◌}
use photogallery.Slug.{Created, created, slug_taken, rand_failed, failed, with_unique_slug}
use photogallery.Db.{DbError, Folder, Db}
use photogallery.Db.Folders.{
  create_folder, get_folder, get_folder_by_idempotency_key, update_folder, delete_folder,
  folder_chain, subtree_album_ids,
}
use photogallery.Storage.{remove_album}
use photogallery.Api.{
  Env, Server, FolderOutput, Reply, failure, no_content, folder_reply, Handler, internal_error,
  fetch, query, try_query, try_store, draw, folder_url,
}
use photogallery.Api.Input.{Decoded, decode_json, valid_name, invalid_name, valid_idempotency_key}
use photogallery.Api.Publish.Albums.{resolve_parent_folder}

pub record FolderInput : Type 0 where
  pub name : Option Text
  pub parent_id : Option Text
  pub idempotency_key : Option Text

abbrev pub folder_missing : Reply
folder_missing = failure 404 (bytes "folder_not_found")

abbrev pub folder_output : Server → Folder → FolderOutput
folder_output s f = record { id = f.id; slug = f.slug; url = folder_url s f.slug; name = f.name }

abbrev pub answer : ℕ → Folder → Handler Reply
answer status f = gets (λ s. folder_reply status (folder_output s f))

abbrev pub created_of : Result DbError (Unit {0}) → Created DbError
created_of (ok u) = created
created_of (err DbError.slug_taken) = slug_taken
created_of (err e) = failed e

abbrev pub create_with_slug : Folder → Text → Db → Created DbError × Db
create_with_slug f slug db =
    let (r, db') = create_folder (record f { slug = slug }) db in (created_of r, db')

abbrev pub invalid_parent : Reply
invalid_parent = failure 400 (bytes "invalid_parent")

-- The answer of an earlier request with the key.
abbrev pub replay_found : Result DbError Folder → Handler Unit
replay_found (ok existing) = answer 201 existing >>= λ reply. throw reply
replay_found (err DbError.not_found) = skip
replay_found (err e) = throw internal_error

-- A missing row is no error to a deletion.
abbrev pub unless_missing : Result DbError (Unit {0}) → Handler Unit
unless_missing (ok u) = skip
unless_missing (err DbError.not_found) = skip
unless_missing (err e) = throw internal_error

module _ (env : Env) where
  -- `folderFromPath`
  unfoldable pub folder_from_path : Text → Handler Folder
  unfolding fetch
  folder_from_path id = do
    throw_if (not (env.uuid_parses id)) folder_missing
    fetch (get_folder id) folder_missing

  unfoldable pub set_parent : Option Text → Folder → Handler Folder
  unfolding resolve_parent_folder
  set_parent none f = pure f
  set_parent (some parent_id) f = do
    folder_id ← resolve_parent_folder env parent_id
    pure (record f { parent_id = folder_id })

  unfoldable pub insert_folder : Folder → Handler Folder
  unfolding query
  insert_folder f s =
      let o = with_unique_slug (create_with_slug f) env.nfkd env.mark s.rand f.name s.db in
      let s' : Server = record s { db = o.state; rand = o.rand } in
      elim o.result [
        | created ↦ (ok (record f { slug = o.slug }), s')
        | slug_taken ↦ (err internal_error, s')
        | rand_failed ↦ (err internal_error, s')
        | failed e ↦ elim e [
          | DbError.idempotency_key_taken ↦
              query (get_folder_by_idempotency_key f.idempotency_key) s'
          | _ ↦ (err internal_error, s')
        ]
      ]

  unfoldable pub replay : Text → Handler Unit
  unfolding try_query
  replay [] = skip
  replay (c ∷ key) = do
    found ← try_query (get_folder_by_idempotency_key (c ∷ key))
    replay_found found

  abbrev pub new_folder : Text → Text → Text → ℕ → Folder
  new_folder id name key now = record {
    id = id;
    parent_id = [];
    slug = [];
    name = name;
    idempotency_key = key;
    created_at = now;
    updated_at = now;
  }

  unfoldable pub create_folder_handler : Decoded FolderInput → Handler Reply
  unfolding decode_json valid_name valid_idempotency_key replay draw set_parent insert_folder
  create_folder_handler body = do
    input ← decode_json body
    raw ← or_throw invalid_name input.name
    name ← valid_name raw
    key ← valid_idempotency_key input.idempotency_key
    replay key
    now ← gets (λ s. s.now)
    n ← draw
    placed ← set_parent input.parent_id (new_folder (env.new_uuid n) name key now)
    stored ← insert_folder placed
    answer 201 stored

  unfoldable pub set_name : Option Text → Folder → Handler Folder
  unfolding valid_name
  set_name none f = pure f
  set_name (some raw) f = do name ← valid_name raw; pure (record f { name = name })

  -- A folder does not move below itself.
  unfoldable pub check_chain : Text → Text → Handler Unit
  unfolding query
  check_chain id [] = skip
  check_chain id (c ∷ folder_id) = do
    chain ← query (folder_chain (c ∷ folder_id))
    throw_if (any (λ anc. anc.id == id) chain) invalid_parent

  unfoldable pub move : Option Text → Folder → Handler Folder
  unfolding resolve_parent_folder check_chain
  move none f = pure f
  move (some parent_id) f = do
    throw_if (parent_id == f.id) invalid_parent
    folder_id ← resolve_parent_folder env parent_id
    check_chain f.id folder_id
    pure (record f { parent_id = folder_id })

  unfoldable pub update_folder_handler : Text → Decoded FolderInput → Handler Reply
  unfolding folder_from_path decode_json set_name move query
  update_folder_handler id body = do
    old ← folder_from_path id
    input ← decode_json body
    named ← set_name input.name old
    moved ← move input.parent_id named
    now ← gets (λ s. s.now)
    let f = record moved { updated_at = now }
    query (update_folder f)
    answer 200 f

  -- A failure to remove an album's files is only logged.
  unfoldable pub remove_albums : List Text → Handler Unit
  unfolding try_store
  remove_albums [] = skip
  remove_albums (id ∷ ids) = do
    removed ← try_store (remove_album env.uuid_canonical id)
    remove_albums ids

  unfoldable pub delete_folder_handler : Text → Handler Reply
  unfolding folder_from_path query try_query remove_albums
  delete_folder_handler id = do
    f ← folder_from_path id
    album_ids ← query (subtree_album_ids f.id)
    deleted ← try_query (delete_folder f.id)
    unless_missing deleted
    remove_albums album_ids
    pure no_content
