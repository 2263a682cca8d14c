-- ===== src/Admin/Commands.antt =====
-- backend/cmd/smugbox/admin.go: the commands that change the tables or the files. The arguments are
-- those that package flag leaves, and what a command prints is its value. The server's other state is
-- not touched; the random source and the clock are the ones of the process.
pub mod Rows
pub mod Locks
pub mod Opens
use photogallery.Prelude.{
  ℕ, ◌+◌, Bool, true, false, Option, none, some, List, [], ◌∷◌, if◌then◌else◌,
}
use photogallery.Prelude.Text.{Text, is_empty}
use photogallery.Exec.{
  Result, ok, err, Exec, pure, throw, gets, or_throw, throw_if, skip, ◌>>=◌, ◌>>◌,
}
use photogallery.Db.{DbError, Album, ApiKey, Query}
use photogallery.Db.Albums.{get_album_by_slug, update_album, delete_album}
use photogallery.Db.Keys.{create_api_key, revoke_api_key}
use photogallery.Storage.{remove_album}
use photogallery.Api.{Env, Server}
use photogallery.Api.Publish.Auth.{generate_api_key, api_key_prefix}

pub data AdminError : Type 0 where
  usage no_album no_key empty_password failed : AdminError

abbrev pub Command : Type 0 → Type 0
Command A = Exec Server AdminError A

abbrev pub admin_error : AdminError → DbError → AdminError
admin_error missing DbError.not_found = missing
admin_error missing e = failed

-- A query whose `ErrNotFound` has its own message.
unfoldable pub admin_query : {A : Type 0} → AdminError → Query A → Command A
admin_query missing q s =
    let (r, db) = q s.db in
    (elim r [ ok a ↦ ok a | err e ↦ err (admin_error missing e) ], record s { db = db })

abbrev pub only_arg : List Text → Command Text
only_arg (arg ∷ []) = pure arg
only_arg args = throw usage

unfoldable pub admin_draw : Command ℕ
admin_draw s = (ok s.draws, record s { draws = s.draws + 1 })

abbrev pub or_no_prefix : Option Text → Text
or_no_prefix none = []
or_no_prefix (some s) = s

-- `auth.GenerateAPIKey`
unfoldable pub new_api_key : Command Text
unfolding generate_api_key
new_api_key s = elim (generate_api_key s.rand) [
  | none ↦ (err failed, s)
  | some (plain, rand) ↦ (ok plain, record s { rand = rand })
]

abbrev pub unless_gone_album : Result DbError (Unit {0}) → Command Unit
unless_gone_album (ok u) = skip
unless_gone_album (err DbError.not_found) = skip
unless_gone_album (err e) = throw failed

unfoldable pub revoke_api_key_command : List Text → Command Text
unfolding admin_query
revoke_api_key_command args = do
  id ← only_arg args
  now ← gets (λ s. s.now)
  admin_query no_key (revoke_api_key id now)
  pure id

module _ (env : Env) where
  -- The identifier and the key that are printed.
  unfoldable pub create_api_key_command : (Text → Text) → Text → Command (Text × Text)
  unfolding admin_query admin_draw new_api_key api_key_prefix
  create_api_key_command sha256 label = do
    plain ← new_api_key
    n ← admin_draw
    now ← gets (λ s. s.now)
    admin_query failed (
        create_api_key (record {
          id = env.new_uuid n;
          prefix = or_no_prefix (api_key_prefix plain);
          hash = sha256 plain;
          label = label;
          created_at = now;
          last_used_at = none;
          revoked_at = none;
        }))
    pure (env.new_uuid n, plain)

  -- `typed` is what the terminal gives, none if it cannot be read.
  abbrev pub typed_hash : Bool → Option Text → Command Text
  typed_hash true typed = pure []
  typed_hash false typed = do
    pw ← or_throw failed typed
    throw_if (is_empty pw) empty_password
    salt ← admin_draw
    or_throw failed (env.bcrypt salt pw)

  unfoldable pub set_password_command : Bool → Option Text → List Text → Command Text
  unfolding admin_query admin_draw
  set_password_command clear typed args = do
    slug ← only_arg args
    a ← admin_query no_album (get_album_by_slug slug)
    hash ← typed_hash clear typed
    now ← gets (λ s. s.now)
    admin_query failed (
        update_album (record a {
          password_hash = hash;
          password_version = a.password_version + 1;
          updated_at = now;
        }))
    pure a.slug

  abbrev pub run_query : Query Unit → Command (Result DbError (Unit {0}))
  run_query q s = let (r, db) = q s.db in (ok r, record s { db = db })

  -- A failure to remove the files is only a warning.
  abbrev pub remove_files : Text → Command Unit
  remove_files id s =
      let (r, store) = remove_album env.uuid_canonical id s.store in
      (ok tt, record s { store = store })

  unfoldable pub delete_album_command : List Text → Command Text
  unfolding admin_query delete_album remove_album
  delete_album_command args = do
    slug ← only_arg args
    a ← admin_query no_album (get_album_by_slug slug)
    deleted ← run_query (delete_album a.id)
    unless_gone_album deleted
    remove_files a.id
    pure a.slug
