-- ===== src/Db/Keys.antt =====
-- backend/internal/db/apikeys.go and secret.go.
use mathlib.Core.List.{map}
use photogallery.Prelude.{
  ℕ, Bool, true, false, ◌&&◌, none, some, List, [], ◌∷◌, ◌++◌, if◌then◌else◌, any, filter,
}
use photogallery.Prelude.Text.{Text, ◌==◌}
use photogallery.Exec.{pure, gets, or_throw, modify, throw_if, ◌>>=◌, ◌>>◌}
use photogallery.Db.{not_found, driver, ApiKey, Db, Query, statement, check_affected}

abbrev pub put_keys : List ApiKey → Db → Db
put_keys keys db = record db { tables = record db.tables { api_keys = keys } }

unfoldable pub create_api_key : ApiKey → Query Unit
create_api_key k = do
  statement
  keys ← gets (λ db. db.tables.api_keys)
  throw_if (any (λ j. j.id == k.id) keys) driver
  modify (put_keys (keys ++ k ∷ []))

unfoldable pub list_api_keys_by_prefix : Text → Query (List ApiKey)
list_api_keys_by_prefix prefix = do
  statement
  keys ← gets (λ db. db.tables.api_keys)
  pure (filter (λ k. k.prefix == prefix) keys)

unfoldable pub touch_api_key : Text → ℕ → Query Unit
touch_api_key id now = do
  statement
  keys ← gets (λ db. db.tables.api_keys)
  modify (put_keys (map (λ k. if k.id == id then record k { last_used_at = some now } else k) keys))

abbrev pub is_active : ApiKey → Bool
is_active k = elim k.revoked_at [ none ↦ true | some t ↦ false ]

unfoldable pub revoke_api_key : Text → ℕ → Query Unit
revoke_api_key id now = do
  statement
  keys ← gets (λ db. db.tables.api_keys)
  modify (
      put_keys (
        map (λ k. if (k.id == id) && is_active k then record k { revoked_at = some now } else k)
          keys))
  check_affected (any (λ k. (k.id == id) && is_active k) keys)

unfoldable pub session_secret : Query Text
session_secret = do
  statement
  secret ← gets (λ db. db.tables.session_secret)
  or_throw not_found secret

-- The primary key is 1, so that there is one row at most.
unfoldable pub set_session_secret : Text → Query Unit
set_session_secret secret = do
  statement
  t ← gets (λ db. db.tables)
  throw_if (elim t.session_secret [ none ↦ false | some s ↦ true ]) driver
  modify (λ db. record db { tables = record t { session_secret = some secret } })
