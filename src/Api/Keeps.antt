-- ===== src/Api/Keeps.antt =====
-- How an invariant of the tables carries over to handlers.
use photogallery.Prelude.{Option, none, some, arith}
use photogallery.Prelude.Text.{Text}
use photogallery.Exec.Keeps.{Keeps}
use photogallery.Db.{Query}
use photogallery.Db.Consistent.{IsConsistent, Holds}
use photogallery.Storage.{Disk}
use photogallery.Api.{Server, Reply, fetch, query, try_query, try_store, draw}
use photogallery.Api.Input.{
  Decoded, too_large, malformed, decoded, decode_json, valid_name, valid_idempotency_key,
}

-- The tables of the server keep their constraints.
abbrev pub IsSound : Server → Type 0
IsSound s = IsConsistent s.db.tables

module _ {A : Type 0} where
  pub fetch-Keeps :
      (q : Query A) (missing : Reply) → Keeps Holds q → Keeps IsSound (fetch q missing)
  unfolding fetch
  fetch-Keeps q missing k = record { at = λ s h. k.at s.db h }

  pub query-Keeps : (q : Query A) → Keeps Holds q → Keeps IsSound (query q)
  unfolding query fetch
  query-Keeps q k = record { at = λ s h. k.at s.db h }

  pub try_query-Keeps : (q : Query A) → Keeps Holds q → Keeps IsSound (try_query q)
  unfolding try_query
  try_query-Keeps q k = record { at = λ s h. k.at s.db h }

  pub try_store-Keeps : (d : Disk A) → Keeps IsSound (try_store d)
  unfolding try_store
  try_store-Keeps d = record { at = λ s h. h }

  pub decode_json-Keeps : (body : Decoded A) → Keeps IsSound (decode_json body)
  unfolding decode_json
  decode_json-Keeps too_large = record { at = λ s h. h }
  decode_json-Keeps malformed = record { at = λ s h. h }
  decode_json-Keeps (decoded a) = record { at = λ s h. h }

pub draw-Keeps : Keeps IsSound draw
unfolding draw
draw-Keeps = record { at = λ s h. h }

pub valid_name-Keeps : (raw : Text) → Keeps IsSound (valid_name raw)
unfolding valid_name
valid_name-Keeps raw = record { at = λ s h. ground (arith, h) }

pub valid_idempotency_key-Keeps : (key : Option Text) → Keeps IsSound (valid_idempotency_key key)
unfolding valid_idempotency_key
valid_idempotency_key-Keeps none = record { at = λ s h. h }
valid_idempotency_key-Keeps (some raw) = record { at = λ s h. ground (arith, h) }

pub ruleset sound_rules = (
  fetch-Keeps, query-Keeps, try_query-Keeps, try_store-Keeps, decode_json-Keeps, draw-Keeps,
  valid_name-Keeps, valid_idempotency_key-Keeps,
)
