-- ===== src/Api/Publish/Auth.antt =====
-- backend/internal/api/publish_auth.go and backend/internal/auth/apikey.go: the API key in front of
-- every publish endpoint. SHA-256 is a parameter; base64 is that of the session cookie.
pub mod Sound
use photogallery.Prelude.{
  ℕ, ◌+◌, ◌-◌, ◌*◌, Bool, true, false, ◌&&◌, not, Option, none, some, List, [], ◌∷◌, ltb,
  if◌then◌else◌, length, take, drop,
}
use photogallery.Prelude.Text.{Text, bytes, ◌==◌}
use photogallery.Prelude.Space.{trim_space}
use photogallery.Exec.{Result, ok, err, pure, throw, gets, throw_if, skip, ◌>>=◌, ◌>>◌}
use photogallery.Slug.{Rand, read_full}
use photogallery.Auth.Base64
use photogallery.Auth.RateLimit.{second}
use photogallery.Db.{ApiKey}
use photogallery.Db.Keys.{is_active, list_api_keys_by_prefix, touch_api_key}
use photogallery.Api.{Server, Reply, failure, Handler, query, try_query}

abbrev pub api_key_prefix_len : ℕ
api_key_prefix_len = 8

abbrev pub api_key_bytes : ℕ
api_key_bytes = 32

-- 32 random bytes, in base64url; none if the random source fails
unfoldable pub generate_api_key : Rand → Option (Text × Rand)
unfolding read_full
generate_api_key rand = elim (read_full api_key_bytes rand) [
  | none ↦ none
  | some (b, rand') ↦ some (Base64.encode b, rand')
]

unfoldable pub api_key_prefix : Text → Option Text
api_key_prefix plain =
    if ltb (length plain) (2 * api_key_prefix_len)
    then none
    else some (take api_key_prefix_len plain)

abbrev pub touch_interval : ℕ
touch_interval = 60 * second

abbrev pub unauthorized : Reply
unauthorized = failure 401 (bytes "unauthorized")

abbrev pub scheme : Text
scheme = bytes "Bearer "

abbrev pub bearer : Text → Option Text
bearer header =
    if take (length scheme) header == scheme
    then some (trim_space (drop (length scheme) header))
    else none

abbrev pub is_stale : ℕ → ApiKey → Bool
is_stale now k = elim k.last_used_at [ none ↦ true | some t ↦ ltb touch_interval (now - t) ]

-- A failure to record the use is only logged.
unfoldable pub touch : ApiKey → Handler Unit
unfolding try_query
touch k s =
    if is_stale s.now k
    then (let (r, s') = try_query (touch_api_key k.id s.now) s in (ok tt, s'))
    else (ok tt, s)

module _ (sha256 : Text → Text) where
  unfoldable pub verify_api_key : Text → Text → Bool
  verify_api_key plain hash = sha256 plain == hash

  -- The loop over the keys with the prefix: the first that is active and matches.
  unfoldable pub matching_key : Text → List ApiKey → Option ApiKey
  unfolding verify_api_key
  matching_key plain [] = none
  matching_key plain (k ∷ keys) =
      if is_active k && verify_api_key plain k.hash then some k else matching_key plain keys

  abbrev pub admit : Option ApiKey → Handler Reply → Handler Reply
  admit none next = throw unauthorized
  admit (some k) next = do touch k; next

  abbrev pub with_prefix : Text → Option Text → Handler Reply → Handler Reply
  with_prefix plain none next = throw unauthorized
  with_prefix plain (some prefix) next = do
    keys ← query (list_api_keys_by_prefix prefix)
    admit (matching_key plain keys) next

  abbrev pub with_bearer : Option Text → Handler Reply → Handler Reply
  with_bearer none next = throw unauthorized
  with_bearer (some plain) next = with_prefix plain (api_key_prefix plain) next

  unfoldable pub require_api_key : Text → Handler Reply → Handler Reply
  unfolding matching_key touch api_key_prefix trim_space query
  require_api_key header next = with_bearer (bearer header) next
