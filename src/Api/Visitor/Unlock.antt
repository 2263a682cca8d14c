-- ===== src/Api/Visitor/Unlock.antt =====
-- backend/internal/api/unlock.go.
pub mod Opens
pub mod Replies
use photogallery.Prelude.{
  ℕ, ◌+◌, ◌-◌, ◌/◌, Bool, true, false, ◌&&◌, not, Option, none, some, List, [], ◌∷◌, ◌++◌, ltb,
  if◌then◌else◌, length, take,
}
use photogallery.Prelude.Text.{Text, bytes}
use photogallery.Exec.{Result, ok, err, pure, throw, gets, modify, throw_if, ◌>>=◌, ◌>>◌}
use photogallery.Slug.{valid_slug}
use photogallery.Auth.Session.{Grant, Session, add, new_session, encode, decode}
use photogallery.Auth.RateLimit.{RateLimiter, Verdict, allowed, denied, allow, second}
use photogallery.Db.{DbError, Album, is_protected}
use photogallery.Db.Albums.{get_album_by_slug}
use photogallery.Api.{
  Env, Server, Reply, failure, retry_after, no_content, cookie_set, Handler, internal_error,
  try_query, unix,
}
use photogallery.Api.Input.{Decoded, decode_json}

abbrev pub max_unlock_password_len : ℕ
max_unlock_password_len = 256

abbrev pub wrong_password : Reply
wrong_password = failure 401 (bytes "invalid_password")

-- `math.Ceil(wait.Seconds())`
abbrev pub seconds_up : ℕ → ℕ
seconds_up wait = (wait + (second - 1)) / second

abbrev pub rate_limited : ℕ → Reply
rate_limited wait = retry_after 429 (seconds_up wait) (bytes "rate_limited")

-- The key of the limiter: the address, a bar and the slug.
abbrev pub limiter_key : Text → Text → Text
limiter_key ip slug = ip ++ (b'|' ∷ slug)

abbrev pass_or_wait : Verdict → Handler Unit
pass_or_wait allowed = pure tt
pass_or_wait (denied wait) = throw (rate_limited wait)

unfoldable pub limit : Text → Handler Unit
limit key s =
    let (verdict, limiter) = allow s.limiter key s.now in
    pass_or_wait verdict (record s { limiter = limiter })

-- `GetAlbumBySlug`, where an unknown album is no error yet.
abbrev pub known_album : Result DbError Album → Handler (Option Album)
known_album (ok a) = pure (some a)
known_album (err DbError.not_found) = pure none
known_album (err e) = throw internal_error

abbrev pub cut_password : Text → Text
cut_password pw =
    if ltb max_unlock_password_len (length pw) then take max_unlock_password_len pw else pw

module _ (env : Env) where
  -- The grants of the session that the request brings, if it is valid.
  unfoldable pub brought : Server → Option Text → List Grant
  brought s none = []
  brought s (some value) = elim (decode env.crypto s.sessions (unix s) value) [
    | none ↦ []
    | some sess ↦ sess.grants
  ]

  -- The session that an unlock sets.
  unfoldable pub unlocked_session : Server → Option Text → Album → Session
  unfolding brought
  unlocked_session s cookie a =
      add (record (new_session s.sessions (unix s)) { grants = brought s cookie }) a.id
        a.password_version

  unfoldable pub try_password : Option Text → Text → Option Album → Handler Reply
  unfolding unlocked_session
  try_password cookie pw none =
      if env.bcrypt_matches env.dummy_hash pw then throw wrong_password else throw wrong_password
  try_password cookie pw (some a) =
      if is_protected a
      then (if env.bcrypt_matches a.password_hash pw
          then gets (λ s.
            cookie_set (encode env.crypto s.sessions (unlocked_session s cookie a)) s.sessions.ttl)
          else throw wrong_password)
      else pure no_content

  -- `ip` is `clientIP` of the request.
  unfoldable pub unlock_album : Text → Text → Option Text → Decoded Text → Handler Reply
  unfolding limit try_password try_query decode_json
  unlock_album ip slug cookie body = do
    throw_if (not (valid_slug slug)) wrong_password
    limit (limiter_key ip slug)
    password ← decode_json body
    answer ← try_query (get_album_by_slug slug)
    found ← known_album answer
    try_password cookie (cut_password password) found
