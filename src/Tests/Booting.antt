-- ===== src/Tests/Booting.antt =====
-- The theorems on the start of the server at concrete inputs.
use photogallery.Prelude.{ℕ, ◌+◌, ◌*◌, ◌-◌, ◌≤◌, ◌≡◌, refl, List, [], ◌∷◌, ◌++◌, arith}
use photogallery.Prelude.Text.{Text, bytes}
use photogallery.Exec.{ok}
use photogallery.Slug.{read_full}
use photogallery.Auth.RateLimit.{token, second}
use photogallery.Auth.RateLimit.Rate.{admitted}
use photogallery.Db.{statement}
use photogallery.Db.Keys.{session_secret, set_session_secret}
use photogallery.Api.Boot.{resolve_session_secret, unlock_limiter}
use photogallery.Api.Boot.Stored.{calm_boot, resolve_session_secret-again, unlock_limiter-rate}
use photogallery.Tests.World.{tables}

abbrev random : Text
random = bytes "0123456789abcdef0123456789abcdef"

-- The first start: there is no secret yet.
first_secret : (resolve_session_secret (calm_boot tables (random ++ bytes "rest"))).0 ≡ ok random
unfolding resolve_session_secret session_secret set_session_secret statement read_full
first_secret = refl

resolve_session_secret-again_example :
    (resolve_session_secret (
      calm_boot
        (resolve_session_secret (calm_boot tables (random ++ bytes "rest"))).1.db.tables
        [])).0
    ≡ ok random
resolve_session_secret-again_example =
    resolve_session_secret-again (calm_boot tables (random ++ bytes "rest")) random [] first_secret

abbrev calls : List (ℕ × Text)
calls = (0, bytes "x") ∷ (second, bytes "x") ∷ []

unlock_limiter-rate_example :
    admitted (bytes "x") (unlock_limiter 0) calls * token ≤ 5 * token + (second - 0) * 5
unlock_limiter-rate_example =
    unlock_limiter-rate (bytes "x") 0 second calls (omega arith, (omega arith, omega arith))
