-- ===== src/Api/Boot.antt =====
-- backend/internal/api/server.go: resolveSessionSecret, and the parts that New makes of it.
pub mod Stored
use photogallery.Prelude.{ℕ, ◌*◌, Option, none, some, List, []}
use photogallery.Prelude.Text.{Text}
use photogallery.Exec.{Result, ok, err}
use photogallery.Slug.{Rand, read_full}
use photogallery.Auth.Session.{Sessions}
use photogallery.Auth.RateLimit.{RateLimiter, new_limiter}
use photogallery.Db.{DbError, Db}
use photogallery.Db.Keys.{session_secret, set_session_secret}

pub data BootError : Type 0 where
  no_random : BootError
  failed_statement : DbError → BootError

-- What the server starts from.
pub record Boot : Type 0 where
  pub db : Db
  pub rand : Rand

abbrev pub session_secret_len : ℕ
session_secret_len = 32

abbrev pub stored : Text → Rand → Result DbError (Unit {0}) × Db → Result BootError Text × Boot
stored secret rand (ok u, db) = (ok secret, record { db = db; rand = rand })
stored secret rand (err e, db) = (err (failed_statement e), record { db = db; rand = rand })

-- The branch for the first start.
abbrev pub generated : Option (Text × Rand) → Boot → Result BootError Text × Boot
generated none b = (err no_random, b)
generated (some (secret, rand)) b = stored secret rand (set_session_secret secret b.db)

abbrev pub resolved : Rand → Result DbError Text × Db → Result BootError Text × Boot
resolved rand (ok secret, db) = (ok secret, record { db = db; rand = rand })
resolved rand (err DbError.not_found, db) =
    generated (read_full session_secret_len rand) (record { db = db; rand = rand })
resolved rand (err e, db) = (err (failed_statement e), record { db = db; rand = rand })

unfoldable pub resolve_session_secret : Boot → Result BootError Text × Boot
unfolding session_secret set_session_secret read_full
resolve_session_secret b = resolved b.rand (session_secret b.db)

abbrev pub session_ttl : ℕ
session_ttl = 24 * 60 * 60

abbrev pub unlock_burst : ℕ
unlock_burst = 5

abbrev pub unlock_refill_per_min : ℕ
unlock_refill_per_min = 5

abbrev pub unlock_max_keys : ℕ
unlock_max_keys = 10000

-- The sessions and the limiter of a new server.
unfoldable pub new_sessions : Text → Sessions
new_sessions secret = record { secret = secret; ttl = session_ttl }

unfoldable pub unlock_limiter : ℕ → RateLimiter
unfolding new_limiter
unlock_limiter now = new_limiter unlock_burst unlock_refill_per_min unlock_max_keys now
