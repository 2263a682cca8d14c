-- ===== src/Api/Boot/Stored.antt =====
-- The session secret survives a restart, and the limiter of a new server is well formed.
use photogallery.Prelude.{ℕ, ◌+◌, ◌*◌, ◌-◌, ◌≤◌, ◌≡◌, refl, Option, none, some, List, [], arith}
use photogallery.Prelude.Text.{Text}
use photogallery.Exec.{Result, ok, err}
use photogallery.Slug.{Rand, read_full}
use photogallery.Auth.RateLimit.{new_limiter, token}
use photogallery.Auth.RateLimit.Rate.{Between, admitted, admitted-le-rate}
use photogallery.Db.{DbError, Tables, Db, statement}
use photogallery.Db.Keys.{session_secret, set_session_secret}
use photogallery.Api.Boot.{
  BootError, Boot, stored, generated, resolved, resolve_session_secret, unlock_limiter,
}

abbrev pub calm_boot : Tables → Rand → Boot
calm_boot t rand = record { db = record { tables = t; faults = [] }; rand = rand }

session_secret_calm :
    (t : Tables) (rand : Rand) (secret : Text)
    → t.session_secret ≡ some secret
    → (resolve_session_secret (calm_boot t rand)).0 ≡ ok secret
unfolding resolve_session_secret session_secret statement
session_secret_calm t rand secret e = rw e refl

abbrev Kept : Result BootError Text × Boot → Text → Type 0
Kept r secret = r.1.db.tables.session_secret ≡ some secret

set_session_secret_kept :
    (secret : Text) (db : Db)
    → (set_session_secret secret db).0 ≡ ok tt
    → (set_session_secret secret db).1.tables.session_secret ≡ some secret
unfolding set_session_secret statement
set_session_secret_kept secret db h = ground (arith, h)

session_secret_kept :
    (db : Db) (secret : Text)
    → (session_secret db).0 ≡ ok secret
    → (session_secret db).1.tables.session_secret ≡ some secret
unfolding session_secret statement
session_secret_kept db secret h = ground (arith, h)

stored-Kept :
    (made secret : Text) (rand : Rand) (r : Result DbError (Unit {0}) × Db)
    → (r.0 ≡ ok tt → r.1.tables.session_secret ≡ some made)
    → (stored made rand r).0 ≡ ok secret
    → Kept (stored made rand r) secret
stored-Kept made secret rand (ok u, db) k h = ground (arith, k refl, h)
stored-Kept made secret rand (err e, db) k h = absurd (ground (arith, h))

generated-Kept :
    (o : Option (Text × Rand)) (b : Boot) (secret : Text)
    → (generated o b).0 ≡ ok secret
    → Kept (generated o b) secret
generated-Kept none b secret h = absurd (ground (arith, h))
generated-Kept (some (made, rand)) b secret h =
    stored-Kept made secret rand (set_session_secret made b.db) (set_session_secret_kept made b.db)
      h

resolved-Kept :
    (rand : Rand) (r : Result DbError Text × Db) (secret : Text)
    → (r.0 ≡ ok secret → r.1.tables.session_secret ≡ some secret)
    → (resolved rand r).0 ≡ ok secret
    → Kept (resolved rand r) secret
resolved-Kept rand (ok found, db) secret k h = k (ground (arith, h))
resolved-Kept rand (err DbError.not_found, db) secret k h =
    generated-Kept (read_full 32 rand) (record { db = db; rand = rand }) secret h
resolved-Kept rand (err e, db) secret k h = absurd (ground (arith, h))

resolve_session_secret-Kept :
    (b : Boot) (secret : Text)
    → (resolve_session_secret b).0 ≡ ok secret
    → Kept (resolve_session_secret b) secret
unfolding resolve_session_secret
resolve_session_secret-Kept b secret h =
    resolved-Kept b.rand (session_secret b.db) secret (session_secret_kept b.db secret) h

-- Whatever statements failed before: once a start of the server has its session secret, every later
-- start whose statements do not fail has the same, whatever its random bytes.
pub resolve_session_secret-again :
    (b : Boot) (secret : Text) (rand : Rand)
    → (resolve_session_secret b).0 ≡ ok secret
    → (resolve_session_secret (calm_boot (resolve_session_secret b).1.db.tables rand)).0 ≡ ok secret
resolve_session_secret-again b secret rand h =
    session_secret_calm (resolve_session_secret b).1.db.tables rand secret
      (resolve_session_secret-Kept b secret h)

-- From the start of the server on, however the attempts are mixed, at most five attempts for one
-- address and slug pass at once, and five more for each minute until `to`.
pub unlock_limiter-rate :
    (key : Text) (from to : ℕ) (calls : List (ℕ × Text))
    → Between from to calls
    → admitted key (unlock_limiter from) calls * token ≤ 5 * token + (to - from) * 5
unfolding unlock_limiter new_limiter
unlock_limiter-rate key from to calls h =
    admitted-le-rate key (unlock_limiter from) from to calls
      (record { table = tt; bounded = omega arith }) h
