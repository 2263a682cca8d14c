-- ===== src/Auth/RateLimit.antt =====
-- backend/internal/auth/ratelimit.go: a token bucket for each key.
-- Times are nanoseconds of a clock that does not run backwards. The floats are exact here: tokens
-- are counted in units of 1 / (60 * 10^9), so that a bucket gains `refill_per_minute` units in a
-- nanosecond. The mutex makes each call one step.
pub mod Table
pub mod Level
pub mod Rate
use photogallery.Prelude.{
  ℕ, ◌+◌, ◌-◌, ◌*◌, ◌/◌, Bool, true, false, not, ◌&&◌, Option, none, some, List, [], ◌∷◌, ltb, leb,
  if◌then◌else◌, length, min,
}
use photogallery.Prelude.Text.{Text, ◌==◌}

abbrev pub second : ℕ
second = 1_000_000_000

-- One token, in units.
abbrev pub token : ℕ
token = 60 * second

abbrev pub sweep_interval : ℕ
sweep_interval = 10 * 60 * second

pub record Bucket : Type 0 where
  pub tokens : ℕ
  pub last : ℕ

abbrev pub Buckets : Type 0
Buckets = List (Text × Bucket)

pub record RateLimiter : Type 0 where
  pub buckets : Buckets
  pub capacity : ℕ
  pub refill_per_minute : ℕ
  pub max_keys : ℕ
  pub last_sweep : ℕ

unfoldable pub new_limiter : ℕ → ℕ → ℕ → ℕ → RateLimiter
new_limiter capacity refill_per_minute max_keys now = record {
  buckets = [];
  capacity = capacity;
  refill_per_minute = refill_per_minute;
  max_keys = max_keys;
  last_sweep = now;
}

unfoldable pub get : Text → Buckets → Option Bucket
get key [] = none
get key ((k, b) ∷ m) = if k == key then some b else get key m

-- `l.buckets[key] = b`
unfoldable pub put : Text → Bucket → Buckets → Buckets
put key b [] = (key, b) ∷ []
put key b ((k, c) ∷ m) = let rest = put key b m in if k == key then (key, b) ∷ m else (k, c) ∷ rest

-- `math.Min(l.capacity, b.tokens + now.Sub(b.last).Seconds() * l.perSecond)`
unfoldable pub refilled : ℕ → ℕ → Bucket → ℕ → ℕ
refilled capacity rate b now = min (capacity * token) (b.tokens + (now - b.last) * rate)

-- The loop of `sweep`: what is full goes.
unfoldable pub unfilled : ℕ → ℕ → ℕ → Buckets → Buckets
unfolding refilled
unfilled capacity rate now [] = []
unfilled capacity rate now ((k, b) ∷ m) =
    let rest = unfilled capacity rate now m in
    if leb (capacity * token) (refilled capacity rate b now) then rest else (k, b) ∷ rest

unfoldable pub sweep : RateLimiter → ℕ → Bool → RateLimiter
unfolding unfilled
sweep l now force = if not force && ltb (now - l.last_sweep) sweep_interval then l else record l {
  last_sweep = now;
  buckets = unfilled l.capacity l.refill_per_minute now l.buckets;
}

pub data Verdict : Type 0 where
  allowed : Verdict
  denied : ℕ → Verdict

-- The end of `Allow`, on the bucket that is kept for the key.
unfoldable pub consume : RateLimiter → Text → Bucket → Verdict × RateLimiter
unfolding put
consume l key b =
    if leb token b.tokens
    then (
      allowed,
      record l { buckets = put key (record b { tokens = b.tokens - token }) l.buckets },
    )
    else (
      denied ((token - b.tokens) / l.refill_per_minute),
      record l { buckets = put key b l.buckets },
    )

-- The branch of `Allow` for a key that is not tracked.
unfoldable pub allow_new : RateLimiter → Text → ℕ → Verdict × RateLimiter
unfolding consume sweep
allow_new l key now =
    let l' = if leb l.max_keys (length l.buckets) then sweep l now true else l in
    if leb l'.max_keys (length l'.buckets)
    then (denied (token / l'.refill_per_minute), l')
    else consume l' key (record { tokens = l'.capacity * token; last = now })

unfoldable pub allow_tracked : RateLimiter → Text → ℕ → Option Bucket → Verdict × RateLimiter
unfolding allow_new refilled
allow_tracked l key now none = allow_new l key now
allow_tracked l key now (some b) =
    consume l key (record { tokens = refilled l.capacity l.refill_per_minute b now; last = now })

unfoldable pub allow : RateLimiter → Text → ℕ → Verdict × RateLimiter
unfolding allow_tracked get
allow l key now = let l' = sweep l now false in allow_tracked l' key now (get key l'.buckets)
