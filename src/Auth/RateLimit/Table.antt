-- ===== src/Auth/RateLimit/Table.antt =====
-- The table of buckets, and what a key has left in it, under the changes that the limiter makes.
use photogallery.Prelude.{
  ℕ, ◌+◌, ◌-◌, ◌*◌, ◌≤◌, ◌≡◌, refl, Option, none, some, [], ◌∷◌, arith, if◌then◌else◌, length,
}
use photogallery.Prelude.Text.{Text, ◌==◌}
use photogallery.Auth.RateLimit.{token, Bucket, Buckets, RateLimiter, get, put, refilled, unfilled}

-- What a key has left: a key that is not tracked has a full bucket.
abbrev pub level_of : ℕ → ℕ → ℕ → Option Bucket → ℕ
level_of capacity rate now none = capacity * token
level_of capacity rate now (some b) = refilled capacity rate b now

unfoldable pub level : RateLimiter → ℕ → Text → ℕ
level l now key = level_of l.capacity l.refill_per_minute now (get key l.buckets)

pub get-put :
    (key key' : Text) (b : Bucket) (m : Buckets)
    → get key' (put key b m) ≡ (if key == key' then some b else get key' m)
unfolding get put
get-put key key' b [] = refl
get-put key key' b ((k, c) ∷ m) = ground (arith, get-put key key' b m)

-- The keys are distinct, and no bucket was touched later than `now`.
abbrev pub IsTable : ℕ → Buckets → Type 0
IsTable now [] = Unit
IsTable now ((k, b) ∷ m) = (get k m ≡ none) × (b.last ≤ now) × IsTable now m

gain_mono : (rate last now later : ℕ) → now ≤ later → (now - last) * rate ≤ (later - last) * rate
gain_mono rate last now later h = grind arith

refilled_later :
    (capacity rate : ℕ) (b : Bucket) (now later : ℕ)
    → now ≤ later
    → capacity * token ≤ refilled capacity rate b now
    → refilled capacity rate b later ≡ capacity * token
unfolding refilled
refilled_later capacity rate b now later h full = omega (arith, gain_mono rate b.last now later h)

pub get-unfilled-none :
    (capacity rate now : ℕ) (key : Text) (m : Buckets)
    → get key m ≡ none
    → get key (unfilled capacity rate now m) ≡ none
unfolding get unfilled
get-unfilled-none capacity rate now key [] h = refl
get-unfilled-none capacity rate now key ((k, b) ∷ m) h =
    ground (arith, get-unfilled-none capacity rate now key m)

pub level_of-unfilled :
    (capacity rate now later : ℕ) (key : Text) (m : Buckets)
    → now ≤ later
    → IsTable now m
    → level_of capacity rate later (get key (unfilled capacity rate now m))
      ≡ level_of capacity rate later (get key m)
unfolding get unfilled
level_of-unfilled capacity rate now later key [] h t = refl
level_of-unfilled capacity rate now later key ((k, b) ∷ m) h t = ground (
  arith,
  refilled_later capacity rate b now later h,
  get-unfilled-none capacity rate now key m,
  level_of-unfilled capacity rate now later key m h t.2,
)

pub get-unfilled_key :
    (capacity rate now : ℕ) (m : Buckets)
    → IsTable now m
    → IsTable now (unfilled capacity rate now m)
unfolding unfilled
get-unfilled_key capacity rate now [] t = tt
get-unfilled_key capacity rate now ((k, b) ∷ m) t =
    ground
      (arith, get-unfilled-none capacity rate now k m t.0, get-unfilled_key capacity rate now m t.2)

pub length-unfilled-le :
    (capacity rate now : ℕ) (m : Buckets) → length (unfilled capacity rate now m) ≤ length m
unfolding unfilled
length-unfilled-le capacity rate now [] = omega arith
length-unfilled-le capacity rate now ((k, b) ∷ m) =
    ground (arith, length-unfilled-le capacity rate now m)

pub IsTable-later : (now later : ℕ) (m : Buckets) → now ≤ later → IsTable now m → IsTable later m
IsTable-later now later [] h t = tt
IsTable-later now later ((k, b) ∷ m) h t = (t.0, omega arith, IsTable-later now later m h t.2)

pub put-IsTable :
    (now : ℕ) (key : Text) (b : Bucket) (m : Buckets)
    → b.last ≤ now
    → IsTable now m
    → IsTable now (put key b m)
unfolding put get
put-IsTable now key b [] h t = (refl, h, tt)
put-IsTable now key b ((k, c) ∷ m) h t =
    ground (arith, put-IsTable now key b m h t.2, get-put key k b m)

pub length-put :
    (key : Text) (b : Bucket) (m : Buckets)
    → length (put key b m) ≡ elim (get key m) [ none ↦ length m + 1 | some c ↦ length m ]
unfolding put get
length-put key b [] = omega arith
length-put key b ((k, c) ∷ m) = ground (arith, length-put key b m)
