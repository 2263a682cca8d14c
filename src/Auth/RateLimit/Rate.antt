-- ===== src/Auth/RateLimit/Rate.antt =====
-- What the limiter guarantees over any sequence of calls.
use native.Mathlib.Nat.{le_refl, le_trans, mul-le-mul_right, add-mul}
use photogallery.Prelude.{
  ℕ, ◌+◌, ◌-◌, ◌*◌, ◌≤◌, ◌≡◌, Bool, true, false, ◌&&◌, List, [], ◌∷◌, arith, if◌then◌else◌,
  Option-cases, inl, inr,
}
use photogallery.Prelude.Text.{Text, ◌==◌}
use photogallery.Auth.RateLimit.{token, RateLimiter, get, refilled, Verdict, allowed, denied, allow}
use photogallery.Auth.RateLimit.Level.{IsValid, Serves, allow-Serves}
use photogallery.Auth.RateLimit.Table.{level, IsTable-later}

-- Calls of `Allow` at their times, in order, between two times.
abbrev pub Between : ℕ → ℕ → List (ℕ × Text) → Type 0
Between from to [] = from ≤ to
Between from to ((t, key) ∷ calls) = (from ≤ t) × Between t to calls

abbrev is_allowed : Verdict → Bool
is_allowed allowed = true
is_allowed (denied wait) = false

-- How many of the calls for a key are allowed.
unfoldable pub admitted : Text → RateLimiter → List (ℕ × Text) → ℕ
admitted key l [] = 0
admitted key l ((t, k) ∷ calls) =
    let (verdict, l') = allow l k t in
    let rest = admitted key l' calls in if (k == key) && is_allowed verdict then rest + 1 else rest

gain_add : (rate a b c : ℕ) → a ≤ b → b ≤ c → (b - a) * rate + (c - b) * rate ≡ (c - a) * rate
gain_add rate a b c h k = grind arith

gain_split :
    (rate last now later : ℕ)
    → now ≤ later
    → (later - last) * rate ≤ (now - last) * rate + (later - now) * rate
gain_split rate last now later h =
    let apart : later - last ≤ (now - last) + (later - now) = omega arith in
    rw (← add-mul (now - last) (later - now) rate) (mul-le-mul_right rate apart)

level_later :
    (l : RateLimiter) (now later : ℕ) (key : Text)
    → now ≤ later
    → level l later key ≤ level l now key + (later - now) * l.refill_per_minute
unfolding level refilled
level_later l now later key h = elim (Option-cases (get key l.buckets)) [
  | inl e ↦ rw (e, level) (omega arith)
  | inr (b, e) ↦ rw (e, level) (omega (arith, gain_split l.refill_per_minute b.last now later h))
]

level-le-capacity : (l : RateLimiter) (now : ℕ) (key : Text) → level l now key ≤ l.capacity * token
unfolding level refilled
level-le-capacity l now key = elim (Option-cases (get key l.buckets)) [
  | inl e ↦ rw (e, level) (omega arith)
  | inr (b, e) ↦ rw (e, level) (omega arith)
]

IsValid-later : (l : RateLimiter) (now later : ℕ) → now ≤ later → IsValid l now → IsValid l later
IsValid-later l now later h v = record {
  table = IsTable-later now later l.buckets h v.table;
  bounded = v.bounded;
}

-- One call at most spends what the verdict says.
spent :
    (l : RateLimiter) (t : ℕ) (k key : Text) (verdict : Verdict) (l' : RateLimiter)
    → Serves l t k (verdict, l')
    → (if (k == key) && is_allowed verdict then token else 0) + level l' t key ≡ level l t key
spent l t k key allowed l' s = ground (arith, s.others t key (le_refl t))
spent l t k key (denied wait) l' s = ground (arith, s.others t key (le_refl t))

Between-le : (from to : ℕ) (calls : List (ℕ × Text)) → Between from to calls → from ≤ to
Between-le from to [] h = h
Between-le from to ((t, k) ∷ calls) h = le_trans h.0 (Between-le t to calls h.1)

admitted_within :
    (key : Text) (l : RateLimiter) (from to : ℕ) (calls : List (ℕ × Text))
    → IsValid l from
    → Between from to calls
    → admitted key l calls * token ≤ level l from key + (to - from) * l.refill_per_minute
unfolding admitted
admitted_within key l from to [] v h = omega arith
admitted_within key l from to ((t, k) ∷ calls) v h =
    let s = allow-Serves l t k (IsValid-later l from t h.0 v) in
    let rest = admitted_within key (allow l k t).1 t to calls s.valid h.1 in
    let rate = s.settings.rate in
    let before = level_later l from t key h.0 in
    let cost = spent l t k key (allow l k t).0 (allow l k t).1 s in
    let gain = gain_add l.refill_per_minute from t to h.0 (Between-le t to calls h.1) in
    ground (arith, rest, rate, before, cost, gain)

-- However the calls for the other keys are mixed in, the calls for one key that are allowed between
-- two times are at most the capacity and what the bucket gains in between.
pub admitted-le-rate :
    (key : Text) (l : RateLimiter) (from to : ℕ) (calls : List (ℕ × Text))
    → IsValid l from
    → Between from to calls
    → admitted key l calls * token ≤ l.capacity * token + (to - from) * l.refill_per_minute
admitted-le-rate key l from to calls v h =
    omega (arith, admitted_within key l from to calls v h, level-le-capacity l from key)
