-- ===== src/Auth/RateLimit/Level.antt =====
-- The limiter against its specification: each key has a level, whether or not it is tracked.
use photogallery.Prelude.{
  ℕ, ◌+◌, ◌-◌, ◌*◌, ◌/◌, ◌≤◌, ◌<◌, ◌≡◌, ◌≢◌, refl, sym, ◌∙◌, Bool, true, false, not, ◌&&◌, Option,
  none, some, arith, ltb, leb, if◌then◌else◌, length, Bool-cases, inl, inr, ◌⊎◌,
}
use photogallery.Prelude.Text.{Text}
use photogallery.Auth.RateLimit.{
  token, sweep_interval, Bucket, RateLimiter, get, put, refilled, sweep, Verdict, allowed, denied,
  consume, allow_new, allow_tracked, allow,
}
use photogallery.Auth.RateLimit.Table.{
  level, IsTable, get-put, get-unfilled-none, level_of-unfilled, get-unfilled_key,
  length-unfilled-le, put-IsTable, length-put,
}

-- The table is well formed at a time and within its bound.
pub record IsValid (l : RateLimiter) (now : ℕ) : Type 0 where
  pub table : IsTable now l.buckets
  pub bounded : length l.buckets ≤ l.max_keys

-- What no call changes.
pub record SameSettings (l l' : RateLimiter) : Type 0 where
  pub capacity : l'.capacity ≡ l.capacity
  pub rate : l'.refill_per_minute ≡ l.refill_per_minute
  pub max_keys : l'.max_keys ≡ l.max_keys

settings_trans :
    {l l' l'' : RateLimiter} → SameSettings l l' → SameSettings l' l'' → SameSettings l l''
settings_trans s t = record {
  capacity = t.capacity ∙ s.capacity;
  rate = t.rate ∙ s.rate;
  max_keys = t.max_keys ∙ s.max_keys;
}

-- A sweep is invisible in the levels.
record IsQuiet (l l' : RateLimiter) (now : ℕ) : Type 0 where
  valid : IsValid l' now
  settings : SameSettings l l'
  levels : (later : ℕ) (key : Text) → now ≤ later → level l' later key ≡ level l later key

sweep-IsQuiet :
    (l : RateLimiter) (now : ℕ) (force : Bool) → IsValid l now → IsQuiet l (sweep l now force) now
unfolding sweep
sweep-IsQuiet l now force v =
    elim (Bool-cases (not force && ltb (now - l.last_sweep) sweep_interval)) [
      | inl early ↦ rw early (record {
        valid = v;
        settings = record { capacity = refl; rate = refl; max_keys = refl };
        levels = λ later key h. refl;
      })
      | inr due ↦ rw due (record {
        valid = record {
          table = get-unfilled_key l.capacity l.refill_per_minute now l.buckets v.table;
          bounded =
              omega
                (arith, length-unfilled-le l.capacity l.refill_per_minute now l.buckets, v.bounded);
        };
        settings = record { capacity = refl; rate = refl; max_keys = refl };
        levels = λ later key h.
            unfold level in
            level_of-unfilled l.capacity l.refill_per_minute now later key l.buckets h v.table;
      })
    ]

zero_gain : (now rate : ℕ) → (now - now) * rate ≡ 0
zero_gain now rate = grind arith

-- The specification of a call at time `now`: what the key has left pays for what is allowed, a
-- refusal costs nothing and has one of two reasons, and no other key is affected, then or later.
abbrev pub Pays : RateLimiter → ℕ → Text → Verdict → RateLimiter → Type 0
Pays l now key allowed l' = (token ≤ level l now key) × (level l' now key + token ≡ level l now key)
Pays l now key (denied wait) l' =
    (level l' now key ≡ level l now key)
    × (((level l now key < token) × (wait ≡ (token - level l now key) / l.refill_per_minute))
        ⊎ ((get key l'.buckets ≡ none) × (l.max_keys ≤ length l'.buckets)))

pub record Serves (l : RateLimiter) (now : ℕ) (key : Text) (r : Verdict × RateLimiter)
    : Type 0 where
  pub valid : IsValid r.1 now
  pub settings : SameSettings l r.1
  pub others :
      (later : ℕ) (key' : Text)
      → now ≤ later
      → key' ≢ key
      → level r.1 later key' ≡ level l later key'
  pub pays : Pays l now key r.0 r.1

module _ (l : RateLimiter) (now : ℕ) (key : Text) where
  level-put_self :
      (b : Bucket)
      → b.last ≡ now
      → b.tokens ≤ l.capacity * token
      → level (record l { buckets = put key b l.buckets }) now key ≡ b.tokens
  unfolding level refilled
  level-put_self b e fits =
      rw (get-put key key b l.buckets) (ground (arith, zero_gain now l.refill_per_minute))

  level-put_ne :
      (b : Bucket) (later : ℕ) (key' : Text)
      → key' ≢ key
      → level (record l { buckets = put key b l.buckets }) later key' ≡ level l later key'
  unfolding level
  level-put_ne b later key' ne = rw (get-put key key' b l.buckets) (ground arith)

  consume-Serves :
      (b : Bucket)
      → IsValid l now
      → b.last ≡ now
      → b.tokens ≤ l.capacity * token
      → b.tokens ≡ level l now key
      → length (put key b l.buckets) ≤ l.max_keys
      → Serves l now key (consume l key b)
  unfolding consume
  consume-Serves b v e fits lev room = elim (Bool-cases (leb token b.tokens)) [
    | inl enough ↦
        let spent : Bucket = record b { tokens = b.tokens - token } in
        let same : length (put key spent l.buckets) ≡ length (put key b l.buckets) =
          length-put key spent l.buckets ∙ sym (length-put key b l.buckets) in
        rw enough (record {
          valid = record {
            table = put-IsTable now key spent l.buckets (omega arith) v.table;
            bounded = omega arith;
          };
          settings = record { capacity = refl; rate = refl; max_keys = refl };
          others = λ later key' h ne. level-put_ne spent later key' ne;
          pays = (ground arith, ground (arith, level-put_self spent e));
        })
    | inr short ↦ rw short (record {
      valid = record {
        table = put-IsTable now key b l.buckets (omega arith) v.table;
        bounded = room;
      };
      settings = record { capacity = refl; rate = refl; max_keys = refl };
      others = λ later key' h ne. level-put_ne b later key' ne;
      pays = (level-put_self b e fits ∙ lev, inl (ground arith, rw lev refl));
    })
  ]

  Serves-quiet :
      (l' : RateLimiter) (r : Verdict × RateLimiter)
      → IsQuiet l l' now
      → Serves l' now key r
      → Serves l now key r
  Serves-quiet l' (allowed, l'') q s = record {
    valid = s.valid;
    settings = settings_trans q.settings s.settings;
    others = λ later key' h ne. s.others later key' h ne ∙ q.levels later key' h;
    pays = rw (← q.levels now key (omega arith)) s.pays;
  }
  Serves-quiet l' (denied wait, l'') q s = record {
    valid = s.valid;
    settings = settings_trans q.settings s.settings;
    others = λ later key' h ne. s.others later key' h ne ∙ q.levels later key' h;
    pays = rw (← q.levels now key (omega arith), ← q.settings.rate, ← q.settings.max_keys) s.pays;
  }

  -- The bucket of a key that is not tracked, where the table has room.
  admit-Serves :
      IsValid l now
      → get key l.buckets ≡ none
      → length l.buckets < l.max_keys
      → Serves l now key (consume l key (record { tokens = l.capacity * token; last = now }))
  admit-Serves v missing room =
      consume-Serves (record { tokens = l.capacity * token; last = now }) v refl (omega arith)
        (unfold level in rw missing refl) (rw (length-put key _ l.buckets, missing) (omega arith))

  refuse-Serves :
      IsValid l now
      → get key l.buckets ≡ none
      → l.max_keys ≤ length l.buckets
      → Serves l now key (denied (token / l.refill_per_minute), l)
  refuse-Serves v missing full = record {
    valid = v;
    settings = record { capacity = refl; rate = refl; max_keys = refl };
    others = λ later key' h ne. refl;
    pays = (refl, inr (missing, full));
  }

  new_key-Serves :
      IsValid l now
      → get key l.buckets ≡ none
      → Serves l now key (
          if leb l.max_keys (length l.buckets)
          then (denied (token / l.refill_per_minute), l)
          else consume l key (record { tokens = l.capacity * token; last = now }))
  new_key-Serves v missing = elim (Bool-cases (leb l.max_keys (length l.buckets))) [
    | inl full ↦ rw full (refuse-Serves v missing (ground arith))
    | inr room ↦ rw room (admit-Serves v missing (ground arith))
  ]

sweep_missing :
    (l : RateLimiter) (now : ℕ) (force : Bool) (key : Text)
    → get key l.buckets ≡ none
    → get key (sweep l now force).buckets ≡ none
unfolding sweep
sweep_missing l now force key h =
    ground (arith, get-unfilled-none l.capacity l.refill_per_minute now key l.buckets h)

allow_new-Serves :
    (l : RateLimiter) (now : ℕ) (key : Text)
    → IsValid l now
    → get key l.buckets ≡ none
    → Serves l now key (allow_new l key now)
unfolding allow_new
allow_new-Serves l now key v missing = elim (Bool-cases (leb l.max_keys (length l.buckets))) [
  | inl full ↦
      let q = sweep-IsQuiet l now true v in
      rw (full, allow_new)
        (Serves-quiet l now key (sweep l now true) _ q (
          new_key-Serves (sweep l now true) now key q.valid (sweep_missing l now true key missing)))
  | inr room ↦ rw (room, allow_new) (new_key-Serves l now key v missing)
]

allow_tracked-Serves :
    (l : RateLimiter) (now : ℕ) (key : Text) (found : Option Bucket)
    → IsValid l now
    → get key l.buckets ≡ found
    → Serves l now key (allow_tracked l key now found)
unfolding allow_tracked
allow_tracked-Serves l now key none v e = allow_new-Serves l now key v e
allow_tracked-Serves l now key (some b) v e =
    consume-Serves l now key
      (record { tokens = refilled l.capacity l.refill_per_minute b now; last = now }) v refl
      (unfold refilled in omega arith) (unfold level in rw e refl)
      (rw (length-put key _ l.buckets, e) v.bounded)

-- `Allow` keeps the table well formed and within its bound, and it serves the key as specified:
-- sweeping, and forgetting keys that are full again, never shows.
pub allow-Serves :
    (l : RateLimiter) (now : ℕ) (key : Text) → IsValid l now → Serves l now key (allow l key now)
unfolding allow
allow-Serves l now key v =
    let q = sweep-IsQuiet l now false v in
    Serves-quiet l now key (sweep l now false) _ q
      (allow_tracked-Serves (sweep l now false) now key _ q.valid refl)
