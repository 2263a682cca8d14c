-- ===== src/Api/Publish/Auth/Sound.antt =====
-- What the API key in front of the publish endpoints lets through.
use photogallery.Prelude.{
  ◌≡◌, refl, Bool, true, false, ◌&&◌, Option, none, some, List, [], ◌∷◌, arith, if◌then◌else◌, ltb,
  length, take, any, filter, inl, inr, ◌⊎◌,
}
use photogallery.Prelude.Text.{Text, ◌==◌}
use photogallery.Exec.{Result, ok, err, ◌>>◌}
use photogallery.Db.{Tables, ApiKey, statement}
use photogallery.Db.Keys.{is_active, list_api_keys_by_prefix, touch_api_key}
use photogallery.Api.{calm, Server, Reply, Handler, internal_error, fetch, query, try_query}
use photogallery.Api.Publish.Auth.{
  api_key_prefix, api_key_prefix_len, unauthorized, bearer, verify_api_key, matching_key, is_stale,
  touch, admit, with_prefix, with_bearer, require_api_key,
}

-- The key is active, and it is the one that the header names: the first eight bytes select it, and
-- the whole token hashes to it.
abbrev fits : (Text → Text) → Text → ApiKey → Bool
fits sha256 plain k = is_active k && (sha256 plain == k.hash)

abbrev opens_with : (Text → Text) → Text → ApiKey → Bool
opens_with sha256 plain k = (k.prefix == take api_key_prefix_len plain) && fits sha256 plain k

abbrev pub token_opens : (Text → Text) → Option Text → ApiKey → Bool
token_opens sha256 none k = false
token_opens sha256 (some plain) k =
    if ltb (length plain) 16 then false else opens_with sha256 plain k

abbrev pub opens : (Text → Text) → Text → ApiKey → Bool
opens sha256 header k = token_opens sha256 (bearer header) k

-- The request ends without the handler: nothing but a status, 500 only if the statement that reads the
-- keys fails, and nothing changed.
pub record IsRefused (s : Server) (r : Result Reply Reply × Server) : Type 0 where
  pub reply :
      (r.0 ≡ err unauthorized)
      ⊎ ((r.0 ≡ err internal_error) × (faults : List Bool) × (s.db.faults ≡ true ∷ faults))
  pub tables : r.1.db.tables ≡ s.db.tables
  pub store : r.1.store ≡ s.store
  pub limiter : r.1.limiter ≡ s.limiter

abbrev is_some : Option ApiKey → Bool
is_some o = elim o [ none ↦ false | some k ↦ true ]

any-false : (keys : List ApiKey) → any (λ k. false) keys ≡ false
unfolding any
any-false [] = refl
any-false (k ∷ keys) = any-false keys

module _ (sha256 : Text → Text) (plain prefix : Text) where
  matching_key-none :
      (keys : List ApiKey)
      → any (λ k. (k.prefix == prefix) && fits sha256 plain k) keys ≡ false
      → matching_key sha256 plain (filter (λ k. k.prefix == prefix) keys) ≡ none
  unfolding any filter matching_key verify_api_key
  matching_key-none [] e = refl
  matching_key-none (k ∷ keys) e = ground (arith, matching_key-none keys)

  matching_key-is_some :
      (keys : List ApiKey)
      → any (λ k. (k.prefix == prefix) && fits sha256 plain k) keys ≡ true
      → is_some (matching_key sha256 plain (filter (λ k. k.prefix == prefix) keys)) ≡ true
  unfolding any filter matching_key verify_api_key
  matching_key-is_some [] e = absurd (ground arith)
  matching_key-is_some (k ∷ keys) e = ground (arith, matching_key-is_some keys)

module _ (sha256 : Text → Text) (next : Handler Reply) (s : Server) where
  with_prefix-IsRefused :
      (plain prefix : Text)
      → any (λ k. (k.prefix == prefix) && fits sha256 plain k) s.db.tables.api_keys ≡ false
      → IsRefused s (with_prefix sha256 plain (some prefix) next s)
  unfolding query fetch list_api_keys_by_prefix statement
  with_prefix-IsRefused plain prefix e =
      go s.db.faults refl (matching_key-none sha256 plain prefix s.db.tables.api_keys e)
    where
      go :
          (faults : List Bool)
          → s.db.faults ≡ faults
          → matching_key sha256 plain (filter (λ k. k.prefix == prefix) s.db.tables.api_keys) ≡ none
          → IsRefused s (with_prefix sha256 plain (some prefix) next s)
      go [] f m = rw (f, m) record { reply = inl refl; tables = refl; store = refl; limiter = refl }
      go (true ∷ faults) f m =
          rw f
            record { reply = inr (refl, faults, refl); tables = refl; store = refl; limiter = refl }
      go (false ∷ faults) f m =
          rw (f, m) record { reply = inl refl; tables = refl; store = refl; limiter = refl }

  with_bearer-IsRefused :
      (b : Option Text)
      → any (token_opens sha256 b) s.db.tables.api_keys ≡ false
      → IsRefused s (with_bearer sha256 b next s)
  unfolding api_key_prefix
  with_bearer-IsRefused none e = record {
    reply = inl refl;
    tables = refl;
    store = refl;
    limiter = refl;
  }
  with_bearer-IsRefused (some plain) e =
      ground (arith, e, with_prefix-IsRefused plain (take api_key_prefix_len plain))

abbrev with_keys : Tables → List ApiKey → Tables
with_keys t keys = record t { api_keys = keys }

-- The request reaches the handler, and of the server only the list of keys may differ, in their
-- times of use.
abbrev pub Runs : Handler Reply → Handler Reply → Server → Tables → Type 0
Runs outer next s t = (keys : List ApiKey) × (outer (calm s t) ≡ next (calm s (with_keys t keys)))

module _ (sha256 : Text → Text) (next : Handler Reply) (s : Server) (t : Tables) where
  admit-Runs : (k : Option ApiKey) → is_some k ≡ true → Runs (admit sha256 k next) next s t
  unfolding touch try_query touch_api_key statement
  admit-Runs none e = absurd (ground arith)
  admit-Runs (some k) e = go (is_stale s.now k)
    where
      go :
          (b : Bool)
          → (keys : List ApiKey) × (((λ z.
                    (if b then (ok tt, (try_query (touch_api_key k.id s.now) z).1) else (ok tt, z)))
                  >> next)
                (calm s t)
              ≡ next (calm s (with_keys t keys)))
      go true = (_, refl)
      go false = (t.api_keys, refl)

  with_prefix-Runs :
      (plain prefix : Text)
      → any (λ k. (k.prefix == prefix) && fits sha256 plain k) t.api_keys ≡ true
      → Runs (with_prefix sha256 plain (some prefix) next) next s t
  unfolding query fetch list_api_keys_by_prefix statement
  with_prefix-Runs plain prefix e =
      admit-Runs (matching_key sha256 plain (filter (λ k. k.prefix == prefix) t.api_keys))
        (matching_key-is_some sha256 plain prefix t.api_keys e)

  with_bearer-Runs :
      (b : Option Text)
      → any (token_opens sha256 b) t.api_keys ≡ true
      → Runs (with_bearer sha256 b next) next s t
  unfolding api_key_prefix
  with_bearer-Runs none e = absurd (ground (arith, any-false t.api_keys))
  with_bearer-Runs (some plain) e = go (ltb (length plain) 16) e
    where
      go :
          (b : Bool)
          → any (λ k. if b then false else opens_with sha256 plain k) t.api_keys ≡ true
          → Runs
              (with_prefix sha256 plain
                (if b then none else some (take api_key_prefix_len plain))
                next)
              next
              s
              t
      go true e = absurd (ground (arith, any-false t.api_keys))
      go false e = with_prefix-Runs plain (take api_key_prefix_len plain) e

module _ (sha256 : Text → Text) (header : Text) (next : Handler Reply) where
  -- When no key of the table is active, is named by the header's token and has the token's hash: the
  -- reply is 401, or 500 if the next statement fails, whatever handler stands behind, and the tables, the
  -- files and the rate limiter are as before.
  pub require_api_key-IsRefused :
      (s : Server)
      → any (opens sha256 header) s.db.tables.api_keys ≡ false
      → IsRefused s (require_api_key sha256 header next s)
  unfolding require_api_key
  require_api_key-IsRefused s e = with_bearer-IsRefused sha256 next s (bearer header) e

  -- When some key of the table is active, is named by the header's token and has the token's hash, and
  -- no statement fails: the handler behind runs, on a server where at most the list of keys differs.
  pub require_api_key-Runs :
      (s : Server) (t : Tables)
      → any (opens sha256 header) t.api_keys ≡ true
      → Runs (require_api_key sha256 header next) next s t
  unfolding require_api_key
  require_api_key-Runs s t e = with_bearer-Runs sha256 next s t (bearer header) e
