-- ===== src/Admin/Commands/Opens.antt =====
-- The key that `create-api-key` prints opens the publish endpoints.
use photogallery.Prelude.{
  ◌≡◌, refl, sym, Bool, true, false, none, some, List, [], ◌∷◌, ◌++◌, arith, leb, ltb, any,
  any-append, all, take, length, length-take, Bool-cases, inl, inr,
}
use photogallery.Prelude.Text.{Text, text_dec, text_eq, ◌==◌}
use photogallery.Prelude.Space.{trim_space}
use photogallery.Exec.{throw_if, modify, ◌>>◌}
use photogallery.Exec.Yields.{OkThen, Yields, Yields-bind, Yields-pure, OkThen-weaken}
use photogallery.Slug.{Rand, read_full}
use photogallery.Auth.Base64.{AreBytes, encode}
use photogallery.Auth.Base64.Tokens.{is_token, encode-is_token, length-encode-ge, trim_space-tokens}
use photogallery.Db.{driver, ApiKey, Tables, Query, statement}
use photogallery.Db.Keys.{put_keys, create_api_key}
use photogallery.Api.{Env, Server, Handler, Reply}
use photogallery.Api.Publish.Auth.{
  generate_api_key, api_key_prefix, scheme, bearer, require_api_key,
}
use photogallery.Api.Publish.Auth.Sound.{opens, Runs, require_api_key-Runs}
use photogallery.Admin.Commands.{
  failed, admin_query, admin_draw, or_no_prefix, new_api_key, create_api_key_command,
}

-- A key in the form of those that are generated.
record IsToken (plain : Text) : Type 0 where
  tokens : all is_token plain ≡ true
  is_long : ltb (length plain) 16 ≡ false

encoded-IsToken :
    (rand : Rand)
    → leb 32 (length rand) ≡ true
    → AreBytes (take 32 rand)
    → IsToken (encode (take 32 rand))
encoded-IsToken rand h b = record {
  tokens = encode-is_token (take 32 rand) b;
  is_long = ground (arith, length-encode-ge (take 32 rand), length-take 32 rand, h);
}

new_api_key-IsToken :
    (s : Server)
    → AreBytes (take 32 s.rand)
    → OkThen (λ plain t. IsToken plain) (new_api_key s).0 (new_api_key s).1
unfolding new_api_key generate_api_key read_full
new_api_key-IsToken s b = elim (Bool-cases (leb 32 (length s.rand))) [
  | inl e ↦ rw (new_api_key, generate_api_key, read_full, e) (encoded-IsToken s.rand e b)
  | inr e ↦ rw (new_api_key, generate_api_key, read_full, e) tt
]

new_api_key-Yields : Yields (λ t. AreBytes (take 32 t.rand)) new_api_key (λ plain t. IsToken plain)
new_api_key-Yields = record { at = new_api_key-IsToken }

bearer-scheme : (plain : Text) → bearer (scheme ++ plain) ≡ some (trim_space plain)
unfolding text_dec
bearer-scheme plain = refl

module _ (sha256 : Text → Text) where
  -- Such a key names the row that holds its prefix and its hash.
  row-opens :
      (plain : Text) (k : ApiKey)
      → IsToken plain
      → k.prefix ≡ take 8 plain
      → k.hash ≡ sha256 plain
      → k.revoked_at ≡ none
      → opens sha256 (scheme ++ plain) k ≡ true
  row-opens plain k h p q r =
      rw (bearer-scheme plain, trim_space-tokens plain h.tokens, h.is_long, r)
        (ground (arith, text_eq k.prefix (take 8 plain) p, text_eq (sha256 plain) k.hash (sym q)))

  module _ (header : Text) (k : ApiKey) (own : opens sha256 header k ≡ true) where
    abbrev HasKey : Server → Type 0
    HasKey t = any (opens sha256 header) t.db.tables.api_keys ≡ true

    inserted_at :
        (t : Server) (tables : Tables) (faults : List Bool) (is_taken : Bool)
        → let q : Query Unit =
            throw_if is_taken driver >> modify (put_keys (tables.api_keys ++ k ∷ [])) in
          let from : Server = record t { db = record { tables = tables; faults = faults } } in
          OkThen (λ u t. HasKey t) (admin_query failed q from).0 (admin_query failed q from).1
    unfolding admin_query any
    inserted_at t tables faults true = tt
    inserted_at t tables faults false =
        ground (arith, any-append (opens sha256 header) tables.api_keys (k ∷ []), own)

    create_at :
        (t : Server) (tables : Tables) (faults : List Bool)
        → let from : Server = record t { db = record { tables = tables; faults = faults } } in
          OkThen
            (λ u t. HasKey t)
            (admin_query failed (create_api_key k) from).0
            (admin_query failed (create_api_key k) from).1
    unfolding admin_query create_api_key statement
    create_at t tables [] = inserted_at t tables [] (any (λ j. j.id == k.id) tables.api_keys)
    create_at t tables (true ∷ faults) = tt
    create_at t tables (false ∷ faults) =
        inserted_at t tables faults (any (λ j. j.id == k.id) tables.api_keys)

    create_api_key-HasKey :
        Yields (λ t. Unit {0}) (admin_query failed (create_api_key k)) (λ u t. HasKey t)
    create_api_key-HasKey = record { at = λ t h. create_at t t.db.tables t.db.faults }

module _ (env : Env) (sha256 : Text → Text) (label : Text) where
  abbrev Opens : Text × Text → Server → Type 0
  Opens printed t = any (opens sha256 (scheme ++ printed.1)) t.db.tables.api_keys ≡ true

  prefix_of : (plain : Text) → IsToken plain → or_no_prefix (api_key_prefix plain) ≡ take 8 plain
  unfolding api_key_prefix
  prefix_of plain h = rw h.is_long refl

  create_api_key_command-Opens :
      (s : Server)
      → AreBytes (take 32 s.rand)
      → OkThen Opens
          (create_api_key_command env sha256 label s).0
          (create_api_key_command env sha256 label s).1
  unfolding create_api_key_command admin_draw
  create_api_key_command-Opens s b =
      (Yields-bind (λ plain t. IsToken plain) new_api_key _ new_api_key-Yields
          λ plain. record {
            at = λ t h.
                (Yields-bind
                    (λ u t. any (opens sha256 (scheme ++ plain)) t.db.tables.api_keys ≡ true)
                    (admin_query failed (
                      create_api_key (record {
                        id = env.new_uuid t.draws;
                        prefix = or_no_prefix (api_key_prefix plain);
                        hash = sha256 plain;
                        label = label;
                        created_at = t.now;
                        last_used_at = none;
                        revoked_at = none;
                      })))
                    _
                    (create_api_key-HasKey sha256 (scheme ++ plain) _
                      (row-opens sha256 plain _ h (prefix_of plain h) refl refl))
                    λ u. Yields-pure (env.new_uuid t.draws, plain) λ t' k. k).at
                  _ tt;
          }).at
        s b

  -- When the random source gives bytes and `create-api-key` returns without an error, the key that it
  -- prints, as a bearer token, lets a request through to the handler, on every server with the tables
  -- that it has left and without failing statements; of the tables, at most the list of keys differs.
  pub create_api_key_command-Runs :
      (s : Server)
      → AreBytes (take 32 s.rand)
      → OkThen
          (λ printed t.
            (next : Handler Reply) (w : Server)
            → Runs (require_api_key sha256 (scheme ++ printed.1) next) next w t.db.tables)
          (create_api_key_command env sha256 label s).0
          (create_api_key_command env sha256 label s).1
  create_api_key_command-Runs s b =
      OkThen-weaken (create_api_key_command env sha256 label s).0
        (create_api_key_command env sha256 label s).1
        (λ printed t k next w.
          require_api_key-Runs sha256 (scheme ++ printed.1) next w t.db.tables k)
        (create_api_key_command-Opens s b)
