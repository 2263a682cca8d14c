-- ===== src/Auth/Session.antt =====
-- backend/internal/auth/cookie.go: the visitor session and its signed cookie.
-- HMAC-SHA256 and the JSON form of a session are parameters. A byte is below 256.
pub mod Grants
pub mod Signed
use photogallery.Prelude.{
  ℕ, zero, suc, ◌+◌, ◌-◌, ◌≡◌, Bool, true, false, ◌&&◌, not, Option, none, some, List, [], ◌∷◌,
  ◌++◌, ltb, leb, eqb, if◌then◌else◌, length, drop, filter,
}
use photogallery.Prelude.Text.{Text, ◌==◌}
use photogallery.Auth.Base64
use photogallery.Auth.Base64.{AreBytes}

abbrev pub max_grants : ℕ
max_grants = 20

pub record Grant : Type 0 where
  pub album_id : Text
  pub version : ℕ

pub record Session : Type 0 where
  pub expires : ℕ
  pub grants : List Grant

-- The loop of `Granted`.
unfoldable pub has_grant : List Grant → Text → ℕ → Bool
has_grant [] album_id version = false
has_grant (g ∷ gs) album_id version =
    if (g.album_id == album_id) && eqb g.version version
    then true
    else has_grant gs album_id version

unfoldable pub granted : Session → Text → ℕ → Bool
unfolding has_grant
granted s album_id version = has_grant s.grants album_id version

-- The loop of `Add`: the grants for other albums.
unfoldable pub other_grants : Text → List Grant → List Grant
other_grants album_id [] = []
other_grants album_id (g ∷ gs) =
    let rest = other_grants album_id gs in if g.album_id == album_id then rest else g ∷ rest

-- `kept[len(kept)-MaxGrants:]` where there are more than `MaxGrants`
unfoldable pub newest : List Grant → List Grant
newest kept = if ltb max_grants (length kept) then drop (length kept - max_grants) kept else kept

unfoldable pub add : Session → Text → ℕ → Session
unfolding other_grants newest
add s album_id version = record s {
  grants =
      newest
        (other_grants album_id s.grants ++ record { album_id = album_id; version = version } ∷ []);
}

-- `hmac secret payload`, `json.Marshal` and `json.Unmarshal` at type `Session`
pub record Crypto : Type 0 where
  pub hmac : Text → Text → Text
  pub marshal : Session → Text
  pub unmarshal : Text → Option Session

-- What the cookie of one session relies on: its JSON form and the signature are bytes, and the
-- session is read back from its JSON form.
pub record ReadsBack (c : Crypto) (secret : Text) (s : Session) : Type 0 where
  pub payload_bytes : AreBytes (c.marshal s)
  pub signature_bytes : AreBytes (c.hmac secret (c.marshal s))
  pub unmarshal-marshal : c.unmarshal (c.marshal s) ≡ some s

-- `ttl` and the clock in seconds
pub record Sessions : Type 0 where
  pub secret : Text
  pub ttl : ℕ

unfoldable pub new_session : Sessions → ℕ → Session
new_session ss now = record { expires = now + ss.ttl; grants = [] }

-- `value[:dot]` and `value[dot+1:]` at the first dot; none where there is none
unfoldable pub split_dot : Text → Option (Text × Text)
split_dot [] = none
split_dot (c ∷ s) =
    let rest = split_dot s in
    if eqb c b'.' then some ([], s) else elim rest [ none ↦ none | some (l, r) ↦ some (c ∷ l, r) ]

module _ (c : Crypto) (ss : Sessions) where
  unfoldable pub encode : Session → Text
  encode sess =
      let payload = c.marshal sess in
      Base64.encode payload ++ (b'.' ∷ Base64.encode (c.hmac ss.secret payload))

  -- `Decode` behind the split, the two base64 decodings and the signature test.
  unfoldable pub open_payload : ℕ → Text → Option Session
  open_payload now payload = elim (c.unmarshal payload) [
    | none ↦ none
    | some sess ↦ if leb sess.expires now then none else some sess
  ]

  unfoldable pub check_signature : ℕ → Text → Text → Option Session
  unfolding open_payload
  check_signature now payload sig =
      if sig == c.hmac ss.secret payload then open_payload now payload else none

  unfoldable pub decode_parts : ℕ → Text → Text → Option Session
  unfolding check_signature
  decode_parts now left right = elim (Base64.decode left) [
    | none ↦ none
    | some payload ↦ elim (Base64.decode right) [
      | none ↦ none
      | some sig ↦ check_signature now payload sig
    ]
  ]

  unfoldable pub decode : ℕ → Text → Option Session
  unfolding decode_parts split_dot
  decode now value = elim (split_dot value) [
    | none ↦ none
    | some (left, right) ↦ decode_parts now left right
  ]
