-- ===== src/Auth/Session/Signed.antt =====
-- What a signed cookie promises: it reads back, and nothing else is accepted.
use photogallery.Prelude.{
  ℕ, ◌<◌, ◌≡◌, refl, ap, some, [], ◌∷◌, ◌++◌, arith, eqb, Bool-cases, Option-cases, inl, inr,
}
use photogallery.Prelude.Text.{Text}
use photogallery.Auth.Base64
use photogallery.Auth.Base64.{AreBytes, HasNoDot, encode-HasNoDot, decode-encode}
use photogallery.Auth.Session.{
  Session, Sessions, Crypto, ReadsBack, split_dot, encode, open_payload, check_signature,
  decode_parts, decode,
}

split_dot-append :
    (left right : Text) → HasNoDot left → split_dot (left ++ (b'.' ∷ right)) ≡ some (left, right)
unfolding split_dot
split_dot-append [] right h = refl
split_dot-append (c ∷ left) right h = rw (h.0, split_dot-append left right h.1) refl

module _ (c : Crypto) (ss : Sessions) where
  decode_parts-encode :
      (now : ℕ) (s : Session)
      → ReadsBack c ss.secret s
      → now < s.expires
      → decode_parts c ss now
          (Base64.encode (c.marshal s))
          (Base64.encode (c.hmac ss.secret (c.marshal s)))
        ≡ some s
  unfolding decode_parts check_signature open_payload
  decode_parts-encode now s r h =
      rw
        (
          decode-encode (c.marshal s) r.payload_bytes,
          decode-encode (c.hmac ss.secret (c.marshal s)) r.signature_bytes,
          decode_parts,
        )
        (ground (arith, r.unmarshal-marshal))

  -- A session that the server has signed is read back from its cookie until it expires.
  pub decode-encode_session :
      (now : ℕ) (s : Session)
      → ReadsBack c ss.secret s
      → now < s.expires
      → decode c ss now (encode c ss s) ≡ some s
  unfolding decode encode
  decode-encode_session now s r h =
      rw
        (
          split_dot-append (Base64.encode (c.marshal s))
              (Base64.encode (c.hmac ss.secret (c.marshal s)))
              (encode-HasNoDot (c.marshal s) r.payload_bytes),
          decode,
        )
        (decode_parts-encode now s r h)

  -- What makes a cookie a signed one.
  pub record IsSigned (now : ℕ) (value : Text) (s : Session) : Type 0 where
    pub left : Text
    pub right : Text
    pub payload : Text
    pub split : value ≡ left ++ (b'.' ∷ right)
    pub decoded : Base64.decode left ≡ some payload
    pub signature : Base64.decode right ≡ some (c.hmac ss.secret payload)
    pub session : c.unmarshal payload ≡ some s
    pub fresh : now < s.expires

  split_dot-some :
      (value left right : Text)
      → split_dot value ≡ some (left, right)
      → value ≡ left ++ (b'.' ∷ right)
  unfolding split_dot
  split_dot-some [] left right h = cc
  split_dot-some (x ∷ value) left right h = elim (Bool-cases (eqb x b'.')) [
    | inl dot ↦
        let l : left ≡ [] = ground arith in
        let r : right ≡ value = ground arith in rw (l, r) (ground arith)
    | inr other ↦ elim (Option-cases (split_dot value)) [
      | inl missing ↦ ground arith
      | inr ((l, r), found) ↦
          let el : left ≡ x ∷ l = ground arith in
          let er : right ≡ r = ground arith in
          rw (el, er) (ap (◌∷◌ x) (split_dot-some value l r found))
    ]
  ]

  open_payload-some :
      (now : ℕ) (payload : Text) (s : Session)
      → open_payload c ss now payload ≡ some s
      → (c.unmarshal payload ≡ some s) × (now < s.expires)
  unfolding open_payload
  open_payload-some now payload s h = elim (Option-cases (c.unmarshal payload)) [
    | inl bad ↦ ground arith
    | inr (s', e) ↦ let same : s' ≡ s = ground arith in (rw (← same) e, ground arith)
  ]

  check_signature-some :
      (now : ℕ) (payload sig : Text) (s : Session)
      → check_signature c ss now payload sig ≡ some s
      → (sig ≡ c.hmac ss.secret payload) × (open_payload c ss now payload ≡ some s)
  unfolding check_signature
  check_signature-some now payload sig s h = ground arith

  decode_parts-IsSigned :
      (now : ℕ) (value left right : Text) (s : Session)
      → value ≡ left ++ (b'.' ∷ right)
      → decode_parts c ss now left right ≡ some s
      → IsSigned now value s
  unfolding decode_parts
  decode_parts-IsSigned now value left right s split h = elim (Option-cases (Base64.decode left)) [
    | inl bad ↦ ground arith
    | inr (payload, el) ↦ elim (Option-cases (Base64.decode right)) [
      | inl bad ↦ ground arith
      | inr (sig, er) ↦
          let (es, opened) =
            check_signature-some now payload sig s (rw (el, er, decode_parts) at h) in
          let (session, fresh) = open_payload-some now payload s opened in
          record {
            left = left;
            right = right;
            payload = payload;
            split = split;
            decoded = el;
            signature = rw (← es) er;
            session = session;
            fresh = fresh;
          }
    ]
  ]

  -- Whatever the cookie, a session that `Decode` accepts has not expired and is the one that the
  -- payload holds, and behind the payload's dot stands its signature under the server's secret.
  pub decode-IsSigned :
      (now : ℕ) (value : Text) (s : Session) → decode c ss now value ≡ some s → IsSigned now value s
  unfolding decode
  decode-IsSigned now value s h = elim (Option-cases (split_dot value)) [
    | inl bad ↦ ground arith
    | inr ((left, right), e) ↦
        decode_parts-IsSigned now value left right s (split_dot-some value left right e)
          (rw (e, decode) at h)
  ]
