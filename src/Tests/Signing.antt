-- ===== src/Tests/Signing.antt =====
-- The theorems on sessions and their cookies at concrete inputs.
use photogallery.Prelude.{◌≤◌, ◌≡◌, ◌≢◌, refl, true, some, [], ◌∷◌, arith, length}
use photogallery.Prelude.Text.{bytes, text_dec}
use photogallery.Auth.Base64
use photogallery.Auth.Base64.{AreBytes, decode-encode}
use photogallery.Auth.Session.{
  Session, ReadsBack, max_grants, has_grant, granted, other_grants, newest, add, encode, decode,
}
use photogallery.Auth.Session.Grants.{granted-add_ne, length-add-le}
use photogallery.Auth.Session.Signed.{IsSigned, decode-encode_session, decode-IsSigned}
use photogallery.Tests.World.{
  crypto, sessions, marshal, unmarshal, marshal_grants, unmarshal_grants,
}

decode-encode_example : Base64.decode (Base64.encode (bytes "any")) ≡ some (bytes "any")
decode-encode_example = decode-encode (bytes "any") (omega arith, (omega arith, (omega arith, tt)))

abbrev visit : Session
visit = record { expires = 101; grants = record { album_id = bytes "a"; version = 2 } ∷ [] }

visit-ReadsBack : ReadsBack crypto sessions.secret visit
unfolding marshal marshal_grants unmarshal unmarshal_grants
visit-ReadsBack = record {
  payload_bytes = (omega arith, (omega arith, (omega arith, tt)));
  signature_bytes = (omega arith, tt);
  unmarshal-marshal = refl;
}

decode-encode_session_example : decode crypto sessions 1 (encode crypto sessions visit) ≡ some visit
decode-encode_session_example =
    decode-encode_session crypto sessions 1 visit visit-ReadsBack (omega arith)

read_back : decode crypto sessions 1 (encode crypto sessions visit) ≡ some visit
read_back = decode-encode_session crypto sessions 1 visit visit-ReadsBack (omega arith)

decode-IsSigned_example : IsSigned crypto sessions 1 (encode crypto sessions visit) visit
decode-IsSigned_example =
    decode-IsSigned crypto sessions 1 (encode crypto sessions visit) visit read_back

b-ne-a : bytes "b" ≢ bytes "a"
b-ne-a e = ground arith

a-ne-b : bytes "a" ≢ bytes "b"
a-ne-b e = ground arith

granted-visit : granted (add visit (bytes "b") 1) (bytes "a") 2 ≡ true
unfolding granted add has_grant other_grants newest text_dec
granted-visit = refl

granted-add_ne_example : granted visit (bytes "a") 2 ≡ true
granted-add_ne_example = granted-add_ne visit (bytes "b") 1 (bytes "a") 2 a-ne-b granted-visit

length-add-le_example : length (add visit (bytes "b") 1).grants ≤ max_grants
length-add-le_example = length-add-le visit (bytes "b") 1
