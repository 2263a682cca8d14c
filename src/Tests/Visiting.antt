-- ===== src/Tests/Visiting.antt =====
-- The theorems on the visitors' endpoints at concrete inputs.
use photogallery.Prelude.{◌*◌, ◌≡◌, ◌≢◌, refl, true, false, none, some, [], ◌∷◌, arith, find, eqb}
use photogallery.Prelude.Text.{Text, bytes, text_dec}
use photogallery.Exec.{ok}
use photogallery.Slug.{valid_slug, slug_re_from}
use photogallery.Auth.Session.{
  Session, ReadsBack, has_grant, granted, other_grants, newest, add, new_session, encode, decode,
}
use photogallery.Auth.Session.Signed.{decode-encode_session}
use photogallery.Auth.RateLimit.{
  second, allowed, allow, allow_new, allow_tracked, consume, get, put, sweep, unfilled, refilled,
}
use photogallery.Db.{Album}
use photogallery.Db.Albums.{album_has_slug}
use photogallery.Api.{Server, cookie_set, calm}
use photogallery.Api.Input.{decoded}
use photogallery.Api.Visitor.Access.{album_access}
use photogallery.Api.Visitor.Unlock.{limiter_key, brought, unlocked_session, unlock_album}
use photogallery.Api.Visitor.Unlock.Opens.{new_cookie, album_access-new_cookie, album_access-other}
use photogallery.Api.Visitor.Unlock.Replies.{
  unlock_album-password, unlock_album-opens, unlock_album-alike, IsUnlocked,
  unlock_album-IsUnlocked,
}
use photogallery.Tests.World.{
  env, album, tables, world, crypto, sessions, marshal, unmarshal, marshal_grants, unmarshal_grants,
}

slug-valid : valid_slug (bytes "trip") ≡ true
unfolding valid_slug slug_re_from
slug-valid = refl

first-allowed :
    (allow world.limiter (limiter_key (bytes "ip") (bytes "trip")) world.now).0 ≡ allowed
unfolding allow allow_tracked allow_new consume get put sweep unfilled refilled
first-allowed = refl

album-found : find (album_has_slug (bytes "trip")) tables.albums ≡ some album
unfolding find text_dec
album-found = refl

pw-wrong : env.bcrypt_matches album.password_hash (bytes "no") ≡ false
unfolding text_dec
pw-wrong = refl

pw-right : env.bcrypt_matches album.password_hash (bytes "pw") ≡ true
unfolding text_dec
pw-right = refl

nothing-found : find (album_has_slug (bytes "trip")) [] ≡ none
unfolding find
nothing-found = refl

unlock_album-alike_example :
    ((unlock_album env
        (bytes "ip")
        (bytes "trip")
        none
        (decoded (bytes "no"))
        (calm world (record tables { albums = [] }))).0
      ≡ (unlock_album env
          (bytes "ip")
          (bytes "trip")
          none
          (decoded (bytes "no"))
          (calm world tables)).0)
    × ((unlock_album env
          (bytes "ip")
          (bytes "trip")
          none
          (decoded (bytes "no"))
          (calm world (record tables { albums = [] }))).1.limiter
        ≡ (unlock_album env
            (bytes "ip")
            (bytes "trip")
            none
            (decoded (bytes "no"))
            (calm world tables)).1.limiter)
unlock_album-alike_example =
    unlock_album-alike env world (bytes "ip") (bytes "trip") (bytes "no") none
      (record tables { albums = [] }) tables album nothing-found album-found refl pw-wrong

unlocked :
    (unlock_album env (bytes "ip") (bytes "trip") none (decoded (bytes "pw")) world).0
    ≡ ok (cookie_set (new_cookie env world none album) 100)
unfolding text_dec
unlocked =
    unlock_album-password env world (bytes "ip") (bytes "trip") (bytes "pw") none slug-valid tables
      album first-allowed album-found refl

unlock_album-IsUnlocked_example :
    IsUnlocked env world (bytes "ip") (bytes "trip") (bytes "pw") none tables
unlock_album-IsUnlocked_example =
    unlock_album-IsUnlocked env world (bytes "ip") (bytes "trip") (bytes "pw") none
      (new_cookie env world none album) 100 unlocked

pub session-ReadsBack : ReadsBack crypto sessions.secret (unlocked_session env world none album)
unfolding unlocked_session brought add other_grants newest new_session marshal marshal_grants
    unmarshal unmarshal_grants
session-ReadsBack = record {
  payload_bytes = (omega arith, (omega arith, (omega arith, tt)));
  signature_bytes = (omega arith, tt);
  unmarshal-marshal = refl;
}

abbrev later : Server
later = record world { now = 50 * second }

album_access-new_cookie_example :
    album_access env later
      (some (new_cookie env world none album))
      (record album { password_version = 2 })
    ≡ eqb 1 2
album_access-new_cookie_example =
    album_access-new_cookie env world none album later session-ReadsBack refl (omega arith)
      (record album { password_version = 2 }) refl refl

-- Another protected album, which the visitor has unlocked before.
abbrev other_album : Album
other_album = record album { id = bytes "b"; slug = bytes "other"; password_version = 7 }

abbrev before : Session
before = record { expires = 90; grants = record { album_id = bytes "b"; version = 7 } ∷ [] }

abbrev old_cookie : Text
old_cookie = encode crypto sessions before

before-ReadsBack : ReadsBack crypto sessions.secret before
unfolding marshal marshal_grants unmarshal unmarshal_grants
before-ReadsBack = record {
  payload_bytes = (omega arith, (omega arith, (omega arith, tt)));
  signature_bytes = (omega arith, tt);
  unmarshal-marshal = refl;
}

before-decoded : decode crypto sessions 1 old_cookie ≡ some before
before-decoded = decode-encode_session crypto sessions 1 before before-ReadsBack (omega arith)

abbrev both : Session
both = record {
  expires = 101;
  grants =
      record { album_id = bytes "b"; version = 7 }
      ∷ record { album_id = bytes "a"; version = 1 }
      ∷ [];
}

brought-before : brought env world (some old_cookie) ≡ before.grants
unfolding brought
brought-before = rw (before-decoded, brought) refl

unlocked-both : unlocked_session env world (some old_cookie) album ≡ both
unfolding unlocked_session add other_grants newest new_session text_dec
unlocked-both = rw brought-before refl

both-ReadsBack :
    ReadsBack crypto sessions.secret (unlocked_session env world (some old_cookie) album)
unfolding marshal marshal_grants unmarshal unmarshal_grants
both-ReadsBack = rw unlocked-both (record {
  payload_bytes = (omega arith, (omega arith, (omega arith, (omega arith, (omega arith, tt)))));
  signature_bytes = (omega arith, tt);
  unmarshal-marshal = refl;
})

decoded-both :
    decode crypto sessions 50 (new_cookie env world (some old_cookie) album)
    ≡ some (unlocked_session env world (some old_cookie) album)
decoded-both =
    decode-encode_session crypto sessions 50 (unlocked_session env world (some old_cookie) album)
      both-ReadsBack (rw unlocked-both (omega arith))

both-opens :
    album_access env later (some (new_cookie env world (some old_cookie) album)) other_album ≡ true
unfolding album_access granted has_grant text_dec
both-opens = rw (decoded-both, unlocked-both) refl

b-ne-a : bytes "b" ≢ bytes "a"
b-ne-a e = ground arith

album_access-other_example : album_access env world (some old_cookie) other_album ≡ true
album_access-other_example =
    album_access-other env world (some old_cookie) album later both-ReadsBack refl (omega arith)
      other_album b-ne-a both-opens

unlock_album-opens_example :
    (value : Text) × (((unlock_album env
          (bytes "ip")
          (bytes "trip")
          none
          (decoded (bytes "pw"))
          (calm world tables)).0
        ≡ ok (cookie_set value 100))
      × (album_access env later (some value) album ≡ true))
unlock_album-opens_example =
    unlock_album-opens env world (bytes "ip") (bytes "trip") (bytes "pw") none slug-valid tables
      album first-allowed album-found refl pw-right session-ReadsBack later refl (omega arith)
