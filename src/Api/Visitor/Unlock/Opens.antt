-- ===== src/Api/Visitor/Unlock/Opens.antt =====
-- What unlocking an album opens, and to whom it answers alike.
use photogallery.Prelude.{
  ◌+◌, ◌<◌, ◌≡◌, ◌≢◌, refl, sym, ◌∙◌, true, false, Option, none, some, arith, eqb, Bool-cases, inl,
  inr,
}
use photogallery.Prelude.Text.{Text}
use photogallery.Auth.Session.{
  Session, ReadsBack, granted, has_grant, add, new_session, encode, decode,
}
use photogallery.Auth.Session.Grants.{granted-add_self, granted-add_ne}
use photogallery.Auth.Session.Signed.{decode-encode_session}
use photogallery.Db.{Album, is_protected}
use photogallery.Api.{Env, Server, unix}
use photogallery.Api.Visitor.Access.{album_access}
use photogallery.Api.Visitor.Unlock.{brought, unlocked_session}

-- The session to which an unlock adds its grant.
abbrev start : Env → Server → Option Text → Session
start env s cookie = record (new_session s.sessions (unix s)) { grants = brought env s cookie }

module _ (env : Env) (s : Server) (b : Album) where
  album_access-brought :
      is_protected b ≡ true
      → (cookie : Option Text) → granted (start env s cookie) b.id b.password_version ≡ true
      → album_access env s cookie b ≡ true
  unfolding album_access granted brought has_grant
  album_access-brought p none h = absurd (ground arith)
  album_access-brought p (some value) h = ground (arith, p, h)

  album_access-open :
      is_protected b ≡ false → (cookie : Option Text) → album_access env s cookie b ≡ true
  unfolding album_access
  album_access-open p none = rw p refl
  album_access-open p (some value) = rw p refl

module _ (env : Env) (s : Server) (cookie : Option Text) (a : Album) where
  -- The cookie that an unlock sets.
  abbrev pub new_cookie : Text
  new_cookie = encode env.crypto s.sessions (unlocked_session env s cookie a)

  module _ (later : Server)
      (back : ReadsBack env.crypto s.sessions.secret (unlocked_session env s cookie a))
      (same : later.sessions ≡ s.sessions) (fresh : unix later < unix s + s.sessions.ttl) where
    decode-new_cookie :
        decode env.crypto later.sessions (unix later) new_cookie
        ≡ some (unlocked_session env s cookie a)
    unfolding unlocked_session add new_session
    decode-new_cookie = rw same (
        decode-encode_session env.crypto s.sessions (unix later) (unlocked_session env s cookie a)
          back fresh)

    access-new_cookie :
        (b : Album)
        → is_protected b ≡ true
        → album_access env later (some new_cookie) b
          ≡ granted (unlocked_session env s cookie a) b.id b.password_version
    unfolding album_access
    access-new_cookie b p = rw (p, decode-new_cookie) refl

    -- Until the cookie expires, and while the server signs with the same secret, the cookie that
    -- unlocking `a` sets gives access to the protected album `b` with the id of `a` exactly if the
    -- password version of `b` is the one that was unlocked: a change of the password locks it again.
    pub album_access-new_cookie :
        (b : Album)
        → b.id ≡ a.id
        → is_protected b ≡ true
        → album_access env later (some new_cookie) b ≡ eqb a.password_version b.password_version
    album_access-new_cookie b same_id p =
        rw (access-new_cookie b p, same_id)
          (unfold unlocked_session in granted-add_self _ a.id a.password_version b.password_version)

    -- Unlocking `a` gives no access to another album: to whatever album `b` with another id the new
    -- cookie gives access, the cookie that the request brought gave access when the request came.
    pub album_access-other :
        (b : Album)
        → b.id ≢ a.id
        → album_access env later (some new_cookie) b ≡ true
        → album_access env s cookie b ≡ true
    album_access-other b ne h = elim (Bool-cases (is_protected b)) [
      | inl p ↦ album_access-brought env s b p cookie (
          granted-add_ne (start env s cookie) a.id a.password_version b.id b.password_version ne
            (unfold unlocked_session in (sym (access-new_cookie b p) ∙ h)))
      | inr p ↦ album_access-open env s b p cookie
    ]
