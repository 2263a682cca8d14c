-- ===== src/Api/Visitor/Unlock/Replies.antt =====
-- To whom unlocking an album answers with a cookie, and to whom alike.
use photogallery.Prelude.{
  ℕ, ◌+◌, ◌<◌, ◌≡◌, refl, ◌∙◌, Bool, true, false, Option, none, some, List, [], ◌∷◌, arith,
  if◌then◌else◌, find, Bool-cases, inl, inr,
}
use photogallery.Prelude.Text.{Text}
use photogallery.Exec.{Result, ok, err, ◌>>=◌, ◌>>◌}
use photogallery.Slug.{valid_slug}
use photogallery.Auth.RateLimit.{Verdict, allowed, denied, allow}
use photogallery.Db.{Album, Tables, is_protected, statement}
use photogallery.Db.Albums.{album_has_slug, get_album_by_slug}
use photogallery.Auth.Session.{ReadsBack}
use photogallery.Api.Visitor.Access.{album_access}
use photogallery.Api.{calm, Env, Server, unix, Reply, cookie_set, Handler, try_query}
use photogallery.Api.Input.{decode_json, decoded}
use photogallery.Api.Visitor.Unlock.Opens.{new_cookie, album_access-new_cookie}
use photogallery.Api.Visitor.Unlock.{
  wrong_password, limiter_key, limit, known_album, cut_password, unlocked_session, try_password,
  unlock_album,
}

abbrev refusal : Reply → Result Reply Reply
refusal e = err e

err-ok : {A : Type 0} (e r : Reply) → refusal e ≡ ok r → A
err-ok e r h = absurd (ground (arith, h))

module _ (env : Env) (s : Server) (ip slug pw : Text) (cookie : Option Text) where
  module _ (valid : valid_slug slug ≡ true) (t : Tables) where
    pub unlock_album-password :
        (a : Album)
        → (allow s.limiter (limiter_key ip slug) s.now).0 ≡ allowed
        → find (album_has_slug slug) t.albums ≡ some a
        → is_protected a ≡ true
        → (unlock_album env ip slug cookie (decoded pw) (calm s t)).0 ≡ (
            if env.bcrypt_matches a.password_hash (cut_password pw)
            then ok (cookie_set (new_cookie env s cookie a) s.sessions.ttl)
            else err wrong_password)
    unfolding unlock_album limit try_query get_album_by_slug statement decode_json try_password
    unlock_album-password a free found p = rw (valid, free, found, p) (ground arith)

    -- When no statement fails, the slug is well-formed and names a protected album, the limiter lets
    -- the attempt pass and the password, cut to 256 bytes, matches: the reply sets a cookie, and until
    -- it expires, on every server with the same session secret, that cookie gives access to the album as
    -- it was. The session that is encoded has to be read back.
    pub unlock_album-opens :
        (a : Album)
        → (allow s.limiter (limiter_key ip slug) s.now).0 ≡ allowed
        → find (album_has_slug slug) t.albums ≡ some a
        → is_protected a ≡ true
        → env.bcrypt_matches a.password_hash (cut_password pw) ≡ true
        → ReadsBack env.crypto s.sessions.secret (unlocked_session env s cookie a)
        → (later : Server) → later.sessions ≡ s.sessions
        → unix later < unix s + s.sessions.ttl
        → (value : Text) × (((unlock_album env ip slug cookie (decoded pw) (calm s t)).0
              ≡ ok (cookie_set value s.sessions.ttl))
            × (album_access env later (some value) a ≡ true))
    unlock_album-opens a free found p right back later same fresh = (
      new_cookie env s cookie a,
      (
        unlock_album-password a free found p ∙ rw right refl,
        album_access-new_cookie env s cookie a later back same fresh a refl p ∙ ground arith,
      ),
    )

  -- When no statement fails, an unknown album and a protected one with another password get the same
  -- reply, and leave the same limiter, whatever the slug and the attempts before.
  pub unlock_album-alike :
      (t u : Tables) (a : Album)
      → find (album_has_slug slug) t.albums ≡ none
      → find (album_has_slug slug) u.albums ≡ some a
      → is_protected a ≡ true
      → env.bcrypt_matches a.password_hash (cut_password pw) ≡ false
      → ((unlock_album env ip slug cookie (decoded pw) (calm s t)).0
          ≡ (unlock_album env ip slug cookie (decoded pw) (calm s u)).0)
        × ((unlock_album env ip slug cookie (decoded pw) (calm s t)).1.limiter
            ≡ (unlock_album env ip slug cookie (decoded pw) (calm s u)).1.limiter)
  unfolding unlock_album limit try_query get_album_by_slug statement decode_json try_password
  unlock_album-alike t u a unknown found p wrong = elim (Bool-cases (valid_slug slug)) [
    | inr bad ↦ rw bad (refl, refl)
    | inl valid ↦ go (allow s.limiter (limiter_key ip slug) s.now).0 refl valid
  ]
    where
      go :
          (v : Verdict)
          → (allow s.limiter (limiter_key ip slug) s.now).0 ≡ v
          → valid_slug slug ≡ true
          → ((unlock_album env ip slug cookie (decoded pw) (calm s t)).0
              ≡ (unlock_album env ip slug cookie (decoded pw) (calm s u)).0)
            × ((unlock_album env ip slug cookie (decoded pw) (calm s t)).1.limiter
                ≡ (unlock_album env ip slug cookie (decoded pw) (calm s u)).1.limiter)
      go allowed e valid = rw (valid, e, unknown, found, p, wrong) (ground arith, ground arith)
      go (denied wait) e valid = rw (valid, e) (refl, refl)

  -- Why an unlock has set a cookie.
  pub record IsUnlocked (t : Tables) : Type 0 where
    pub album : Album
    pub named : find (album_has_slug slug) t.albums ≡ some album
    pub protected : is_protected album ≡ true
    pub matches : env.bcrypt_matches album.password_hash (cut_password pw) ≡ true

  try_password-cookie :
      (value : Text) (age : ℕ) (z : Server) (o : Option Album)
      → find (album_has_slug slug) z.db.tables.albums ≡ o
      → (try_password env cookie (cut_password pw) o z).0 ≡ ok (cookie_set value age)
      → IsUnlocked z.db.tables
  unfolding try_password
  try_password-cookie value age z none found h = ground (arith, h)
  try_password-cookie value age z (some a) found h = record {
    album = a;
    named = found;
    protected = ground (arith, h);
    matches = ground (arith, h);
  }

  look_up : Handler Reply
  look_up = do
    answer ← try_query (get_album_by_slug slug)
    found ← known_album answer
    try_password env cookie (cut_password pw) found

  look_up-cookie :
      (value : Text) (age : ℕ) (z : Server)
      → (look_up z).0 ≡ ok (cookie_set value age)
      → IsUnlocked z.db.tables
  unfolding look_up try_query get_album_by_slug statement
  look_up-cookie value age z h =
      go z.db.faults refl (find (album_has_slug slug) z.db.tables.albums) refl
    where
      go :
          (faults : List Bool)
          → z.db.faults ≡ faults
          → (o : Option Album) → find (album_has_slug slug) z.db.tables.albums ≡ o
          → IsUnlocked z.db.tables
      go (true ∷ faults) f o e = err-ok _ _ (rw f at h)
      go [] f none e = try_password-cookie value age _ none e (rw (f, e) at h)
      go [] f (some a) e = try_password-cookie value age _ (some a) e (rw (f, e) at h)
      go (false ∷ faults) f none e = try_password-cookie value age _ none e (rw (f, e) at h)
      go (false ∷ faults) f (some a) e = try_password-cookie value age _ (some a) e (rw (f, e) at h)

  limit-db : (s : Server) → (limit (limiter_key ip slug) s).1.db ≡ s.db
  unfolding limit
  limit-db s = go (allow s.limiter (limiter_key ip slug) s.now).0 refl
    where
      go :
          (v : Verdict)
          → (allow s.limiter (limiter_key ip slug) s.now).0 ≡ v
          → (limit (limiter_key ip slug) s).1.db ≡ s.db
      go allowed e = rw e refl
      go (denied wait) e = rw e refl

  -- Whatever the request's cookie, the attempts before and the statements that fail: if the reply sets
  -- a cookie, the slug names a protected album, and the request's password, cut to 256 bytes,
  -- matches the hash of that album.
  pub unlock_album-IsUnlocked :
      (value : Text) (age : ℕ)
      → (unlock_album env ip slug cookie (decoded pw) s).0 ≡ ok (cookie_set value age)
      → IsUnlocked s.db.tables
  unfolding unlock_album decode_json limit look_up
  unlock_album-IsUnlocked value age h = elim (Bool-cases (valid_slug slug)) [
    | inr bad ↦ err-ok _ _ (rw bad at h)
    | inl valid ↦ go (allow s.limiter (limiter_key ip slug) s.now).0 refl (rw valid at h)
  ]
    where
      go :
          (v : Verdict)
          → (allow s.limiter (limiter_key ip slug) s.now).0 ≡ v
          → ((limit (limiter_key ip slug) >> look_up) s).0 ≡ ok (cookie_set value age)
          → IsUnlocked s.db.tables
      go allowed e h = look_up-cookie value age _ (rw e at h)
      go (denied wait) e h = err-ok _ _ (rw e at h)
