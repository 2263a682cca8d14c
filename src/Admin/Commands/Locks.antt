-- ===== src/Admin/Commands/Locks.antt =====
-- What `set-password` leaves in the table of albums, and to whom the album is still open.
use mathlib.Core.Path.{subst}
use mathlib.Core.Option.{some-injective}
use photogallery.Prelude.{
  ℕ, ◌+◌, ◌<◌, ◌≤◌, ◌≡◌, refl, sym, ap, ◌∙◌, Bool, true, false, Option, none, some, [], ◌∷◌, arith,
  find, not, Bool-cases, inl, inr,
}
use photogallery.Prelude.Text.{Text, is_empty}
use photogallery.Exec.{or_throw}
use photogallery.Exec.Yields.{OkThen, Yields, Yields-bind, Yields-pure, Yields-guard}
use photogallery.Auth.Session.{ReadsBack}
use photogallery.Db.{Album, Tables, is_protected}
use photogallery.Db.Albums.{album_has_slug, assign_album, get_album_by_slug, update_album}
use photogallery.Api.{Env, Server, unix}
use photogallery.Api.Visitor.Access.{album_access}
use photogallery.Api.Visitor.Unlock.{unlocked_session}
use photogallery.Api.Visitor.Unlock.Opens.{new_cookie, album_access-new_cookie}
use photogallery.Admin.Commands.{
  no_album, failed, empty_password, admin_query, admin_draw, typed_hash, set_password_command,
}
use photogallery.Admin.Commands.Rows.{
  find-set_album, Over, Finds, get_album-Finds, Sets, update_album-Sets,
}

-- The hash of what was typed, or none.
abbrev pub SetHash : Env → Bool → Option Text → Text → Type 0
SetHash env true typed hash = hash ≡ []
SetHash env false typed hash =
    (pw : Text) × (salt : ℕ) × (typed ≡ some pw) × (env.bcrypt salt pw ≡ some hash)

module _ (env : Env) (tables : Tables) where
  Hashed : Bool → Option Text → Text → Server → Type 0
  Hashed clear typed hash t = SetHash env clear typed hash × Over tables t

  bcrypt-Hashed :
      (pw : Text) (salt : ℕ) (o : Option Text) (t : Server)
      → env.bcrypt salt pw ≡ o
      → Over tables t
      → OkThen (Hashed false (some pw)) (or_throw failed o t).0 (or_throw failed o t).1
  unfolding Hashed
  bcrypt-Hashed pw salt none t e h = tt
  bcrypt-Hashed pw salt (some hash) t e h = ((pw, salt, refl, e), h)

  typed_hash-Hashed :
      (clear : Bool) (typed : Option Text)
      → Yields (Over tables) (typed_hash env clear typed) (Hashed clear typed)
  unfolding Hashed admin_draw
  typed_hash-Hashed true typed = Yields-pure [] λ t h. (refl, h)
  typed_hash-Hashed false none = record { at = λ t h. tt }
  typed_hash-Hashed false (some pw) =
      Yields-guard (is_empty pw) empty_password _
        λ k. record { at = λ t h. bcrypt-Hashed pw t.draws (env.bcrypt t.draws pw) _ refl h }

-- The album with the slug after the password was set, and whether a cookie opens it later.
pub record IsLocked (env : Env) (clear : Bool) (typed : Option Text) (slug : Text) (before : Album)
    (later : Server) (value : Text) (t : Server) : Type 0 where
  pub after_set : Album
  pub found : find (album_has_slug slug) t.db.tables.albums ≡ some after_set
  pub same_id : after_set.id ≡ before.id
  pub hash : SetHash env clear typed after_set.password_hash
  pub locked : album_access env later (some value) after_set ≡ not (is_protected after_set)

open_album :
    (env : Env) (s : Server) (value : Text) (a : Album)
    → is_protected a ≡ false
    → album_access env s (some value) a ≡ true
unfolding album_access
open_album env s value a e = rw e refl

module _ (env : Env) (clear : Bool) (typed : Option Text) (slug : Text) (s : Server)
    (before old : Album) (u later : Server) (cookie : Option Text)
    (named : find (album_has_slug slug) s.db.tables.albums ≡ some before)
    (same_id : old.id ≡ before.id) (older : old.password_version ≤ before.password_version)
    (back : ReadsBack env.crypto u.sessions.secret (unlocked_session env u cookie old))
    (same : later.sessions ≡ u.sessions) (fresh : unix later < unix u + u.sessions.ttl) where
  set_row : Text → ℕ → Album → Album
  set_row hash now a = record a {
    password_hash = hash;
    password_version = a.password_version + 1;
    updated_at = now;
  }

  abbrev Locked : Server → Type 0
  Locked t = IsLocked env clear typed slug before later (new_cookie env u cookie old) t

  set_row-locked :
      (hash : Text) (now : ℕ)
      → let b = assign_album (set_row hash now before) before in
        album_access env later (some (new_cookie env u cookie old)) b ≡ not (is_protected b)
  unfolding set_row
  set_row-locked hash now =
      let b = assign_album (set_row hash now before) before in
      elim (Bool-cases (is_protected b)) [
        | inl p ↦
            album_access-new_cookie env u cookie old later back same fresh b (sym same_id) p
            ∙ ground (arith, older, p)
        | inr p ↦ open_album env later (new_cookie env u cookie old) b p ∙ ground (arith, p)
      ]

  row-IsLocked :
      (hash : Text) (now : ℕ) (t : Server)
      → SetHash env clear typed hash
      → Sets s.db.tables (set_row hash now before) t
      → Locked t
  unfolding set_row
  row-IsLocked hash now t h k = record {
    after_set = assign_album (set_row hash now before) before;
    found =
        ap (find (album_has_slug slug)) k
        ∙ find-set_album slug before (set_row hash now before) s.db.tables.albums refl named;
    same_id = refl;
    hash = h;
    locked = set_row-locked hash now;
  }

  set_row-IsLocked :
      (hash : Text) (now : ℕ) (a : Album) (t : Server)
      → find (album_has_slug slug) s.db.tables.albums ≡ some a
      → SetHash env clear typed hash
      → Sets s.db.tables (set_row hash now a) t
      → Locked t
  set_row-IsLocked hash now a t e h k = row-IsLocked hash now t h (
      subst (λ z. Sets s.db.tables (set_row hash now z) t) (some-injective a before (sym e ∙ named))
        k)

  -- Whatever statements fail: when `set-password` returns without an error, the album with the slug
  -- has the bcrypt hash of what was typed, or none with --clear, and as long as it is protected no
  -- unexpired cookie opens it that an unlock had set when the album had its last password version or
  -- a lower one, if the session of that cookie is read back and the server signs with the same
  -- secret.
  pub set_password_command-IsLocked :
      OkThen
        (λ printed t. Locked t)
        (set_password_command env clear typed (slug ∷ []) s).0
        (set_password_command env clear typed (slug ∷ []) s).1
  unfolding set_password_command Hashed set_row
  set_password_command-IsLocked =
      (Yields-bind (Finds s.db.tables slug) (admin_query no_album (get_album_by_slug slug)) _
          (get_album-Finds s.db.tables slug)
          λ a. record {
            at = λ t h.
                (Yields-bind (Hashed env s.db.tables clear typed) (typed_hash env clear typed) _
                    (typed_hash-Hashed env s.db.tables clear typed)
                    λ hash. record {
                      at = λ t' k.
                          (Yields-bind (λ u t. Sets s.db.tables (set_row hash t'.now a) t)
                              (admin_query failed (update_album (set_row hash t'.now a))) _
                              (update_album-Sets s.db.tables (set_row hash t'.now a))
                              λ u.
                                Yields-pure a.slug
                                  λ t₂ sets. set_row-IsLocked hash t'.now a t₂ h.0 k.0 sets).at
                            t' k.1;
                    }).at
                  t h.1;
          }).at
        s refl
