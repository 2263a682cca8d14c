-- ===== src/Api/Visitor/Pages/Reads.antt =====
-- Statements that read, and what the steps of a visitor's request leave as it was.
use photogallery.Prelude.{◌≡◌, refl, sym, ◌∙◌, ap, Bool, Option, none, some, List, [], ◌∷◌, arith}
use photogallery.Exec.{Result, ok, err, or_throw, after, ◌>>◌}
use photogallery.Exec.Keeps.{Keeps}
use photogallery.Exec.Ensures.{Ensures}
use photogallery.Db.{DbError, not_found, Tables, Db, Query, statement}
use photogallery.Api.{Server, Reply, reply_of_error, fetch}

-- A statement that reads.
abbrev pub select : {A : Type 0} → (Tables → Option A) → Query A
select g = statement >> λ db. or_throw not_found (g db.tables) db

abbrev reply_of : {A : Type 0} → Reply → Result DbError A → Result Reply A
reply_of missing r = elim r [ ok a ↦ ok a | err e ↦ err (reply_of_error missing e) ]

statement-tables : (db : Db) → (statement db).1.tables ≡ db.tables
unfolding statement
statement-tables db = go db.faults refl
  where
    go : (faults : List Bool) → db.faults ≡ faults → (statement db).1.tables ≡ db.tables
    go [] e = rw e refl
    go (fault ∷ faults) e = rw e refl

module _ {A : Type 0} where
  or_throw-some :
      (e : DbError) (o : Option A) (db : Db) (a : A) → (or_throw e o db).0 ≡ ok a → o ≡ some a
  or_throw-some e none db a h = absurd (ground (arith, h))
  or_throw-some e (some b) db a h = ground (arith, h)

  after-or_throw :
      (r : Result DbError (Unit {0})) (e : DbError) (g : Tables → Option A) (db : Db)
      → (after r (λ u. λ z. or_throw e (g z.tables) z) db).1.tables ≡ db.tables
  after-or_throw (err f) e g db = refl
  after-or_throw (ok u) e g db = go (g db.tables) refl
    where
      go :
          (o : Option A)
          → g db.tables ≡ o
          → (or_throw {S = Db} {E = DbError} e (g db.tables) db).1.tables ≡ db.tables
      go none h = rw h refl
      go (some a) h = rw h refl

  after-ok :
      (r : Result DbError (Unit {0})) (f : Unit → Query A) (db : Db) (a : A)
      → (after r f db).0 ≡ ok a
      → (u : Unit) × ((r ≡ ok u) × ((f u db).0 ≡ ok a))
  after-ok (ok u) f db a h = (u, (refl, h))
  after-ok (err e) f db a h = absurd (ground (arith, h))

  reply_ok : (r : Result DbError A) (missing : Reply) (a : A) → reply_of missing r ≡ ok a → r ≡ ok a
  reply_ok (ok b) missing a h = ground (arith, h)
  reply_ok (err e) missing a h = absurd (ground (arith, h))

  fetch-select :
      (g : Tables → Option A) (missing : Reply) (s : Server) (a : A)
      → (fetch (select g) missing s).0 ≡ ok a
      → (g s.db.tables ≡ some a) × ((fetch (select g) missing s).1.db.tables ≡ s.db.tables)
  unfolding fetch
  fetch-select g missing s a h =
      let r = reply_ok (select g s.db).0 missing a h in
      let (u, (e, k)) =
        after-ok (statement s.db).0 (λ u. λ db. or_throw not_found (g db.tables) db)
          (statement s.db).1 a r in
      (
        ap g (sym (statement-tables s.db))
            ∙ or_throw-some not_found (g (statement s.db).1.tables) (statement s.db).1 a k,
        after-or_throw (statement s.db).0 not_found g (statement s.db).1 ∙ statement-tables s.db,
      )

-- What the steps of a visitor's request leave as it was.
pub record IsAt (s0 s : Server) : Type 0 where
  pub tables : s.db.tables ≡ s0.db.tables
  pub sessions : s.sessions ≡ s0.sessions
  pub now : s.now ≡ s0.now
  pub files : s.store.files ≡ s0.store.files

module _ {A : Type 0} (s0 : Server) (g : Tables → Option A) (missing : Reply) where
  pub fetch-select-Keeps : Keeps (IsAt s0) (fetch (select g) missing)
  unfolding fetch
  fetch-select-Keeps = record {
    at = λ s h. record {
      tables =
          after-or_throw (statement s.db).0 not_found g (statement s.db).1
          ∙ statement-tables s.db
          ∙ h.tables;
      sessions = h.sessions;
      now = h.now;
      files = h.files;
    };
  }

  pub fetch-select-Ensures :
      Ensures (IsAt s0) (λ a. g s0.db.tables ≡ some a) (fetch (select g) missing)
  fetch-select-Ensures = record {
    at = λ s a h e. rw (← ap g h.tables) (fetch-select g missing s a e).0;
  }
