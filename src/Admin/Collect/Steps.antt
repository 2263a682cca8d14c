-- ===== src/Admin/Collect/Steps.antt =====
-- What `gcTargets` answers, over what it reads.
use mathlib.Core.List.{map}
use mathlib.Core.Path.{subst, ap}
use photogallery.Prelude.{ℕ, ◌≡◌, refl, Bool, some, List, ◌++◌, arith}
use photogallery.Prelude.Text.{Text}
use photogallery.Exec.{Result, ok, err, attempt, after, or_throw, pure, ◌>>=◌}
use photogallery.Exec.Keeps.{Keeps, Keeps-or_throw}
use photogallery.Exec.Ensures.{Ensures, Ensures-pure, Ensures-throw, Ensures-or_throw, Ensures-bind}
use photogallery.Db.{DbError, driver, Db, statement}
use photogallery.Db.Photos.{list_photo_refs}
use photogallery.Storage.Walk.{Tree, Target, Listing, walk, orphans, stale_incoming}
use photogallery.Admin.Collect.{
  GcError, walk_failed, refs_failed, incoming_failed, gc_grace, is_known, refs_or_throw, gc_targets,
}

abbrev pub refs_of : Db → List (Text × Text)
refs_of db = map (λ q. (q.album_id, q.id)) db.tables.photos

module _ (valid : Text → Bool) (tree : Tree) (now : ℕ) (db : Db) (Q : List Target → Type 0)
    (known_targets : (listing : Listing) (stale : List Target)
      → walk valid tree ≡ some listing
      → stale_incoming now gc_grace tree.incoming ≡ some stale
      → Q (orphans (is_known (refs_of db)) now gc_grace listing ++ stale)) where
  abbrev AtDb : Db → Type 0
  AtDb d = d.tables ≡ db.tables

  abbrev answer_of :
      Result GcError (Result DbError (List (Text × Text))) → Result DbError (List (Text × Text))
  answer_of (ok r) = r
  answer_of (err e) = err driver

  abbrev AreRefs : Result DbError (List (Text × Text)) → Type 0
  AreRefs (ok refs) = refs ≡ refs_of db
  AreRefs (err e) = Unit

  answered :
      (r : Result DbError (Unit {0})) (d : Db)
      → AtDb d
      → AreRefs (after r (λ u d'. (ok (refs_of d'), d')) d).0
  answered (ok u) d h = rw h refl
  answered (err e) d h = tt

  refs-known : Ensures AtDb AreRefs (attempt {F = GcError} list_photo_refs)
  unfolding list_photo_refs statement
  refs-known = record {
    at = λ s a h e.
        subst AreRefs (ap answer_of e)
          (answered (statement s).0 (statement s).1 (ground (arith, h)));
  }

  refs-Keeps : Keeps AtDb (attempt {F = GcError} list_photo_refs)
  unfolding list_photo_refs statement
  refs-Keeps = record { at = λ d h. ground (arith, h) }

  from_refs :
      (listing : Listing)
      → walk valid tree ≡ some listing
      → (listed : Result DbError (List (Text × Text))) → AreRefs listed
      → Ensures AtDb Q (
          refs_or_throw listed >>= λ refs.
          or_throw incoming_failed (stale_incoming now gc_grace tree.incoming) >>= λ stale.
          pure (orphans (is_known refs) now gc_grace listing ++ stale))
  from_refs listing w (err e) k = Ensures-throw refs_failed
  from_refs listing w (ok refs) k =
      Ensures-bind (λ ts. stale_incoming now gc_grace tree.incoming ≡ some ts)
        (or_throw incoming_failed (stale_incoming now gc_grace tree.incoming)) _
        (Keeps-or_throw incoming_failed (stale_incoming now gc_grace tree.incoming))
        (Ensures-or_throw incoming_failed (stale_incoming now gc_grace tree.incoming) (λ ts e. e))
        λ stale st. Ensures-pure _ (rw k (known_targets listing stale w st))

  gc_targets-Ensures : Ensures AtDb Q (gc_targets valid tree now)
  unfolding gc_targets
  gc_targets-Ensures =
      Ensures-bind (λ l. walk valid tree ≡ some l) (or_throw walk_failed (walk valid tree)) _
        (Keeps-or_throw walk_failed (walk valid tree))
        (Ensures-or_throw walk_failed (walk valid tree) (λ l e. e))
        λ listing w.
          Ensures-bind AreRefs (attempt list_photo_refs) _ refs-Keeps refs-known
            λ listed k. from_refs listing w listed k

  pub gc_targets-targets :
      (targets : List Target) → (gc_targets valid tree now db).0 ≡ ok targets → Q targets
  gc_targets-targets targets e = gc_targets-Ensures.at db targets refl e
