-- ===== src/Api/Variants/Finishes.antt =====
-- `generate` returns while the store and the tables do not fail.
use photogallery.Prelude.{ℕ, ◌≡◌, refl, true, false, ◌&&◌, some, List, [], ◌∷◌, arith, any}
use photogallery.Prelude.Text.{Text}
use photogallery.Exec.{Result, ok, err, skip, ◌>>=◌, finally}
use photogallery.Exec.Returns.{OkAnd, Returns, Returns-bind, Returns-if, OkAnd-both, OkAnd-weaken}
use photogallery.Db.{Photo, Db, statement}
use photogallery.Db.Photos.{has_original, mark_variants_ready}
use photogallery.Storage.{Variant, original, same_variant, Store, StoreError, Disk, remove}
use photogallery.Storage.Staging.{commit}
use photogallery.Storage.Staging.Laws.{Same-refl, staged-any}
use photogallery.Storage.Staging.Commits.{IsCommitted, commit-IsCommitted}
use photogallery.Storage.Staging.Calm.{IsCalm, remove-IsCalm, commit-IsCalm}
use photogallery.Image.{Derived, max, deferred}
use photogallery.Image.Held.{Held, Held-later}
use photogallery.Image.Succeeds.{IsMakeable, Fine, derive-Fine}
use photogallery.Api.{Env, Server}
use photogallery.Api.Variants.{
  Work, Broken, ask, on_disk, or_broken, original_of, clean_up, commit_all, drop_others,
  unless_gone, photo_gone, unless_ready, publish, derive_photo, generate,
}
use photogallery.Api.Variants.Commits.{at_path}
use photogallery.Api.Variants.Publishes.{IsRendered}
use photogallery.Api.Variants.Renders.{
  source_at, Derives, derive_photo-Derives, generate-IsRendered,
}

module _ {A B : Type 0} (Q : A → Store → Type 0) (R : B → Server → Type 0) where
  on_disk_go :
      (db : Db) (f : A → Work B) (r : Result StoreError A) (u : Server)
      → ((a : A) → Returns (λ t. Q a t.store × (t.db ≡ db)) (f a) R)
      → OkAnd Q r u.store
      → u.db ≡ db
      → OkAnd R ((or_broken r >>= f) u).0 ((or_broken r >>= f) u).1
  on_disk_go db f (ok a) u k q e = (k a).at u (q, e)
  on_disk_go db f (err x) u k q e = absurd q

  disk_returns :
      {P : Store → Type 0} (db : Db) (d : Disk A) (f : A → Work B)
      → Returns P d Q
      → ((a : A) → Returns (λ t. Q a t.store × (t.db ≡ db)) (f a) R)
      → Returns (λ t. P t.store × (t.db ≡ db)) (on_disk d >>= λ r. (or_broken r >>= f)) R
  unfolding on_disk
  disk_returns db d f kd kf = record {
    at = λ t h.
        on_disk_go db f (d t.store).0 (record t { store = (d t.store).1 }) kf (kd.at t.store h.0)
          h.1;
  }

module _ (env : Env) (p : Photo)
    (checked : (env.uuid_canonical p.album_id && env.uuid_canonical p.id) ≡ true) where
  module _ (pic : Text) where
    commit_all-IsCalm :
        (staged : List (Variant × ℕ))
        → Returns
            (λ t. IsCalm t × Held env.vips pic t staged)
            (commit_all env p staged)
            (λ u t. IsCalm t)
    unfolding commit_all
    commit_all-IsCalm [] = record { at = λ t h. h.0 }
    commit_all-IsCalm ((v, n) ∷ rest) =
        Returns-bind (λ u t. IsCalm t × Held env.vips pic t rest)
          (commit env.uuid_canonical n p.album_id p.id v) (λ u. commit_all env p rest)
          (record {
            at = λ s h.
                OkAnd-weaken (λ u t. IsCalm t × IsCommitted p.album_id p.id n v s t)
                  (λ u t. IsCalm t × Held env.vips pic t rest)
                  (commit env.uuid_canonical n p.album_id p.id v s).0
                  (commit env.uuid_canonical n p.album_id p.id v s).1
                  (λ u t k. (
                    k.0,
                    Held-later env.vips pic n s t rest (omega (arith, k.1.temps))
                        (λ m below. k.1.staged m (ground (arith, below))) h.1.2 h.1.3,
                  ))
                  (OkAnd-both (λ u t. IsCalm t) (λ u t. IsCommitted p.album_id p.id n v s t)
                    (commit env.uuid_canonical n p.album_id p.id v s).0
                    (commit env.uuid_canonical n p.album_id p.id v s).1
                    ((commit-IsCalm env.uuid_canonical p.album_id p.id v checked n).at s
                      (h.0, staged-any n h.1.0.0 s h.1.0.2))
                    ((commit-IsCommitted env.uuid_canonical p.album_id p.id h.1.0.0 n v s
                        h.1.0.2).at
                      s (Same-refl s)));
          })
          λ u. commit_all-IsCalm rest

  drop_others-IsCalm :
      (produced vs : List Variant)
      → Returns IsCalm (drop_others env p produced vs) (λ u t. IsCalm t)
  unfolding drop_others
  drop_others-IsCalm produced [] = record { at = λ t h. h }
  drop_others-IsCalm produced (v ∷ vs) =
      Returns-bind (λ u t. IsCalm t) _ (λ u. drop_others env p produced vs)
        (Returns-if (any (same_variant v) produced) skip
          (remove env.uuid_canonical p.album_id p.id v) (λ e. record { at = λ t h. h })
          λ e. remove-IsCalm env.uuid_canonical p.album_id p.id v checked)
        λ u. drop_others-IsCalm produced vs

abbrev Done : Unit {0} → Server → Type 0
Done u t = Unit

module _ (env : Env) (p : Photo) (pic : Text) (s : Server)
    (lies : at_path env p original s.store ≡ some pic)
    (present : any (has_original p.album_id p.id p.content_hash) s.db.tables.photos ≡ true)
    (checked : (env.uuid_canonical p.album_id && env.uuid_canonical p.id) ≡ true)
    (makeable : (w : Variant)
      → any (same_variant w) deferred ≡ true
      → IsMakeable env.vips pic (max p.width p.height) w)
    (disk_calm : s.store.faults ≡ []) (db_calm : s.db.faults ≡ []) where
  mark-Done :
      Returns
        (λ t. IsCalm t.store × (t.db ≡ s.db))
        (ask (mark_variants_ready p.album_id p.id p.content_hash) >>= λ r.
          (or_broken r >>= unless_ready env p))
        Done
  unfolding ask mark_variants_ready statement
  mark-Done = record { at = λ t h. rw (h.1, db_calm, present) tt }

  publish-Done :
      (d : Derived)
      → d.has_failed ≡ false
      → Returns
          (λ t. (IsCalm t.store × Held env.vips pic t.store d.staged) × (t.db ≡ s.db))
          (publish env p d)
          Done
  unfolding publish
  publish-Done d ok_yet =
      Returns-if d.has_failed (photo_gone p >>= unless_gone) _
        (λ e. record { at = λ t h. absurd (ground (arith, e, ok_yet)) })
        λ e.
          disk_returns (λ u t. IsCalm t) Done s.db (commit_all env p d.staged) _
            (commit_all-IsCalm env p checked pic d.staged)
            λ u.
              disk_returns (λ u t. IsCalm t) Done s.db (drop_others env p d.produced deferred) _
                (drop_others-IsCalm env p checked d.produced deferred) λ u. mark-Done

  abbrev FineHere : Derived → Store → Type 0
  FineHere =
      Fine env.vips pic s.store (original_of p.album_id p.id) (source_at env p pic s lies present)
        (max p.width p.height)

  derive_photo-Fine :
      Returns
        (λ t. IsCalm t × (t.files ≡ s.store.files))
        (derive_photo env p)
        (λ d t. FineHere d t × Derives env p pic s lies present d t)
  unfolding derive_photo
  derive_photo-Fine = record {
    at = λ t h.
        OkAnd-both FineHere (Derives env p pic s lies present) (derive_photo env p t).0
          (derive_photo env p t).1
          (rw checked (
            (derive-Fine env.vips pic s.store (original_of p.album_id p.id)
                (source_at env p pic s lies present) p.width p.height makeable).at
              t h))
          ((derive_photo-Derives env p pic s lies present).at t h.1);
  }

  cleaned-Done :
      (d : Derived) (r : Result Broken (Unit {0})) (t : Server)
      → OkAnd Done r t
      → OkAnd Done r (clean_up d t)
  cleaned-Done d (ok u) t h = tt
  cleaned-Done d (err x) t h = absurd h

  generate-Done :
      Returns
        (λ t. (IsCalm t.store × (t.store.files ≡ s.store.files)) × (t.db ≡ s.db))
        (generate env p)
        Done
  unfolding generate
  generate-Done =
      disk_returns (λ d t. FineHere d t × Derives env p pic s lies present d t) Done s.db
        (derive_photo env p) (λ d. finally (clean_up d) (publish env p d)) derive_photo-Fine
        λ d. record {
          at = λ t h.
              cleaned-Done d (publish env p d t).0 (publish env p d t).1
                ((publish-Done d h.0.0.0).at t ((h.0.0.1.0, (h.0.1 h.0.0.0).held), h.1));
        }

  -- While neither the store nor the tables fail, the identifiers are canonical, the original of the
  -- photo lies at its path, a row still has the hash of the photo, and libvips makes each display
  -- variant that is wanted, `generate` returns without an error, and then these variants lie at their
  -- paths, with what libvips makes of that original, and every row with that hash is ready.
  pub generate-returns :
      OkAnd (λ u t. IsRendered env p pic t) (generate env p s).0 (generate env p s).1
  generate-returns =
      OkAnd-weaken (λ u t. Done u t × IsRendered env p pic t) (λ u t. IsRendered env p pic t)
        (generate env p s).0 (generate env p s).1 (λ u t k. k.1)
        (OkAnd-both Done (λ u t. IsRendered env p pic t) (generate env p s).0 (generate env p s).1
          (generate-Done.at s ((disk_calm, refl), refl))
          (generate-IsRendered env p pic s lies present))
