-- ===== src/Api/Variants.antt =====
-- backend/internal/api/variants.go: the worker that renders the display variants. The loop over the
-- map of staged files, whose order Go leaves open, takes them in one order: the last made first.
pub mod Commits
pub mod Places
pub mod Rows
pub mod Publishes
pub mod Renders
pub mod Finishes
pub mod Race
use photogallery.Prelude.{
  ℕ, Bool, true, false, ◌&&◌, not, Option, none, some, List, [], ◌∷◌, ◌++◌, if◌then◌else◌, any,
  find,
}
use photogallery.Prelude.Text.{Text, bytes, ◌==◌}
use photogallery.Exec.{
  Result, ok, err, Exec, pure, throw, gets, modify, skip, ◌>>=◌, ◌>>◌, attempt, finally,
}
use photogallery.Db.{DbError, Photo, Query}
use photogallery.Db.Photos.{get_photo, list_photos_pending_variants, mark_variants_ready}
use photogallery.Storage.{
  Variant, original, same_variant, Store, StoreError, Disk, contents_at, check_path, remove,
  remove_photo,
}
use photogallery.Storage.Staging.{new_staged, abort_staged, commit}
use photogallery.Image.{Derived, deferred, derive}
use photogallery.Api.{Env, Server, Worker}

-- Only whether there is an error matters to the worker.
pub data Broken : Type 0 where
  broken : Broken

abbrev pub Work : Type 0 → Type 0
Work A = Exec Server Broken A

unfoldable pub ask : {A : Type 0} → Query A → Work (Result DbError A)
ask q s = let (r, db) = q s.db in (ok r, record s { db = db })

unfoldable pub on_disk : {A : Type 0} → Disk A → Work (Result StoreError A)
on_disk d s = let (r, store) = d s.store in (ok r, record s { store = store })

abbrev pub or_broken : {E A : Type 0} → Result E A → Work A
or_broken (ok a) = pure a
or_broken (err e) = throw broken

-- `photoGone`
abbrev pub is_gone : Result DbError Photo → Result DbError Bool
is_gone (ok p) = ok false
is_gone (err DbError.not_found) = ok true
is_gone (err e) = err e

unfoldable pub photo_gone : Photo → Work (Result DbError Bool)
unfolding ask
photo_gone p = do r ← ask (get_photo p.album_id p.id); pure (is_gone r)

-- What lies at the path of the original.
abbrev pub original_of : Text → Text → Store → Option Text
original_of album_id id = contents_at album_id id original

unfoldable pub abort_all : List (Variant × ℕ) → Store → Store
unfolding abort_staged
abort_all [] s = s
abort_all ((v, n) ∷ staged) s = abort_all staged (abort_staged n s)

abbrev pub clean_up : Derived → Server → Server
clean_up d s = record s { store = abort_all d.staged s.store }

abbrev pub unless_gone : Result DbError Bool → Work Unit
unless_gone (ok true) = skip
unless_gone r = throw broken

abbrev pub failure_key : Photo → Text
failure_key p = p.id ++ (bytes ":" ++ p.content_hash)

abbrev pub put_worker : (Worker → Worker) → Server → Server
put_worker f s = record s { worker = f s.worker }

abbrev pub note_failure : Photo → Result Broken (Unit {0}) → Work Unit
note_failure p (ok u) = skip
note_failure p (err e) = modify (put_worker (λ w. record w { failed = failure_key p ∷ w.failed }))

-- What starts a round of `run`: a kick, or a tick of the retry timer, which forgets the failures.
abbrev pub woken : Worker → Worker
woken w = record w { wake = false }

abbrev pub ticked : Worker → Worker
ticked w = record w { failed = [] }

module _ (env : Env) where
  -- The files of a photo that is gone are removed again; an error is ignored.
  abbrev pub take_back : Photo → Result DbError Bool → Work Unit
  take_back p (ok true) = do r ← on_disk (remove_photo env.uuid_canonical p.album_id p.id); skip
  take_back p r = skip

  unfoldable pub commit_all : Photo → List (Variant × ℕ) → Disk Unit
  unfolding commit
  commit_all p [] = skip
  commit_all p ((v, n) ∷ staged) = do
    commit env.uuid_canonical n p.album_id p.id v
    commit_all p staged

  -- The variants that were not regenerated are dropped.
  unfoldable pub drop_others : Photo → List Variant → List Variant → Disk Unit
  unfolding remove
  drop_others p produced [] = skip
  drop_others p produced (v ∷ vs) = do
    if any (same_variant v) produced then skip else remove env.uuid_canonical p.album_id p.id v
    drop_others p produced vs

  abbrev pub unless_ready : Photo → Bool → Work Unit
  unless_ready p true = skip
  unless_ready p false = do gone ← photo_gone p; take_back p gone

  -- What follows `Derive`.
  unfoldable pub publish : Photo → Derived → Work Unit
  unfolding ask on_disk photo_gone commit_all drop_others
  publish p d = if d.has_failed then (do gone ← photo_gone p; unless_gone gone) else (do
    committed ← on_disk (commit_all p d.staged)
    or_broken committed
    dropped ← on_disk (drop_others p d.produced deferred)
    or_broken dropped
    marked ← ask (mark_variants_ready p.album_id p.id p.content_hash)
    is_ready ← or_broken marked
    unless_ready p is_ready)

  unfoldable pub derive_photo : Photo → Disk Derived
  unfolding derive contents_at new_staged
  derive_photo p = do
    check_path env.uuid_canonical p.album_id p.id
    derive env.vips (original_of p.album_id p.id) (λ v. new_staged) p.width p.height deferred

  unfoldable pub generate : Photo → Work Unit
  unfolding derive_photo publish on_disk abort_all
  generate p = do r ← on_disk (derive_photo p); d ← or_broken r; finally (clean_up d) (publish p d)

  unfoldable pub try_photo : Photo → Work Unit
  unfolding generate
  try_photo p = do r ← attempt (generate p); note_failure p r

  -- One round of the loop of `drain`.
  unfoldable pub drain_one : Photo → Work Unit
  unfolding try_photo
  drain_one p = do
    failed ← gets (λ s. s.worker.failed)
    if any (λ k. k == failure_key p) failed then skip else try_photo p

  -- `stops` tells at each round whether the context is cancelled by then.
  unfoldable pub drain_loop : List Bool → List Photo → Work Unit
  unfolding drain_one
  drain_loop stops [] = skip
  drain_loop (true ∷ stops) (p ∷ ps) = skip
  drain_loop (false ∷ stops) (p ∷ ps) = do drain_one p; drain_loop stops ps
  drain_loop [] (p ∷ ps) = do drain_one p; drain_loop [] ps

  abbrev pub drain_listed : List Bool → Result DbError (List Photo) → Work Unit
  drain_listed stops (err e) = skip
  drain_listed stops (ok photos) = drain_loop stops photos

  unfoldable pub drain : List Bool → Work Unit
  unfolding ask drain_loop
  drain stops = do listed ← ask list_photos_pending_variants; drain_listed stops listed

  -- A round of `run`, after the event.
  unfoldable pub run_round : (Worker → Worker) → List Bool → Work Unit
  unfolding drain
  run_round event stops = do
    modify (put_worker event)
    modify (put_worker (λ w. record w { kicked = false; busy = true }))
    drain stops
    modify (put_worker (λ w. record w { busy = false }))

abbrev pub idle : Worker → Bool
idle w = not w.busy && (not w.kicked && not w.wake)

-- `newVariantWorker`, with its kick
abbrev pub new_worker : Worker
new_worker = record { wake = true; busy = false; kicked = true; failed = []; stopped = false }
