-- ===== src/Api/Variants/Publishes.antt =====
-- `publish`, after a derivation: what lies at the paths of a photo and what its row says.
use photogallery.Prelude.{◌≡◌, Bool, true, false, ◌&&◌, none, some, arith, any}
use photogallery.Prelude.{all}
use photogallery.Prelude.Text.{Text}
use photogallery.Exec.{Result, ok, err, ◌>>=◌, ◌>>◌}
use photogallery.Exec.Yields.{OkThen, Yields}
use photogallery.Db.{DbError, Photo, Db}
use photogallery.Db.Photos.{has_original, get_photo, mark_variants_ready}
use photogallery.Storage.{Variant, original, same_variant, Store, StoreError, Disk}
use photogallery.Image.{Derived, max, deferred}
use photogallery.Image.Held.{rendered, is_wanted, Held}
use photogallery.Api.{Env, Server}
use photogallery.Api.Variants.{
  Work, ask, on_disk, or_broken, is_gone, unless_gone, photo_gone, commit_all, drop_others,
  unless_ready,
}
use photogallery.Api.Variants.Commits.{at_path}
use photogallery.Api.Variants.Rows.{is_ready_row, get_photo-present, mark-rows, unless_gone-throws}
use photogallery.Api.Variants.Places.{Lies, Placed, commit_all-Placed, drop_others-Lies}

-- The files and the row of a photo of which the original holds `pic`: a file for each variant that
-- is wanted for its size, with what libvips makes of the original, and none for the others.
pub record IsRendered (env : Env) (p : Photo) (pic : Text) (t : Server) : Type 0 where
  pub source : at_path env p original t.store ≡ some pic
  pub files :
      (w : Variant)
      → any (same_variant w) deferred ≡ true
      → is_wanted (max p.width p.height) w ≡ true
      → (c : Text) × (rendered env.vips pic w ≡ some c) × (at_path env p w t.store ≡ some c)
  pub others :
      (w : Variant)
      → any (same_variant w) deferred ≡ true
      → is_wanted (max p.width p.height) w ≡ false
      → at_path env p w t.store ≡ none
  pub row : all (is_ready_row p) t.db.tables.photos ≡ true

module _ {A B : Type 0} (Q : A → Store → Type 0) (R : B → Server → Type 0) where
  disk_then_go :
      (db : Db) (f : A → Work B) (r : Result StoreError A) (u : Server)
      → ((a : A) → Yields (λ t. Q a t.store × (t.db ≡ db)) (f a) R)
      → OkThen Q r u.store
      → u.db ≡ db
      → OkThen R ((or_broken r >>= f) u).0 ((or_broken r >>= f) u).1
  disk_then_go db f (ok a) u k q e = (k a).at u (q, e)
  disk_then_go db f (err x) u k q e = tt

  -- A call of the store, of which an error ends the function.
  pub disk_then :
      {P : Store → Type 0} (db : Db) (d : Disk A) (f : A → Work B)
      → Yields P d Q
      → ((a : A) → Yields (λ t. Q a t.store × (t.db ≡ db)) (f a) R)
      → Yields (λ t. P t.store × (t.db ≡ db)) (on_disk d >>= λ r. (or_broken r >>= f)) R
  unfolding on_disk
  disk_then db d f kd kf = record {
    at = λ t h.
        disk_then_go db f (d t.store).0 (record t { store = (d t.store).1 }) kf (kd.at t.store h.0)
          h.1;
  }

module _ (env : Env) (p : Photo) (pic : Text) where
  abbrev pub Ready : Unit {0} → Server → Type 0
  Ready u t = IsRendered env p pic t

  mark_go :
      (r : Result DbError Bool) (db : Db) (t : Server)
      → Lies env p pic t.store
      → OkThen (λ b db. (b ≡ true) × (all (is_ready_row p) db.tables.photos ≡ true)) r db
      → OkThen Ready
          ((or_broken r >>= unless_ready env p) (record t { db = db })).0
          ((or_broken r >>= unless_ready env p) (record t { db = db })).1
  mark_go (ok true) db t h k = record {
    source = h.source;
    files = h.files;
    others = h.others;
    row = k.1;
  }
  mark_go (ok false) db t h k = absurd (ground (arith, k.0))
  mark_go (err x) db t h k = tt

  module _ (db : Db)
      (present : any (has_original p.album_id p.id p.content_hash) db.tables.photos ≡ true) where
    abbrev At : (Store → Type 0) → Server → Type 0
    At P t = P t.store × (t.db ≡ db)

    mark-Ready :
        Yields
          (At (Lies env p pic))
          (ask (mark_variants_ready p.album_id p.id p.content_hash) >>= λ r.
            (or_broken r >>= unless_ready env p))
          Ready
    unfolding ask
    mark-Ready = record {
      at = λ t h.
          mark_go (mark_variants_ready p.album_id p.id p.content_hash t.db).0
            (mark_variants_ready p.album_id p.id p.content_hash t.db).1 t h.0
            (rw h.1 (mark-rows p db.tables present db.faults));
    }

    pub gone-Ready : Yields (λ t. t.db ≡ db) (photo_gone p >>= unless_gone) Ready
    unfolding photo_gone ask
    gone-Ready = record {
      at = λ t h.
          unless_gone-throws Ready (is_gone (get_photo p.album_id p.id t.db).0)
            (record t { db = (get_photo p.album_id p.id t.db).1 })
            (rw h (get_photo-present p db.tables present db.faults));
    }

    module _ (d : Derived)
        (kinds : (w : Variant)
          → any (λ x. same_variant x.0 w) d.staged ≡ any (same_variant w) d.produced)
        (produced : (w : Variant)
          → any (same_variant w) d.produced
            ≡ (any (same_variant w) deferred && is_wanted (max p.width p.height) w)) where
      abbrev placed_then : Work Unit
      placed_then = do
        committed ← on_disk (commit_all env p d.staged)
        or_broken committed
        dropped ← on_disk (drop_others env p d.produced deferred)
        or_broken dropped
        marked ← ask (mark_variants_ready p.album_id p.id p.content_hash)
        is_ready ← or_broken marked
        unless_ready env p is_ready

      pub placed-Ready :
          Yields
            (At (λ t. Held env.vips pic t d.staged × (at_path env p original t ≡ some pic)))
            placed_then
            Ready
      placed-Ready =
          disk_then (λ a t. Placed env p pic d kinds produced t) Ready db
            (commit_all env p d.staged) _ (commit_all-Placed env p pic d kinds produced)
            λ u.
              disk_then (λ a t. Lies env p pic t) Ready db (drop_others env p d.produced deferred) _
                (drop_others-Lies env p pic d kinds produced) λ u. mark-Ready
