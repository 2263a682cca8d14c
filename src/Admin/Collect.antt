-- ===== src/Admin/Collect.antt =====
-- backend/cmd/smugbox/admin.go: gcTargets, what the garbage collection would remove.
pub mod Steps
pub mod Spared
use photogallery.Prelude.{
  ℕ, ◌*◌, ◌≡◌, Bool, true, false, ◌&&◌, ◌||◌, not, Option, none, some, List, [], ◌∷◌, ◌++◌, any,
}
use photogallery.Prelude.Text.{Text, bytes, ◌==◌}
use photogallery.Exec.{Result, ok, err, Exec, pure, throw, ◌>>=◌, attempt, or_throw}
use photogallery.Auth.RateLimit.{second}
use photogallery.Db.{DbError, Db}
use photogallery.Db.Photos.{list_photo_refs}
use photogallery.Storage.Walk.{Tree, Target, Listing, walk, orphans, stale_incoming}

abbrev pub gc_grace : ℕ
gc_grace = 3600 * second

-- Which of the three readings has failed.
pub data GcError : Type 0 where
  walk_failed refs_failed incoming_failed : GcError

abbrev pub key_of : Text → Text → Text
key_of album_id photo_id = album_id ++ (bytes "/" ++ photo_id)

-- `known`: the map is read by its keys only.
unfoldable pub is_known : List (Text × Text) → Text → Text → Bool
is_known refs album_id photo_id = any (λ r. key_of r.0 r.1 == key_of album_id photo_id) refs

abbrev pub refs_or_throw :
    Result DbError (List (Text × Text)) → Exec Db GcError (List (Text × Text))
refs_or_throw (ok refs) = pure refs
refs_or_throw (err e) = throw refs_failed

module _ (valid : Text → Bool) (tree : Tree) where
  unfoldable pub gc_targets : ℕ → Exec Db GcError (List Target)
  unfolding walk orphans stale_incoming is_known list_photo_refs
  gc_targets now = do
    listing ← or_throw walk_failed (walk valid tree)
    listed ← attempt list_photo_refs
    refs ← refs_or_throw listed
    stale ← or_throw incoming_failed (stale_incoming now gc_grace tree.incoming)
    pure (orphans (is_known refs) now gc_grace listing ++ stale)
