-- ===== src/Tests/Collecting.antt =====
-- The garbage collection at concrete inputs.
use photogallery.Prelude.{ℕ, ◌*◌, ◌≡◌, refl, true, false, List, [], ◌∷◌, any, all}
use photogallery.Prelude.Text.{Text, bytes, text_dec}
use photogallery.Exec.{ok}
use photogallery.Auth.RateLimit.{second}
use photogallery.Db.{statement}
use photogallery.Db.Photos.{list_photo_refs}
use photogallery.Storage.Walk.{
  Entry, Dir, Tree, Target, photo_entry, incoming_entry, walk_albums, walk_photos, and_then,
}
use photogallery.Storage.Walk.Answers.{is_photo_entry}
use photogallery.Admin.Collect.{gc_targets, is_known}
use photogallery.Admin.Collect.Spared.{gc_targets-spared, gc_targets-found}
use photogallery.Tests.World.{any_uuid, world}

abbrev dir : Text → ℕ → Entry
dir name time = record { name = name; is_dir = true; mod_time = ok time }

-- An album directory with the photo of the tables and a lost one, both of the first second.
abbrev photo_dirs : Text → Dir
photo_dirs name = ok (dir (bytes "p") second ∷ dir (bytes "q") second ∷ [])

abbrev tree : Tree
tree = record {
  photos = ok (dir (bytes "a") second ∷ []);
  album = photo_dirs;
  incoming = ok (dir (bytes "upload-1.tmp") second ∷ []);
}

abbrev later : ℕ
later = 3602 * second

abbrev targets : List Target
targets = photo_entry (bytes "a") (bytes "q") ∷ incoming_entry (bytes "upload-1.tmp") ∷ []

collected : (gc_targets any_uuid tree later world.db).0 ≡ ok targets
unfolding gc_targets walk_albums walk_photos and_then list_photo_refs statement text_dec any
collected = refl

gc_targets-spared_example : any (is_photo_entry (bytes "a") (bytes "p")) targets ≡ false
unfolding text_dec any all
gc_targets-spared_example =
    gc_targets-spared any_uuid tree later (bytes "a") (bytes "p") world.db targets refl collected

gc_targets-found_example : any (is_photo_entry (bytes "a") (bytes "q")) targets ≡ true
unfolding text_dec any is_known
gc_targets-found_example =
    gc_targets-found any_uuid tree later (bytes "a") (bytes "q") world.db targets refl refl refl
      collected
