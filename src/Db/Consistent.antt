-- ===== src/Db/Consistent.antt =====
-- The constraints of backend/internal/db/migrations, as an invariant of the tables.
pub mod OfAlbums
pub mod OfPhotos
pub mod OfFolders
pub mod Cascade
use photogallery.Prelude.{
  ◌≡◌, refl, Bool, true, false, ◌&&◌, ◌||◌, Option, none, some, List, [], ◌∷◌, arith, if◌then◌else◌,
  any, all, distinct,
}
use photogallery.Prelude.Text.{Text, is_empty, ◌==◌}
use photogallery.Exec.{Result, ok, err, ◌>>◌}
use photogallery.Exec.Keeps.{Keeps, Keeps-bind}
use photogallery.Db.{Album, Photo, Folder, Tables, Db, Query, statement}
use photogallery.Db.Albums.{album_has_id, folder_known}

-- Two albums that the unique columns rule out together.
abbrev pub album_clash : Album → Album → Bool
album_clash a b =
    (b.id == a.id)
    || ((b.slug == a.slug)
        || (if is_empty a.idempotency_key then false else b.idempotency_key == a.idempotency_key))

abbrev pub photo_clash : Photo → Photo → Bool
photo_clash p q =
    (q.id == p.id) || ((q.album_id == p.album_id) && (q.lr_photo_uuid == p.lr_photo_uuid))

abbrev pub folder_clash : Folder → Folder → Bool
folder_clash f g =
    (g.id == f.id)
    || ((g.slug == f.slug)
        || (if is_empty f.idempotency_key then false else g.idempotency_key == f.idempotency_key))

abbrev pub photo_has_album : List Album → Photo → Bool
photo_has_album albums p = any (album_has_id p.album_id) albums

abbrev pub album_has_folder : List Folder → Album → Bool
album_has_folder folders a = folder_known folders a.folder_id

abbrev pub folder_has_parent : List Folder → Folder → Bool
folder_has_parent folders f = folder_known folders f.parent_id

-- The primary keys, the unique indexes and the foreign keys hold.
pub record IsConsistent (t : Tables) : Type 0 where
  pub albums : distinct album_clash t.albums ≡ true
  pub photos : distinct photo_clash t.photos ≡ true
  pub folders : distinct folder_clash t.folders ≡ true
  pub photo_albums : all (photo_has_album t.albums) t.photos ≡ true
  pub album_folders : all (album_has_folder t.folders) t.albums ≡ true
  pub folder_parents : all (folder_has_parent t.folders) t.folders ≡ true

abbrev pub Holds : Db → Type 0
Holds db = IsConsistent db.tables

pub statement-Keeps : Keeps Holds statement
unfolding statement
statement-Keeps = record { at = λ db h. ground (arith, h) }

-- It is enough to look at what follows the statement.
pub Keeps-statement : {A : Type 0} (m : Query A) → Keeps Holds m → Keeps Holds (statement >> m)
Keeps-statement m k = Keeps-bind statement (λ _. m) statement-Keeps (λ _. k)
