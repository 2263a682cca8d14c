-- ===== src/Db/Folders.antt =====
-- backend/internal/db/folders.go, and `hasIdempotencyKey` of db.go for the folders.
-- The recursive statements take as many rounds as there are folders, and one more.
use mathlib.Core.List.{map, reverse}
use photogallery.Prelude.{
  ℕ, zero, suc, ◌+◌, Bool, false, ◌&&◌, ◌||◌, not, none, some, List, [], ◌∷◌, ◌++◌, if◌then◌else◌,
  any, find, filter, length,
}
use photogallery.Prelude.Text.{Text, is_empty, ◌==◌}
use photogallery.Exec.{pure, throw, gets, or_throw, modify, throw_if, ◌>>=◌, ◌>>◌}
use photogallery.Db.{
  not_found, slug_taken, idempotency_key_taken, driver, Album, Folder, Tables, Db, Query, statement,
  check_affected,
}
use photogallery.Db.Albums.{folder_has_id, folder_known}

abbrev pub folder_has_slug : Text → Folder → Bool
folder_has_slug slug f = f.slug == slug

abbrev pub folder_has_key : Text → Folder → Bool
folder_has_key key f = if is_empty key then false else f.idempotency_key == key

abbrev put_folders : List Folder → Db → Db
put_folders folders db = record db { tables = record db.tables { folders = folders } }

unfoldable pub folder_conflict : Text → Query Unit
folder_conflict key = do
  if is_empty key then (throw slug_taken) else do
    statement
    folders ← gets (λ db. db.tables.folders)
    if any (folder_has_key key) folders then throw idempotency_key_taken else throw slug_taken

unfoldable pub create_folder : Folder → Query Unit
unfolding folder_conflict
create_folder f = do
  statement
  t ← gets (λ db. db.tables)
  if any (folder_has_id f.id) t.folders
      then throw driver
      else if any (folder_has_slug f.slug) t.folders
          || any (folder_has_key f.idempotency_key) t.folders
      then folder_conflict f.idempotency_key
      else if folder_known t.folders f.parent_id
      then modify (put_folders (t.folders ++ f ∷ []))
      else throw driver

unfoldable pub get_folder : Text → Query Folder
get_folder id = do
  statement
  folders ← gets (λ db. db.tables.folders)
  or_throw not_found (find (folder_has_id id) folders)

unfoldable pub get_folder_by_slug : Text → Query Folder
get_folder_by_slug slug = do
  statement
  folders ← gets (λ db. db.tables.folders)
  or_throw not_found (find (folder_has_slug slug) folders)

unfoldable pub get_folder_by_idempotency_key : Text → Query Folder
get_folder_by_idempotency_key key = do
  statement
  folders ← gets (λ db. db.tables.folders)
  or_throw not_found (find (folder_has_key key) folders)

abbrev pub assign_folder : Folder → Folder → Folder
assign_folder f row = record row {
  name = f.name;
  parent_id = f.parent_id;
  updated_at = f.updated_at;
}

abbrev pub set_folder : Folder → Folder → Folder
set_folder f row = if folder_has_id f.id row then assign_folder f row else row

unfoldable pub update_folder : Folder → Query Unit
update_folder f = do
  statement
  folders ← gets (λ db. db.tables.folders)
  throw_if (any (folder_has_id f.id) folders && not (folder_known folders f.parent_id)) driver
  modify (put_folders (map (set_folder f) folders))
  check_affected (any (folder_has_id f.id) folders)

abbrev pub among : List Text → Text → Bool
among ids id = any (λ x. x == id) ids

-- The children of the folders with the given ids.
abbrev pub is_child_of : List Text → Folder → Bool
is_child_of ids f = if is_empty f.parent_id then false else among ids f.parent_id

abbrev pub children : List Text → List Folder → List Text
children ids folders = map (λ f. f.id) (filter (is_child_of ids) folders)

abbrev pub in_folder : List Text → Album → Bool
in_folder ids a = if is_empty a.folder_id then false else among ids a.folder_id

-- The rows with the given ids go, and with them their albums and those albums' photos.
unfoldable pub drop_folders : List Text → Tables → Tables
drop_folders ids t = record t {
  folders = filter (λ f. not (among ids f.id)) t.folders;
  albums = filter (λ a. not (in_folder ids a)) t.albums;
  photos = filter (λ p. not (any (λ a. in_folder ids a && (a.id == p.album_id)) t.albums)) t.photos;
}

-- ON DELETE CASCADE, one generation of folders in each round.
unfoldable pub cascade : ℕ → List Text → Tables → Tables
unfolding drop_folders
cascade zero ids t = t
cascade (suc fuel) [] t = t
cascade (suc fuel) (id ∷ ids) t =
    let t' = drop_folders (id ∷ ids) t in cascade fuel (children (id ∷ ids) t'.folders) t'

unfoldable pub delete_folder : Text → Query Unit
unfolding cascade
delete_folder id = do
  statement
  t ← gets (λ db. db.tables)
  modify (λ db. record db {
    tables =
        if any (folder_has_id id) t.folders then cascade (length t.folders + 1) (id ∷ []) t else t;
  })
  check_affected (any (folder_has_id id) t.folders)

-- The rows of `up` in `FolderChain`, the folder itself first.
unfoldable pub walk_up : ℕ → List Folder → Text → List Folder
walk_up zero folders id = []
walk_up (suc fuel) folders id = if is_empty id then [] else elim (find (folder_has_id id) folders) [
  | none ↦ []
  | some f ↦ f ∷ walk_up fuel folders f.parent_id
]

unfoldable pub folder_chain : Text → Query (List Folder)
unfolding walk_up
folder_chain [] = pure []
folder_chain (c ∷ id) = do
  statement
  folders ← gets (λ db. db.tables.folders)
  pure (reverse (walk_up (length folders + 1) folders (c ∷ id)))

-- The rows of `sub` in `SubtreeAlbumIDs`.
unfoldable pub subtree : ℕ → List Folder → List Text → List Text
subtree zero folders ids = []
subtree (suc fuel) folders [] = []
subtree (suc fuel) folders (id ∷ ids) =
    id ∷ ids ++ subtree fuel folders (children (id ∷ ids) folders)

unfoldable pub subtree_album_ids : Text → Query (List Text)
unfolding subtree
subtree_album_ids id = do
  statement
  t ← gets (λ db. db.tables)
  let ids = if any (folder_has_id id) t.folders then id ∷ [] else []
  pure
      (map (λ a. a.id) (filter (in_folder (subtree (length t.folders + 1) t.folders ids)) t.albums))
