-- ===== src/Db/Albums.antt =====
-- backend/internal/db/albums.go, and `hasIdempotencyKey` of db.go for the albums.
use mathlib.Core.List.{map}
use photogallery.Prelude.{
  Bool, true, false, ◌&&◌, ◌||◌, not, List, [], ◌∷◌, ◌++◌, if◌then◌else◌, any, find, filter,
}
use photogallery.Prelude.Text.{Text, is_empty, ◌==◌}
use photogallery.Exec.{throw, gets, or_throw, modify, throw_if, ◌>>=◌, ◌>>◌}
use photogallery.Db.{
  not_found, slug_taken, idempotency_key_taken, driver, Album, Folder, Db, Query, statement,
  check_affected,
}

abbrev pub album_has_id : Text → Album → Bool
album_has_id id a = a.id == id

abbrev pub album_has_slug : Text → Album → Bool
album_has_slug slug a = a.slug == slug

-- NULL equals no key.
abbrev pub album_has_key : Text → Album → Bool
album_has_key key a = if is_empty key then false else a.idempotency_key == key

abbrev pub folder_has_id : Text → Folder → Bool
folder_has_id id f = f.id == id

-- A foreign key that may be NULL.
abbrev pub folder_known : List Folder → Text → Bool
folder_known fs id = if is_empty id then true else any (folder_has_id id) fs

abbrev pub put_albums : List Album → Db → Db
put_albums albums db = record db { tables = record db.tables { albums = albums } }

-- What the caller is told of a unique violation other than that of the id.
unfoldable pub album_conflict : Text → Query Unit
album_conflict key = do
  if is_empty key then (throw slug_taken) else do
    statement
    albums ← gets (λ db. db.tables.albums)
    if any (album_has_key key) albums then throw idempotency_key_taken else throw slug_taken

unfoldable pub create_album : Album → Query Unit
unfolding album_conflict
create_album a = do
  statement
  t ← gets (λ db. db.tables)
  if any (album_has_id a.id) t.albums
      then throw driver
      else if any (album_has_slug a.slug) t.albums || any (album_has_key a.idempotency_key) t.albums
      then album_conflict a.idempotency_key
      else if folder_known t.folders a.folder_id
      then modify (put_albums (t.albums ++ a ∷ []))
      else throw driver

unfoldable pub get_album : Text → Query Album
get_album id = do
  statement
  albums ← gets (λ db. db.tables.albums)
  or_throw not_found (find (album_has_id id) albums)

unfoldable pub get_album_by_slug : Text → Query Album
get_album_by_slug slug = do
  statement
  albums ← gets (λ db. db.tables.albums)
  or_throw not_found (find (album_has_slug slug) albums)

unfoldable pub get_album_by_idempotency_key : Text → Query Album
get_album_by_idempotency_key key = do
  statement
  albums ← gets (λ db. db.tables.albums)
  or_throw not_found (find (album_has_key key) albums)

-- The columns that `UPDATE albums` sets.
abbrev pub assign_album : Album → Album → Album
assign_album a row = record row {
  folder_id = a.folder_id;
  name = a.name;
  description = a.description;
  password_hash = a.password_hash;
  password_version = a.password_version;
  is_listed = a.is_listed;
  cover_photo_id = a.cover_photo_id;
  updated_at = a.updated_at;
}

abbrev pub set_album : Album → Album → Album
set_album a row = if album_has_id a.id row then assign_album a row else row

unfoldable pub update_album : Album → Query Unit
update_album a = do
  statement
  t ← gets (λ db. db.tables)
  throw_if (any (album_has_id a.id) t.albums && not (folder_known t.folders a.folder_id)) driver
  modify (put_albums (map (set_album a) t.albums))
  check_affected (any (album_has_id a.id) t.albums)

-- ON DELETE CASCADE takes the album's photos.
unfoldable pub delete_album : Text → Query Unit
delete_album id = do
  statement
  t ← gets (λ db. db.tables)
  modify (λ db. record db {
    tables = record t {
      albums = filter (λ a. not (album_has_id id a)) t.albums;
      photos = filter (λ p. not (p.album_id == id)) t.photos;
    };
  })
  check_affected (any (album_has_id id) t.albums)
