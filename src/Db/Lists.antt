-- ===== src/Db/Lists.antt =====
-- backend/internal/db/folders.go: ListChildFolders and ListAlbumSummariesIn, the lists of a folder.
-- Rows that the order leaves equal come in the order of the table.
pub mod Beneath
pub mod Covered
use mathlib.Core.List.{map}
use photogallery.Prelude.{
  ℕ, ◌+◌, Bool, true, false, ◌&&◌, not, Option, none, some, List, [], ◌∷◌, ltb, if◌then◌else◌, any,
  find, filter, length,
}
use photogallery.Prelude.Text.{Text, is_empty, ◌==◌}
use photogallery.Exec.{gets, pure, ◌>>=◌, ◌>>◌}
use photogallery.Db.{Album, Photo, Folder, Tables, Query, statement}
use photogallery.Db.Photos.{text_lt, sort_by, is_visible_in}
use photogallery.Db.Folders.{in_folder, subtree}
use photogallery.Db.Summary.{AlbumSummary, latest, summary}

-- `ORDER BY taken_to DESC, created_at DESC`
abbrev pub newer : AlbumSummary → AlbumSummary → Bool
newer s z =
    if s.taken_to == z.taken_to
    then ltb z.album.created_at s.album.created_at
    else text_lt z.taken_to s.taken_to

abbrev pub is_in : Text → Bool → Album → Bool
is_in folder_id listed_only a =
    (a.folder_id == folder_id) && (if listed_only then a.is_listed else true)

unfoldable pub album_summaries_in : Text → Bool → Tables → List AlbumSummary
unfolding summary sort_by
album_summaries_in folder_id listed_only t =
    sort_by newer (map (summary t.photos) (filter (is_in folder_id listed_only) t.albums))

unfoldable pub list_album_summaries_in : Text → Bool → Query (List AlbumSummary)
unfolding album_summaries_in
list_album_summaries_in folder_id listed_only = do
  statement
  t ← gets (λ db. db.tables)
  pure (album_summaries_in folder_id listed_only t)

pub record FolderSummary : Type 0 where
  pub folder : Folder
  pub cover_album_slug : Text
  pub newest_taken_at : Text

abbrev pub is_listed_in : List Text → Album → Bool
is_listed_in ids a = a.is_listed && in_folder ids a

-- The rows of `av` for a folder, the newest first: the listed albums in it or beneath it.
unfoldable pub albums_beneath : Tables → Folder → List AlbumSummary
unfolding subtree summary sort_by
albums_beneath t f =
    let ids = subtree (length t.folders + 1) t.folders (f.id ∷ []) in
    sort_by newer (map (summary t.photos) (filter (is_listed_in ids) t.albums))

-- `has_cover`
abbrev pub has_cover : List Photo → AlbumSummary → Bool
has_cover photos s = any (is_visible_in s.album.id) photos

abbrev pub slug_of : Option AlbumSummary → Text
slug_of none = []
slug_of (some s) = s.album.slug

unfoldable pub folder_summary : Tables → Folder → FolderSummary
unfolding albums_beneath latest
folder_summary t f = record {
  folder = f;
  cover_album_slug = slug_of (find (has_cover t.photos) (albums_beneath t f));
  newest_taken_at = latest (map (λ s. s.taken_to) (albums_beneath t f));
}

abbrev pub has_albums : List AlbumSummary → Bool
has_albums [] = false
has_albums (s ∷ sums) = true

abbrev pub is_shown_in : Tables → Text → Folder → Bool
is_shown_in t parent_id f = (f.parent_id == parent_id) && has_albums (albums_beneath t f)

abbrev pub name_before : FolderSummary → FolderSummary → Bool
name_before f g = text_lt f.folder.name g.folder.name

unfoldable pub child_folders : Text → Tables → List FolderSummary
unfolding folder_summary sort_by
child_folders parent_id t =
    sort_by name_before (map (folder_summary t) (filter (is_shown_in t parent_id) t.folders))

unfoldable pub list_child_folders : Text → Query (List FolderSummary)
unfolding child_folders
list_child_folders parent_id = do
  statement
  t ← gets (λ db. db.tables)
  pure (child_folders parent_id t)
