-- ===== src/Api/Visitor/Tree.antt =====
-- backend/internal/api/folders.go, and listAlbums of albums.go: the pages of the folder tree.
pub mod Listed
use mathlib.Core.List.{map}
use photogallery.Prelude.{true, false, not, List, [], ◌∷◌, ◌++◌, if◌then◌else◌}
use photogallery.Prelude.Text.{Text, bytes, is_empty}
use photogallery.Exec.{pure, throw_if, ◌>>=◌, ◌>>◌}
use photogallery.Slug.{valid_slug}
use photogallery.Db.Folders.{get_folder_by_slug}
use photogallery.Db.Lists.{FolderSummary, list_child_folders, list_album_summaries_in}
use photogallery.Api.{
  FolderListItem, Reply, failure, gallery_page, folder_page, Handler, fetch, query,
}
use photogallery.Api.Visitor.Pages.{api_album_path, list_item, folder_breadcrumb}

abbrev pub folder_missing : Reply
folder_missing = failure 404 (bytes "folder_not_found")

abbrev pub folder_item : FolderSummary → FolderListItem
folder_item sum = record {
  slug = sum.folder.slug;
  name = sum.folder.name;
  cover_url =
      if is_empty sum.cover_album_slug
      then []
      else api_album_path sum.cover_album_slug ++ bytes "/cover";
}

unfoldable pub list_albums : Handler Reply
unfolding query
list_albums = do
  folders ← query (list_child_folders [])
  sums ← query (list_album_summaries_in [] true)
  pure (gallery_page (map folder_item folders) (map list_item sums))

unfoldable pub get_folder_page : Text → Handler Reply
unfolding fetch query folder_breadcrumb
get_folder_page slug = do
  throw_if (not (valid_slug slug)) folder_missing
  f ← fetch (get_folder_by_slug slug) folder_missing
  crumbs ← folder_breadcrumb f.parent_id
  folders ← query (list_child_folders f.id)
  sums ← query (list_album_summaries_in f.id true)
  pure (
      folder_page (record {
        slug = f.slug;
        name = f.name;
        breadcrumb = crumbs;
        folders = map folder_item folders;
        albums = map list_item sums;
      }))
