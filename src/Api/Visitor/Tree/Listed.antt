-- ===== src/Api/Visitor/Tree/Listed.antt =====
-- What the page of a folder lists.
use mathlib.Core.List.{map, reverse}
use photogallery.Prelude.{◌+◌, [], ◌∷◌, length, ◌≡◌, true, some, List, find, All}
use photogallery.Prelude.Text.{Text}
use photogallery.Exec.Ensures.{Ensures}
use photogallery.Db.{Folder}
use photogallery.Db.Folders.{folder_has_slug, walk_up}
use photogallery.Db.Lists.{album_summaries_in, child_folders}
use photogallery.Db.Lists.Covered.{IsListedIn}
use photogallery.Api.{Crumb, Server, Reply, FolderDetail, folder_page}
use photogallery.Api.Visitor.Pages.{list_item, to_crumb}
use photogallery.Api.Visitor.Tree.{folder_item}

-- The folders above, the outermost first.
abbrev pub ancestors : List Folder → Text → List Folder
ancestors folders [] = []
ancestors folders (c ∷ id) = reverse (walk_up (length folders + 1) folders (c ∷ id))

-- What a folder's page shows: its name, the folders above it, its lists, and no album that is not
-- listed.
pub record IsFolderPage (s : Server) (slug : Text) (d : FolderDetail) : Type 0 where
  pub folder : Folder
  pub named : find (folder_has_slug slug) s.db.tables.folders ≡ some folder
  pub slug_is : d.slug ≡ slug
  pub name_is : d.name ≡ folder.name
  pub breadcrumb : d.breadcrumb ≡ map to_crumb (ancestors s.db.tables.folders folder.parent_id)
  pub folders : d.folders ≡ map folder_item (child_folders folder.id s.db.tables)
  pub albums : d.albums ≡ map list_item (album_summaries_in folder.id true s.db.tables)
  pub listed : All (IsListedIn folder.id) (album_summaries_in folder.id true s.db.tables)

abbrev OnlyFolderPage : Server → Text → Reply → Type 0
OnlyFolderPage s slug (folder_page d) = IsFolderPage s slug d
OnlyFolderPage s slug other = Unit

module _ (s0 : Server) where
  abbrev Above : Text → List Crumb → Type 0
  Above id crumbs = crumbs ≡ map to_crumb (ancestors s0.db.tables.folders id)
