-- ===== src/Api/Replies.antt =====
-- backend/internal/api: the bodies of the answers, and the answers.
use photogallery.Prelude.{ℕ, Bool, Option, List}
use photogallery.Prelude.Text.{Text}
use photogallery.Storage.{Variant}

pub record AlbumOutput : Type 0 where
  pub id : Text
  pub slug : Text
  pub url : Text
  pub name : Text
  pub protected : Bool
  pub is_listed : Bool

pub record FolderOutput : Type 0 where
  pub id : Text
  pub slug : Text
  pub url : Text
  pub name : Text

pub record PublishedPhoto : Type 0 where
  pub id : Text
  pub lr_photo_uuid : Text
  pub content_hash : Text
  pub filename : Text

pub record Crumb : Type 0 where
  pub slug : Text
  pub name : Text

pub record PhotoJson : Type 0 where
  pub id : Text
  pub filename : Text
  pub width : ℕ
  pub height : ℕ
  pub title : Text
  pub caption : Text
  pub keywords : List Text
  pub taken_at : Text
  pub exif : Option Text
  pub url_base : Text

pub record AlbumListItem : Type 0 where
  pub slug : Text
  pub name : Text
  pub description : Text
  pub locked : Bool
  pub photo_count : ℕ
  pub taken_from : Text
  pub taken_to : Text
  pub cover_url : Text

pub record AlbumDetail : Type 0 where
  pub item : AlbumListItem
  pub breadcrumb : List Crumb
  pub cover_photo_id : Text
  pub download_url : Text
  pub photos : List PhotoJson

pub record Locked : Type 0 where
  pub slug : Text
  pub name : Text
  pub photo_count : ℕ

pub record Served : Type 0 where
  pub variant : Variant
  pub contents : Text
  pub etag : Text
  pub cache_control : Text

pub record FolderListItem : Type 0 where
  pub slug : Text
  pub name : Text
  pub cover_url : Text

pub record FolderDetail : Type 0 where
  pub slug : Text
  pub name : Text
  pub breadcrumb : List Crumb
  pub folders : List FolderListItem
  pub albums : List AlbumListItem

-- The stream of `downloadAlbum`: the entries that were sent whole, and whether it was closed.
pub record ZipFile : Type 0 where
  pub filename : Text
  pub entries : List (Text × Text)
  pub is_whole : Bool

pub data Reply : Type 0 where
  -- `writeError`: the status and the code; the free-text message is left out
  failure : ℕ → Text → Reply
  -- `rateLimited` and the other refusals with Retry-After
  retry_after : ℕ → ℕ → Text → Reply
  no_content : Reply
  -- 200 with {"status": "ok"}
  status_ok : Reply
  -- 204 with a session cookie
  cookie_set : Text → ℕ → Reply
  album_reply : ℕ → AlbumOutput → Reply
  folder_reply : ℕ → FolderOutput → Reply
  photo_list : List PublishedPhoto → Reply
  password_required : Option Locked → List Crumb → Reply
  album_page : AlbumDetail → Reply
  gallery_page : List FolderListItem → List AlbumListItem → Reply
  folder_page : FolderDetail → Reply
  photo_file : Served → Reply
  zip_file : ZipFile → Reply
  -- {"id": …, "url": …}
  photo_stored : ℕ → Text → Text → Reply
  -- the client is gone
  no_reply : Reply
