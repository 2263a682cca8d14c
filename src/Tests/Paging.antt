-- ===== src/Tests/Paging.antt =====
-- The theorems on pages, covers and files at concrete inputs.
use photogallery.Prelude.{◌≡◌, refl, true, none, some, [], ◌∷◌, arith, any, find, filter}
use photogallery.Prelude.Text.{Text, bytes, text_dec}
use photogallery.Exec.{ok}
use photogallery.Slug.{valid_slug, slug_re_from}
use photogallery.Db.{statement}
use photogallery.Db.Albums.{get_album_by_slug}
use photogallery.Api.{Served, photo_file, album_page, AlbumDetail, fetch, query, try_store}
use photogallery.Db.Photos.{get_photo, list_ready_photos, sort_by, insert_by}
use photogallery.Db.Folders.{folder_chain, walk_up}
use photogallery.Db.Summary.{summary, resolve_cover, earliest, latest, get_album_summary_by_slug}
use photogallery.Storage.{thumb, blur, parse_variant, open_file, syscall}
use photogallery.Api.Visitor.Pages.{
  summary_from_path, folder_breadcrumb, detail, effective, serve_variant, get_album, album_cover,
  get_photo_variant,
}
use photogallery.Api.Visitor.Pages.Asked.{IsAsked, get_photo_variant-IsAsked}
use photogallery.Api.Visitor.Pages.Guarded.{IsShown, get_photo_variant-IsShown}
use photogallery.Api.Visitor.Pages.Listed.{IsPage, get_album-IsPage}
use photogallery.Api.Visitor.Pages.Cover.{IsCover, album_cover-IsCover}
use photogallery.Db.Photos.{text_lt}
use photogallery.Db.Folders.{subtree}
use photogallery.Db.Lists.{folder_summary, albums_beneath}
use photogallery.Db.Lists.Covered.{IsCovered, HasNone, folder_summary-IsCovered}
use photogallery.Api.{FolderDetail}
use photogallery.Api.Visitor.Pages.{list_item}
use photogallery.Tests.World.{folder}
use photogallery.Prelude.{◌⊎◌}
use photogallery.Api.Visitor.Access.{album_access}
use photogallery.Api.Visitor.Unlock.Opens.{new_cookie, album_access-new_cookie}
use photogallery.Tests.World.{env, album, photo, tables, world}
use photogallery.Tests.Visiting.{session-ReadsBack}

abbrev cookie : Text
cookie = new_cookie env world none album

cookie-opens : album_access env world (some cookie) album ≡ true
cookie-opens =
    album_access-new_cookie env world none album world session-ReadsBack refl (omega arith) album
      refl refl

abbrev sent : Served
sent = record {
  variant = thumb;
  contents = bytes "jpeg";
  etag = bytes "h-thumb";
  cache_control = bytes "private, max-age=3600";
}

thumb_asked :
    (get_photo_variant env (some cookie) (bytes "trip") (bytes "p") (bytes "thumb") world).0
    ≡ ok (photo_file sent)
unfolding get_photo_variant fetch get_album_by_slug get_photo statement find any valid_slug
    slug_re_from parse_variant serve_variant effective try_store open_file syscall text_dec
thumb_asked = rw cookie-opens refl

get_photo_variant-IsShown_example : IsShown env world (some cookie) (bytes "trip") (bytes "p")
get_photo_variant-IsShown_example =
    get_photo_variant-IsShown env world (some cookie) (bytes "trip") (bytes "p") (bytes "thumb")
      sent thumb_asked

get_photo_variant-IsAsked_example : IsAsked world (bytes "trip") (bytes "p") (bytes "thumb") sent
get_photo_variant-IsAsked_example =
    get_photo_variant-IsAsked env world (some cookie) (bytes "trip") (bytes "p") (bytes "thumb")
      sent thumb_asked

abbrev blurred : Served
blurred = record sent {
  variant = blur;
  etag = bytes "h-blur";
  cache_control = bytes "public, max-age=300";
}

cover_asked : (album_cover env (bytes "trip") world).0 ≡ ok (photo_file blurred)
unfolding album_cover summary_from_path fetch query get_album_summary_by_slug summary resolve_cover
    earliest latest get_photo statement find any filter valid_slug slug_re_from serve_variant
    effective try_store open_file syscall text_dec
cover_asked = refl

album_cover-IsCover_example : IsCover world (bytes "trip") blurred
album_cover-IsCover_example = album_cover-IsCover env world (bytes "trip") blurred cover_asked

abbrev shown : AlbumDetail
shown =
    detail (summary tables.photos album) (record { slug = bytes "year"; name = bytes "Year" } ∷ [])
      (photo ∷ [])

page_asked : (get_album env (some cookie) (bytes "trip") world).0 ≡ ok (album_page shown)
unfolding get_album summary_from_path folder_breadcrumb fetch query get_album_summary_by_slug
    summary resolve_cover list_ready_photos sort_by insert_by folder_chain walk_up statement find
    any filter valid_slug slug_re_from text_dec
page_asked = rw cookie-opens refl

get_album-IsPage_example : IsPage env world (some cookie) (bytes "trip") shown
get_album-IsPage_example = get_album-IsPage env world (some cookie) (bytes "trip") shown page_asked

folder_summary-IsCovered_example :
    (((folder_summary tables folder).cover_album_slug ≡ []) × HasNone tables folder)
    ⊎ IsCovered tables folder (folder_summary tables folder).cover_album_slug
folder_summary-IsCovered_example = folder_summary-IsCovered tables folder

-- The one folder of the gallery gets its cover from the one album.
folder_summary_runs : (folder_summary tables folder).cover_album_slug ≡ bytes "trip"
unfolding folder_summary albums_beneath subtree summary resolve_cover sort_by insert_by find any
    filter latest earliest text_lt text_dec
folder_summary_runs = refl

abbrev tree : FolderDetail
tree = record {
  slug = bytes "year";
  name = bytes "Year";
  breadcrumb = [];
  folders = [];
  albums = list_item (summary tables.photos album) ∷ [];
}
