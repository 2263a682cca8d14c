-- ===== src/Tests/Publishing.antt =====
-- The theorems on the publish endpoints and on the tables at concrete inputs.
use photogallery.Prelude.{
  ℕ, ◌≡◌, refl, true, false, none, some, List, [], ◌∷◌, any, all, distinct, find, filter, length,
  ◌⊎◌,
}
use photogallery.Prelude.Text.{Text, bytes, text_dec}
use photogallery.Prelude.Space.{trim_space, skip_space, skip_space_back}
use photogallery.Exec.{ok, err}
use photogallery.Exec.Keeps.{Keeps}
use photogallery.Db.{Album}
use photogallery.Db.Photos.{photo_before, sort_by, is_visible_in}
use photogallery.Db.Folders.{delete_folder}
use photogallery.Db.Summary.{summary}
use photogallery.Db.Summary.Agrees.{lists, summary-agrees}
use photogallery.Db.Consistent.{Holds}
use photogallery.Db.Consistent.Cascade.{delete_folder-Keeps}
use photogallery.Api.Keeps.{IsSound}
use photogallery.Api.Input.{decoded}
use photogallery.Api.Publish.Auth.{require_api_key}
use photogallery.Api.Publish.Auth.Sound.{
  opens, IsRefused, Runs, require_api_key-IsRefused, require_api_key-Runs,
}
use photogallery.Api.Publish.Albums.{AlbumInput, hash_password}
use photogallery.Api.Publish.Updates.{set_name, set_cover, change_password, update_album_handler}
use photogallery.Api.Publish.Versions.Rows.{IsNext}
use photogallery.Api.Input.{decode_json}
use photogallery.Api.Publish.Versions.{update_album_handler-IsNext}
use photogallery.Db.Albums.{album_has_id, get_album, update_album}
use photogallery.Api.{fetch, query, draw}
use photogallery.Api.Publish.Albums.{album_from_path, set_parent}
use photogallery.Api.Publish.Routes.{
  PublishCall, PublishRequest, create_album, upload, handler, serve_all,
}
use photogallery.Api.Publish.Routes.Sound.{serve_all-IsSound}
use photogallery.Api.Publish.Upload.{no_multipart}
use photogallery.Api.Publish.Ingest.{waiting}
use mathlib.Core.List.{map}
use photogallery.Db.{Db, Photo, Tables, driver, statement}
use photogallery.Tests.World.{photo}
use photogallery.Db.Photos.{set_photo_order, transaction, renumber, number_photos}
use photogallery.Db.Photos.Order.{place, placed, with_photos, set_photo_order-placed}
use photogallery.Db.Photos.Order.Whole.{AllOrNone, set_photo_order-AllOrNone}
use photogallery.Tests.World.{env, album, tables, world}

world-IsSound : IsSound world
unfolding distinct all any text_dec
world-IsSound = record {
  albums = refl;
  photos = refl;
  folders = refl;
  photo_albums = refl;
  album_folders = refl;
  folder_parents = refl;
}

abbrev digest : Text → Text
digest s = s

abbrev header : Text
header = bytes "Bearer abcdefghijklmnop"

abbrev forged : Text
forged = bytes "Bearer abcdefghijklmnoq"

abbrev input : AlbumInput
input = record {
  name = some (bytes "Trip");
  description = none;
  password = none;
  is_listed = none;
  cover_photo_id = none;
  parent_id = none;
  idempotency_key = some (bytes "k1");
}

abbrev requests : List PublishRequest
requests =
    record { header = header; call = create_album (decoded input) }
    ∷ record { header = header; call = PublishCall.delete_folder (bytes "f") }
    ∷ record { header = header; call = upload (bytes "a") waiting no_multipart }
    ∷ []

serve_all-IsSound_example : IsSound (serve_all env digest requests world)
serve_all-IsSound_example = serve_all-IsSound env digest requests world world-IsSound

delete_folder-Keeps_example : Keeps Holds (delete_folder (bytes "f"))
delete_folder-Keeps_example = delete_folder-Keeps (bytes "f")

forged-no_key : any (opens digest forged) world.db.tables.api_keys ≡ false
unfolding any text_dec trim_space skip_space skip_space_back
forged-no_key = refl

require_api_key-IsRefused_example :
    IsRefused world
      (require_api_key digest forged (handler env (PublishCall.delete_folder (bytes "f"))) world)
require_api_key-IsRefused_example =
    require_api_key-IsRefused digest forged (handler env (PublishCall.delete_folder (bytes "f")))
      world forged-no_key

header-key : any (opens digest header) tables.api_keys ≡ true
unfolding any text_dec trim_space skip_space skip_space_back
header-key = refl

require_api_key-Runs_example :
    Runs
      (require_api_key digest header (handler env (PublishCall.delete_folder (bytes "f"))))
      (handler env (PublishCall.delete_folder (bytes "f")))
      world
      tables
require_api_key-Runs_example =
    require_api_key-Runs digest header (handler env (PublishCall.delete_folder (bytes "f"))) world
      tables header-key

summary-agrees_example :
    ((summary tables.photos album).photo_count
      ≡ length (sort_by photo_before (filter (is_visible_in album.id) tables.photos)))
    × ((lists
            (summary tables.photos album).resolved_cover
            (sort_by photo_before (filter (is_visible_in album.id) tables.photos))
          ≡ true)
        ⊎ ((summary tables.photos album).photo_count ≡ 0))
summary-agrees_example = summary-agrees tables.photos album

abbrev new_password : AlbumInput
new_password = record input { password = some (bytes "new") }

album-found : find (album_has_id (bytes "a")) world.db.tables.albums ≡ some album
unfolding find text_dec
album-found = refl

-- The update is stored, under the next version.
password-changed :
    map {A = Album} {B = Text × ℕ}
      (λ a. (a.password_hash, a.password_version))
      (update_album_handler env (bytes "a") (decoded new_password) world).1.db.tables.albums
    ≡ (bytes "new", 2) ∷ []
unfolding update_album_handler album_from_path fetch query get_album statement decode_json set_name
    set_parent set_cover change_password hash_password draw update_album find any text_dec
password-changed = refl

update_album_handler-IsNext_example :
    IsNext
      (bytes "a")
      album
      (update_album_handler env (bytes "a") (decoded new_password) world).1.db.tables.albums
update_album_handler-IsNext_example =
    update_album_handler-IsNext env (bytes "a") (decoded new_password) world (bytes "a") album
      album-found

-- A second photo, and an order that names one photo twice.
abbrev second_photo : Photo
second_photo = record photo { id = bytes "q"; lr_photo_uuid = bytes "lr2"; sort_order = 9 }

abbrev two_photos : Tables
two_photos = record tables { photos = photo ∷ second_photo ∷ [] }

abbrev order : List Text
order = bytes "q" ∷ bytes "x" ∷ bytes "q" ∷ []

set_photo_order-placed_example :
    set_photo_order (bytes "a") order (with_photos two_photos two_photos.photos)
    ≡ (ok tt, with_photos two_photos (map (placed (bytes "a") order) two_photos.photos))
set_photo_order-placed_example = set_photo_order-placed (bytes "a") order two_photos

placed_runs :
    ((placed (bytes "a") order photo).sort_order ≡ 4)
    × ((placed (bytes "a") order second_photo).sort_order ≡ 3)
unfolding place text_dec
placed_runs = (refl, refl)

abbrev failing : Db
failing = record { tables = two_photos; faults = false ∷ false ∷ true ∷ [] }

-- The loop has renumbered nothing but the album as a whole when its first statement fails.
order-fails : (set_photo_order (bytes "a") order failing).0 ≡ err driver
unfolding set_photo_order transaction renumber number_photos statement text_dec
order-fails = refl

set_photo_order-AllOrNone_example :
    AllOrNone
      (bytes "a")
      two_photos
      order
      (set_photo_order (bytes "a") order failing).0
      (set_photo_order (bytes "a") order failing).1.tables
set_photo_order-AllOrNone_example = set_photo_order-AllOrNone (bytes "a") order failing
