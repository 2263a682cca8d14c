-- ===== src/Tests/Zipping.antt =====
-- A download of an open album with two photos of the same name up to case.
use photogallery.Prelude.{
  ℕ, ◌+◌, ◌<◌, ◌≡◌, refl, ap, true, none, some, [], ◌∷◌, ◌++◌, arith, any, find, filter,
}
use photogallery.Prelude.Decimal.{decimal}
use photogallery.Prelude.Text.{Text, bytes, text_dec}
use photogallery.Exec.{ok}
use photogallery.Slug.{valid_slug, slug_re_from}
use photogallery.Db.{Photo, statement}
use photogallery.Db.Albums.{get_album_by_slug}
use photogallery.Db.Photos.{list_ready_photos, sort_by, insert_by, text_lt}
use photogallery.Storage.{File, original, open_file, syscall}
use photogallery.Api.{Server, ZipFile, zip_file, fetch, query, try_store}
use photogallery.Api.Filename.{sanitize_filename}
use photogallery.Api.Visitor.Access.{album_access}
use photogallery.Api.Visitor.Download.{
  Seen, count, extension, find_free, unique_zip_name, zip_photos, download_album,
}
use photogallery.Api.Visitor.Download.Enough.{unique_zip_name-returns}
use photogallery.Api.Visitor.Download.Sent.{IsZip, download_album-IsZip}
use photogallery.Tests.World.{env, album, photo, tables, world, lower}

abbrev second_photo : Photo
second_photo = record photo { id = bytes "q"; filename = bytes "P.JPG" }

abbrev original_of : Text → Text → File
original_of id contents = record {
  album_id = bytes "a";
  photo_id = id;
  variant = original;
  contents = contents;
}

abbrev open_world : Server
open_world = record world {
  db = record {
    tables = record tables {
      albums = record album { password_hash = [] } ∷ [];
      photos = photo ∷ second_photo ∷ [];
    };
    faults = [];
  };
  store = record world.store {
    files = original_of (bytes "p") (bytes "one") ∷ original_of (bytes "q") (bytes "two") ∷ [];
  };
}

abbrev zip : ZipFile
zip = record {
  filename = bytes "Trip.zip";
  entries = (bytes "P.JPG", bytes "two") ∷ (bytes "p-2.jpg", bytes "one") ∷ [];
  is_whole = true;
}

zip_asked : (download_album env 1 [] none (bytes "trip") open_world).0 ≡ ok (zip_file zip)
unfolding download_album fetch query get_album_by_slug list_ready_photos sort_by insert_by text_lt
    statement find any filter valid_slug slug_re_from album_access try_store open_file syscall
    text_dec sanitize_filename decimal zip_photos unique_zip_name count extension find_free
zip_asked = refl

download_album-IsZip_example : IsZip env open_world 1 none (bytes "trip") zip
download_album-IsZip_example =
    download_album-IsZip env open_world 1 none (bytes "trip") [] zip zip_asked

lower-dash : (s t : Text) → lower (s ++ b'-' ∷ t) ≡ lower s ++ b'-' ∷ lower t
lower-dash [] t = refl
lower-dash (c ∷ s) t = ap (λ u. lower (c ∷ []) ++ u) (lower-dash s t)

lower-digit : (d : ℕ) (t : Text) → d < 10 → lower ((48 + d) ∷ t) ≡ (48 + d) ∷ lower t
lower-digit d t h = ground (arith, h)

unique_zip_name-returns_example :
    (r : Text × Seen) × (unique_zip_name lower ((bytes "p.jpg", 1) ∷ []) (bytes "P.JPG") ≡ some r)
unique_zip_name-returns_example =
    unique_zip_name-returns lower lower-dash lower-digit ((bytes "p.jpg", 1) ∷ []) (bytes "P.JPG")
