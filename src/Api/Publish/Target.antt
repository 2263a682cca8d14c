-- ===== src/Api/Publish/Target.antt =====
-- backend/internal/api/publish_photos.go: the row that an upload is about, and what the file sets in
-- it.
use photogallery.Prelude.{ℕ, false, ◌||◌, Option, none, some, [], ◌++◌, ltb, if◌then◌else◌, length}
use photogallery.Prelude.Text.{Text, bytes, is_empty}
use photogallery.Exec.{Result, ok, err, pure, throw, throw_if, ◌>>=◌, ◌>>◌}
use photogallery.Db.{DbError, Photo}
use photogallery.Db.Photos.{get_photo_by_lr_uuid}
use photogallery.Api.{failure, Handler, internal_error, try_query}
use photogallery.Api.Filename.{sanitize_filename}
use photogallery.Api.Input.{max_name_len}
use photogallery.Api.Publish.Metadata.{field, name_after}
use photogallery.Api.Publish.Upload.{Upload}

abbrev pub jpeg : Text
jpeg = bytes "image/jpeg"

abbrev pub new_photo : Text → Text → Text → ℕ → Photo
new_photo id album_id lr_uuid now = record {
  id = id;
  album_id = album_id;
  lr_photo_uuid = lr_uuid;
  filename = [];
  mime_type = jpeg;
  size_bytes = 0;
  width = 0;
  height = 0;
  title = [];
  caption = [];
  keywords = [];
  taken_at = [];
  exif = none;
  content_hash = [];
  sort_order = 0;
  variants_ready = false;
  created_at = now;
  updated_at = now;
}

abbrev pub photo_found : Result DbError Photo → Handler (Option Photo)
photo_found (ok p) = pure (some p)
photo_found (err DbError.not_found) = pure none
photo_found (err e) = throw internal_error

-- The row that the request is about: a POST with a known `lr_photo_uuid` is an update.
unfoldable pub target : Text → Text → Option Photo → Handler (Option Photo)
unfolding try_query
target album_id lr_uuid (some p) = pure (some p)
target album_id lr_uuid none = do
  throw_if (is_empty lr_uuid || ltb max_name_len (length lr_uuid))
      (failure 400 (bytes "missing_lr_photo_uuid"))
  r ← try_query (get_photo_by_lr_uuid album_id lr_uuid)
  photo_found r

abbrev pub default_name : Photo → Photo
default_name photo =
    if is_empty photo.filename then record photo { filename = photo.id ++ bytes ".jpg" } else photo

-- The columns that describe the new file.
abbrev pub set_file : Upload → ℕ → ℕ → Photo → Photo
set_file up width height photo = record photo {
  width = width;
  height = height;
  size_bytes = up.size;
  content_hash = up.hash;
  mime_type = jpeg;
}

unfoldable pub name_from_part : Upload → Photo → Photo
unfolding sanitize_filename
name_from_part up photo =
    if is_empty photo.filename || is_empty (field (bytes "filename") up.fields)
    then name_after (sanitize_filename up.filename) photo
    else photo
