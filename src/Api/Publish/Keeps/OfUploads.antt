-- ===== src/Api/Publish/Keeps/OfUploads.antt =====
-- Uploads and replacements of photos keep the constraints.
use photogallery.Prelude.{ℕ, Bool, true, false, Option, none, some}
use photogallery.Prelude.Text.{Text}
use photogallery.Exec.{Result, ok, err, finally}
use photogallery.Exec.Keeps.{Keeps, Keeps-bind, Keeps-finally, keeps_rules}
use photogallery.Db.{DbError, Album, Photo}
use photogallery.Db.Consistent.{Holds}
use photogallery.Db.Consistent.OfPhotos.{
  insert_photo-Keeps, update_photo-Keeps, get_photo-Keeps, get_photo_by_lr_uuid-Keeps,
  mark_variants_pending-Keeps,
}
use photogallery.Storage.{StoreError}
use photogallery.Api.{Env, Server}
use photogallery.Api.Keeps.{
  IsSound, fetch-Keeps, query-Keeps, try_query-Keeps, try_store-Keeps, draw-Keeps,
}
use photogallery.Api.Publish.Upload.{Body, Upload, abort_upload, abort_store}
use photogallery.Api.Publish.Target.{photo_found, target}
use photogallery.Api.Publish.Ingest.{
  Client, waiting, left_queue, left, or_internal, first_or_known, probed, probe_upload, undo_new,
  saved, save, hide, kick_if, write_row, kick, put_original, store_upload, ingest_upload, ingest,
  upload_photo, replace_photo,
}
use photogallery.Api.Publish.Keeps.OfFields.{apply_metadata-Keeps, read_upload-Keeps}
use photogallery.Api.Publish.Keeps.OfAlbums.{album_from_path-Keeps}

or_internal-Keeps : {A : Type 0} (r : Result StoreError A) → Keeps IsSound (or_internal r)
or_internal-Keeps (ok a) = search keeps_rules
or_internal-Keeps (err e) = search keeps_rules

photo_found-Keeps : (r : Result DbError Photo) → Keeps IsSound (photo_found r)
photo_found-Keeps (ok p) = search keeps_rules
photo_found-Keeps (err DbError.not_found) = search keeps_rules
photo_found-Keeps (err e) = record { at = λ s h. h }

target-Keeps :
    (album_id lr_uuid : Text) (p : Option Photo) → Keeps IsSound (target album_id lr_uuid p)
unfolding target
target-Keeps album_id lr_uuid (some p) = search keeps_rules
target-Keeps album_id lr_uuid none =
    search (keeps_rules, try_query-Keeps, get_photo_by_lr_uuid-Keeps, photo_found-Keeps) depth 9

kick_if-Keeps : (b : Bool) → Keeps IsSound (kick_if b)
unfolding kick
kick_if-Keeps true = record { at = λ s h. h }
kick_if-Keeps false = search keeps_rules

write_row-Keeps : (first : Bool) (photo : Photo) → Keeps Holds (write_row first photo)
write_row-Keeps true photo = insert_photo-Keeps photo
write_row-Keeps false photo = update_photo-Keeps photo

module _ (env : Env) where
  first_or_known-Keeps :
      (album_id lr_uuid : Text) (now : ℕ) (p : Option Photo)
      → Keeps IsSound (first_or_known env album_id lr_uuid now p)
  first_or_known-Keeps album_id lr_uuid now (some p) = search keeps_rules
  first_or_known-Keeps album_id lr_uuid now none = search (keeps_rules, draw-Keeps)

  probed-Keeps :
      (src dst : ℕ) (client : Client) (o : Option (ℕ × ℕ))
      → Keeps IsSound (probed env src dst client o)
  probed-Keeps src dst client none = search keeps_rules
  probed-Keeps src dst client (some (width, height)) =
      search (keeps_rules, try_store-Keeps, or_internal-Keeps) depth 9

  probe_upload-Keeps :
      (src dst : ℕ) (client : Client) → Keeps IsSound (probe_upload env src dst client)
  unfolding probe_upload
  probe_upload-Keeps src dst left_queue = search keeps_rules
  probe_upload-Keeps src dst waiting = search (keeps_rules, probed-Keeps)
  probe_upload-Keeps src dst left = search (keeps_rules, probed-Keeps)

  undo_new-Keeps :
      (first : Bool) (album_id id : Text) → Keeps IsSound (undo_new env first album_id id)
  undo_new-Keeps false album_id id = search keeps_rules
  undo_new-Keeps true album_id id = search (keeps_rules, try_store-Keeps)

  saved-Keeps :
      (first : Bool) (a : Album) (photo : Photo) (r : Result DbError (Unit {0}))
      → Keeps IsSound (saved env first a photo r)
  saved-Keeps first a photo (ok u) = search keeps_rules
  saved-Keeps first a photo (err e) = search (keeps_rules, undo_new-Keeps)

  hide-Keeps : (first : Bool) (a : Album) (photo : Photo) → Keeps IsSound (hide env first a photo)
  hide-Keeps true a photo = search keeps_rules
  hide-Keeps false a photo = search (query-Keeps, mark_variants_pending-Keeps)

  save-Keeps :
      (first with_file : Bool) (a : Album) (photo : Photo)
      → Keeps IsSound (save env first with_file a photo)
  unfolding save
  save-Keeps first with_file a photo =
      search (keeps_rules, try_query-Keeps, write_row-Keeps, saved-Keeps, kick_if-Keeps) depth 9

  put_original-Keeps :
      (first : Bool) (client : Client) (a : Album) (up : Upload) (n dst : ℕ) (photo : Photo)
      → Keeps IsSound (put_original env first client a up n dst photo)
  put_original-Keeps first client a up n dst photo =
      search
        (
          keeps_rules, probe_upload-Keeps, hide-Keeps, try_store-Keeps, or_internal-Keeps,
          save-Keeps,
        )
        depth 12

  store_upload-Keeps :
      (first : Bool) (client : Client) (a : Album) (up : Upload) (n : Option ℕ) (photo : Photo)
      → Keeps IsSound (store_upload env first client a up n photo)
  unfolding store_upload
  store_upload-Keeps first client a up none photo = save-Keeps first false a _
  store_upload-Keeps first client a up (some n) photo =
      search (keeps_rules, try_store-Keeps, or_internal-Keeps, with_thumb) depth 12
    where
      with_thumb :
          (dst : ℕ)
          → Keeps IsSound
              (finally (abort_store dst) (put_original env first client a up n dst photo))
      with_thumb dst =
          Keeps-finally (abort_store dst) (put_original env first client a up n dst photo)
            (λ s h. h) (put_original-Keeps first client a up n dst photo)

  ingest_upload-Keeps :
      (client : Client) (a : Album) (existing : Option Photo) (up : Upload)
      → Keeps IsSound (ingest_upload env client a existing up)
  unfolding ingest_upload
  ingest_upload-Keeps client a existing up =
      search
        (keeps_rules, target-Keeps, first_or_known-Keeps, apply_metadata-Keeps, store_upload-Keeps)
        depth 14

  abort_upload-IsSound : (n : Option ℕ) (s : Server) → IsSound s → IsSound (abort_upload n s)
  unfolding abort_upload
  abort_upload-IsSound none s h = h
  abort_upload-IsSound (some n) s h = h

  ingest-Keeps :
      (client : Client) (body : Body) (a : Album) (existing : Option Photo)
      → Keeps IsSound (ingest env client body a existing)
  unfolding ingest
  ingest-Keeps client body a existing = Keeps-bind _ _ (read_upload-Keeps env body) λ up.
      Keeps-finally (abort_upload up.staged) (ingest_upload env client a existing up)
        (abort_upload-IsSound up.staged) (ingest_upload-Keeps client a existing up)

  pub upload_photo-Keeps :
      (id : Text) (client : Client) (body : Body) → Keeps IsSound (upload_photo env id client body)
  unfolding upload_photo
  upload_photo-Keeps id client body = search (keeps_rules, album_from_path-Keeps, ingest-Keeps)

  pub replace_photo-Keeps :
      (id photo_id : Text) (client : Client) (body : Body)
      → Keeps IsSound (replace_photo env id photo_id client body)
  unfolding replace_photo
  replace_photo-Keeps id photo_id client body =
      search (keeps_rules, album_from_path-Keeps, fetch-Keeps, get_photo-Keeps, ingest-Keeps) depth
        12
