-- ===== src/Api/Publish/Keeps/OfFields.antt =====
-- Reading an upload and its text fields keeps the constraints.
use photogallery.Prelude.{ℕ, Option, none, some, List, [], ◌∷◌, arith}
use photogallery.Prelude.Text.{Text}
use photogallery.Exec.{Result, ok, err}
use photogallery.Exec.Keeps.{Keeps, Keeps-bind, keeps_rules}
use photogallery.Db.{Photo}
use photogallery.Storage.{StoreError}
use photogallery.Api.{Env, Reply}
use photogallery.Api.Keeps.{IsSound, try_store-Keeps}
use photogallery.Api.Publish.Metadata.{
  Fields, set_taken_at, take_time, set_keywords, with_keywords, parse_keywords, set_exif,
  trimmed_exif, with_exif, apply_metadata,
}
use photogallery.Api.Publish.Upload.{
  Ending, complete, too_large, broken, Part, Body, no_multipart, multipart, Upload, abort_upload,
  abandon, after_write, copy_chunks, copied, stage_file, read_file, read_value, read_part,
  end_parts, read_parts, read_upload, take_in, new_upload,
}

abandon-Keeps :
    {A : Type 0} (up : Upload) (reply : Reply) → Keeps IsSound (abandon {A = A} up reply)
unfolding abandon abort_upload
abandon-Keeps up reply = record { at = λ s h. ground (arith, h) }

after_write-Keeps :
    (up : Upload) (r : Result StoreError (Unit {0})) (n : ℕ) (ps : List Text)
    → Keeps IsSound (copy_chunks n ps up)
    → Keeps IsSound (after_write r (copy_chunks n ps up))
after_write-Keeps up (ok u) n ps k = k
after_write-Keeps up (err e) n ps k = search keeps_rules

copy_chunks-Keeps : (n : ℕ) (ps : List Text) (up : Upload) → Keeps IsSound (copy_chunks n ps up)
unfolding copy_chunks
copy_chunks-Keeps n [] up = search keeps_rules
copy_chunks-Keeps n (p ∷ ps) up =
    Keeps-bind _ _ (try_store-Keeps _)
      (λ r. after_write-Keeps (take_in p up) r n ps (copy_chunks-Keeps n ps (take_in p up)))

copied-Keeps :
    (up : Upload) (end : Ending) (r : Result StoreError Upload) → Keeps IsSound (copied up end r)
copied-Keeps up complete (err e) = abandon-Keeps up _
copied-Keeps up too_large (err e) = abandon-Keeps up _
copied-Keeps up broken (err e) = abandon-Keeps up _
copied-Keeps up complete (ok up') = search keeps_rules
copied-Keeps up too_large (ok up') = abandon-Keeps up _
copied-Keeps up broken (ok up') = abandon-Keeps up _

stage_file-Keeps :
    (part : Part) (up : Upload) (r : Result StoreError ℕ) → Keeps IsSound (stage_file part up r)
stage_file-Keeps part up (err e) = search keeps_rules
stage_file-Keeps part up (ok n) = search (keeps_rules, copy_chunks-Keeps, copied-Keeps)

read_file-Keeps : (part : Part) (n : Option ℕ) (up : Upload) → Keeps IsSound (read_file part n up)
read_file-Keeps part none up = search (keeps_rules, try_store-Keeps, stage_file-Keeps)
read_file-Keeps part (some n) up = abandon-Keeps up _

read_value-Keeps :
    (name : Text) (v : Option Text) (up : Upload) → Keeps IsSound (read_value name v up)
read_value-Keeps name none up = abandon-Keeps up _
read_value-Keeps name (some v) up = search keeps_rules

read_part-Keeps : (part : Part) (up : Upload) → Keeps IsSound (read_part part up)
unfolding read_part
read_part-Keeps part up = search (keeps_rules, read_file-Keeps, read_value-Keeps)

take_time-Keeps : (v : Text) (photo : Photo) → Keeps IsSound (take_time v photo)
take_time-Keeps v photo = search keeps_rules

set_taken_at-Keeps : (v : Option Text) (photo : Photo) → Keeps IsSound (set_taken_at v photo)
unfolding set_taken_at
set_taken_at-Keeps none photo = search keeps_rules
set_taken_at-Keeps (some v) photo = take_time-Keeps _ photo

module _ (env : Env) where
  with_keywords-Keeps :
      (kws : Option (List Text)) (photo : Photo) → Keeps IsSound (with_keywords env kws photo)
  with_keywords-Keeps none photo = search keeps_rules
  with_keywords-Keeps (some kws) photo = search keeps_rules

  set_keywords-Keeps : (v : Option Text) (photo : Photo) → Keeps IsSound (set_keywords env v photo)
  unfolding set_keywords
  set_keywords-Keeps none photo = search keeps_rules
  set_keywords-Keeps (some v) photo = with_keywords-Keeps (parse_keywords env v) photo

  with_exif-Keeps : (v : Option Text) (photo : Photo) → Keeps IsSound (with_exif env v photo)
  with_exif-Keeps none photo = search keeps_rules
  with_exif-Keeps (some v) photo = search keeps_rules

  trimmed_exif-Keeps : (v : Text) (photo : Photo) → Keeps IsSound (trimmed_exif env v photo)
  trimmed_exif-Keeps [] photo = search keeps_rules
  trimmed_exif-Keeps (c ∷ v) photo = with_exif-Keeps _ photo

  set_exif-Keeps : (v : Option Text) (photo : Photo) → Keeps IsSound (set_exif env v photo)
  unfolding set_exif
  set_exif-Keeps none photo = search keeps_rules
  set_exif-Keeps (some v) photo = trimmed_exif-Keeps _ photo

  pub apply_metadata-Keeps :
      (photo : Photo) (f : Fields) → Keeps IsSound (apply_metadata env photo f)
  unfolding apply_metadata
  apply_metadata-Keeps photo f =
      search (keeps_rules, set_taken_at-Keeps, set_keywords-Keeps, set_exif-Keeps)

  end_parts-Keeps : (end : Ending) (up : Upload) → Keeps IsSound (end_parts env end up)
  end_parts-Keeps complete up = search keeps_rules
  end_parts-Keeps too_large up = abandon-Keeps up _
  end_parts-Keeps broken up = abandon-Keeps up _

  read_parts-Keeps :
      (parts : List Part) (end : Ending) (up : Upload) → Keeps IsSound (read_parts env parts end up)
  unfolding read_parts
  read_parts-Keeps [] end up = end_parts-Keeps end up
  read_parts-Keeps (part ∷ parts) end up =
      Keeps-bind _ _ (read_part-Keeps part up) (read_parts-Keeps parts end)

  pub read_upload-Keeps : (body : Body) → Keeps IsSound (read_upload env body)
  unfolding read_upload
  read_upload-Keeps no_multipart = search keeps_rules
  read_upload-Keeps (multipart parts end) = read_parts-Keeps parts end new_upload
