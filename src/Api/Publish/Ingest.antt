-- ===== src/Api/Publish/Ingest.antt =====
-- backend/internal/api/publish_photos.go: uploadPhoto, replacePhoto, ingest and probeUpload; kick of
-- variants.go.
use photogallery.Prelude.{
  ℕ, Bool, true, false, ◌&&◌, ◌||◌, not, Option, none, some, eqb, if◌then◌else◌,
}
use photogallery.Prelude.Text.{Text, bytes}
use photogallery.Prelude.Space.{trim_space}
use photogallery.Exec.{
  Result, ok, err, pure, throw, gets, modify, throw_if, skip, ◌>>=◌, ◌>>◌, finally,
}
use photogallery.Db.{DbError, Album, Photo, Query}
use photogallery.Db.Photos.{insert_photo, update_photo, get_photo, mark_variants_pending}
use photogallery.Storage.{original, StoreError, remove_photo}
use photogallery.Storage.Staging.{staged_contents, new_staged, sync_staged, commit}
use photogallery.Image.{validate, is_jpeg, derive}
use photogallery.Api.{
  Env, Server, Worker, Reply, failure, no_reply, photo_stored, Handler, internal_error, fetch,
  query, try_query, try_store, draw, photo_url,
}
use photogallery.Api.Publish.Albums.{album_from_path}
use photogallery.Api.Publish.Order.{photo_not_found}
use photogallery.Api.Publish.Metadata.{field, apply_metadata}
use photogallery.Api.Publish.Target.{new_photo, target, default_name, set_file, name_from_part}
use photogallery.Api.Publish.Upload.{Body, Upload, abort_store, abort_upload, read_upload}

-- Whether the client waits for the answer: it may leave while it queues for `deriveSem`, or later.
pub data Client : Type 0 where
  waiting left_queue left : Client

-- The kick: the flag and the token. A stopped worker is only logged.
unfoldable pub kick : Worker → Worker
kick w = record w { kicked = true; wake = true }

abbrev pub kick_server : Server → Server
kick_server s = record s { worker = kick s.worker }

abbrev pub kick_if : Bool → Handler Unit
kick_if true = modify kick_server
kick_if false = skip

abbrev pub write_row : Bool → Photo → Query Unit
write_row true photo = insert_photo photo
write_row false photo = update_photo photo

-- The calls of the store of which every error is internal.
abbrev pub or_internal : {A : Type 0} → Result StoreError A → Handler A
or_internal (ok a) = pure a
or_internal (err e) = throw internal_error

abbrev pub has_file : Upload → Bool
has_file up = elim up.staged [ none ↦ false | some n ↦ true ]

abbrev pub is_new : Option Photo → Bool
is_new none = true
is_new (some p) = false

-- An unreadable file; nobody is there to answer when the client has left.
abbrev pub invalid_image : Client → Reply
invalid_image waiting = failure 422 (bytes "invalid_image")
invalid_image client = no_reply

module _ (env : Env) where
  abbrev pub first_or_known : Text → Text → ℕ → Option Photo → Handler Photo
  first_or_known album_id lr_uuid now (some p) = pure (record p { updated_at = now })
  first_or_known album_id lr_uuid now none = do
    n ← draw
    pure (new_photo (env.new_uuid n) album_id lr_uuid now)

  abbrev pub probed : ℕ → ℕ → Client → Option (ℕ × ℕ) → Handler (ℕ × ℕ)
  probed src dst client none = throw (invalid_image client)
  probed src dst client (some (width, height)) = do
    d ← try_store (derive env.vips (staged_contents src) (λ v s. (ok dst, s)) width height validate)
    derived ← or_internal d
    throw_if derived.has_failed (invalid_image client)
    pure (width, height)

  abbrev pub probe_contents : Option Text → Option (ℕ × ℕ)
  probe_contents none = none
  probe_contents (some s) = env.vips.probe s

  -- `probeUpload`, with the answer to its error. Requests run one after the other, so that
  -- `deriveSem` has a free token.
  unfoldable pub probe_upload : ℕ → ℕ → Client → Handler (ℕ × ℕ)
  unfolding derive staged_contents try_store
  probe_upload src dst left_queue = throw no_reply
  probe_upload src dst client = do
    contents ← gets (λ s. staged_contents src s.store)
    probed src dst client (probe_contents contents)

  abbrev pub undo_new : Bool → Text → Text → Handler Unit
  undo_new false album_id id = skip
  undo_new true album_id id = do r ← try_store (remove_photo env.uuid_canonical album_id id); skip

  -- After a failed insert the files of the new photo are removed again.
  abbrev pub saved : Bool → Album → Photo → Result DbError (Unit {0}) → Handler Unit
  saved first a photo (ok u) = skip
  saved first a photo (err e) = do undo_new first a.id photo.id; throw internal_error

  -- The row, the kick and the answer.
  unfoldable pub save : Bool → Bool → Album → Photo → Handler Reply
  unfolding try_query try_store kick
  save first with_file a photo = do
    r ← try_query (write_row first photo)
    saved first a photo r
    kick_if with_file
    gets (λ s. photo_stored (if first then 201 else 200) photo.id (photo_url s a.slug photo.id))

  -- A photo that is replaced is hidden first.
  abbrev pub hide : Bool → Album → Photo → Handler Unit
  hide true a photo = skip
  hide false a photo = query (mark_variants_pending a.id photo.id)

  abbrev pub put_file : ℕ → Album → Photo → Handler Unit
  put_file n a photo = do
    r ← try_store (commit env.uuid_canonical n a.id photo.id original)
    or_internal r

  abbrev pub put_original : Bool → Client → Album → Upload → ℕ → ℕ → Photo → Handler Reply
  put_original first client a up n thumb_file photo = do
    info ← probe_upload n thumb_file client
    let placed : Photo = name_from_part up (set_file up info.0 info.1 photo)
    hide first a placed
    put_file n a placed
    save first true a (default_name placed)

  -- `if up.staged != nil { … }`, and what follows it.
  unfoldable pub store_upload : Bool → Client → Album → Upload → Option ℕ → Photo → Handler Reply
  unfolding try_store query probe_upload name_from_part save commit sync_staged new_staged
  store_upload first client a up none photo = save first false a (default_name photo)
  store_upload first client a up (some n) photo = do
    throw_if (eqb up.size 0 || not (is_jpeg up.head)) (failure 415 (bytes "not_jpeg"))
    synced ← try_store (sync_staged n)
    or_internal synced
    made ← try_store new_staged
    thumb_file ← or_internal made
    finally (abort_store thumb_file) (put_original first client a up n thumb_file photo)

  unfoldable pub ingest_upload : Client → Album → Option Photo → Upload → Handler Reply
  unfolding target draw apply_metadata store_upload trim_space
  ingest_upload client a existing up = do
    let lr_uuid : Text = trim_space (field (bytes "lr_photo_uuid") up.fields)
    known ← target a.id lr_uuid existing
    throw_if (is_new known && not (has_file up)) (failure 400 (bytes "missing_file"))
    now ← gets (λ s. s.now)
    row ← first_or_known a.id lr_uuid now known
    photo ← apply_metadata env row up.fields
    store_upload (is_new known) client a up up.staged photo

  unfoldable pub ingest : Client → Body → Album → Option Photo → Handler Reply
  unfolding read_upload ingest_upload abort_upload
  ingest client body a existing = do
    up ← read_upload env body
    finally (abort_upload up.staged) (ingest_upload client a existing up)

  -- `uploadPhoto`
  unfoldable pub upload_photo : Text → Client → Body → Handler Reply
  unfolding album_from_path ingest
  upload_photo id client body = do a ← album_from_path env id; ingest client body a none

  -- `replacePhoto`
  unfoldable pub replace_photo : Text → Text → Client → Body → Handler Reply
  unfolding album_from_path fetch ingest
  replace_photo id photo_id client body = do
    a ← album_from_path env id
    throw_if (not (env.uuid_parses photo_id)) photo_not_found
    existing ← fetch (get_photo a.id photo_id) photo_not_found
    ingest client body a (some existing)
