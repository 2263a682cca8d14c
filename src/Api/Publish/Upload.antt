-- ===== src/Api/Publish/Upload.antt =====
-- backend/internal/api/publish_photos.go: readUpload. The multipart reader hands over the parts with
-- their chunks; behind the limit on the body it fails with `too_large`.
use photogallery.Prelude.{
  ℕ, ◌+◌, ◌-◌, Option, none, some, List, [], ◌∷◌, ◌++◌, ltb, if◌then◌else◌, length, take,
}
use photogallery.Prelude.Text.{Text, bytes, ◌==◌}
use photogallery.Exec.{Result, ok, err, pure, throw, modify, ◌>>=◌, ◌>>◌}
use photogallery.Storage.{StoreError}
use photogallery.Storage.Staging.{new_staged, write_staged, abort_staged}
use photogallery.Api.{Env, Server, Reply, failure, Handler, internal_error, try_store}
use photogallery.Api.Publish.Metadata.{Fields, set_field}

abbrev pub max_field_len : ℕ
max_field_len = 65536

-- How reading ends.
pub data Ending : Type 0 where
  complete too_large broken : Ending

pub record Part : Type 0 where
  pub form_name : Text
  pub file_name : Text
  pub chunks : List Text
  pub ending : Ending

pub data Body : Type 0 where
  no_multipart : Body
  multipart : List Part → Ending → Body

-- `hashed` is what the hasher has taken in.
pub record Upload : Type 0 where
  pub fields : Fields
  pub staged : Option ℕ
  pub size : ℕ
  pub hashed : Text
  pub hash : Text
  pub head : Text
  pub filename : Text

abbrev pub new_upload : Upload
new_upload = record {
  fields = [];
  staged = none;
  size = 0;
  hashed = [];
  hash = [];
  head = [];
  filename = [];
}

-- `headCapture.Write`
unfoldable pub capture : Text → Text → Text
capture head p = head ++ take (3 - length head) p

abbrev pub abort_store : ℕ → Server → Server
abort_store n s = record s { store = abort_staged n s.store }

-- `upload.abort`
unfoldable pub abort_upload : Option ℕ → Server → Server
unfolding abort_staged
abort_upload none s = s
abort_upload (some n) s = abort_store n s

-- `up.abort()`, and the answer
unfoldable pub abandon : {A : Type 0} → Upload → Reply → Handler A
unfolding abort_upload
abandon up reply = do modify (abort_upload up.staged); throw reply

abbrev pub invalid_multipart : Reply
invalid_multipart = failure 400 (bytes "invalid_multipart")

abbrev pub file_too_large : Reply
file_too_large = failure 413 (bytes "file_too_large")

-- The staged file, the hasher and the head take in a chunk.
abbrev pub take_in : Text → Upload → Upload
take_in p up = record up {
  size = up.size + length p;
  hashed = up.hashed ++ p;
  head = capture up.head p;
}

abbrev pub after_write :
    Result StoreError (Unit {0})
    → Handler (Result StoreError Upload)
    → Handler (Result StoreError Upload)
after_write (ok u) next = next
after_write (err e) next = pure (err e)

-- `io.Copy`
unfoldable pub copy_chunks : ℕ → List Text → Upload → Handler (Result StoreError Upload)
unfolding try_store write_staged capture
copy_chunks n [] up = pure (ok up)
copy_chunks n (p ∷ ps) up = do
  r ← try_store (write_staged n p)
  after_write r (copy_chunks n ps (take_in p up))

abbrev pub copied : Upload → Ending → Result StoreError Upload → Handler Upload
copied up end (err e) = abandon up internal_error
copied up complete (ok up') = pure up'
copied up too_large (ok up') = abandon up file_too_large
copied up broken (ok up') = abandon up internal_error

abbrev pub stage_file : Part → Upload → Result StoreError ℕ → Handler Upload
stage_file part up (err e) = throw internal_error
stage_file part up (ok n) = do
  let up' : Upload = record up { staged = some n; filename = part.file_name }
  r ← copy_chunks n part.chunks up'
  copied up' part.ending r

abbrev pub read_file : Part → Option ℕ → Upload → Handler Upload
read_file part (some n) up = abandon up invalid_multipart
read_file part none up = do r ← try_store new_staged; stage_file part up r

unfoldable pub concat : List Text → Text
concat [] = []
concat (p ∷ ps) = p ++ concat ps

abbrev pub whole_field : Text → Ending → Option Text
whole_field b complete = some b
whole_field b end = none

-- `readField`: no more than `max_field_len + 1` bytes are read; none is either error.
unfoldable pub read_field : Text → Ending → Option Text
read_field b end = if ltb max_field_len (length b) then none else whole_field b end

abbrev pub read_value : Text → Option Text → Upload → Handler Upload
read_value name none up = abandon up (failure 400 (bytes "invalid_field"))
read_value name (some v) up = pure (record up { fields = set_field name v up.fields })

unfoldable pub read_part : Part → Upload → Handler Upload
unfolding copy_chunks abandon concat read_field set_field new_staged
read_part part up =
    if part.form_name == bytes "file"
    then read_file part up.staged up
    else read_value part.form_name (read_field (concat part.chunks) part.ending) up

module _ (env : Env) where
  abbrev pub hash_of : Option ℕ → Text → Text
  hash_of none s = []
  hash_of (some n) s = env.sha256_hex s

  abbrev pub end_parts : Ending → Upload → Handler Upload
  end_parts complete up = pure (record up { hash = hash_of up.staged up.hashed })
  end_parts too_large up = abandon up file_too_large
  end_parts broken up = abandon up invalid_multipart

  -- The loop over the parts.
  unfoldable pub read_parts : List Part → Ending → Upload → Handler Upload
  unfolding read_part abandon
  read_parts [] end up = end_parts end up
  read_parts (part ∷ parts) end up = read_part part up >>= read_parts parts end

  unfoldable pub read_upload : Body → Handler Upload
  unfolding read_parts
  read_upload no_multipart = throw invalid_multipart
  read_upload (multipart parts end) = read_parts parts end new_upload
