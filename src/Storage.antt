-- ===== src/Storage.antt =====
-- backend/internal/storage/storage.go: the photo files, as a map from (album, photo, variant) to
-- contents. A path is built from its three parts alone, so the parts stand for it. `faults` is the
-- schedule of the failures of the operating system.
pub mod Staging
pub mod Walk
use photogallery.Prelude.{
  ℕ, Bool, ◌&&◌, not, Option, none, some, List, [], ◌∷◌, if◌then◌else◌, any, find, filter,
}
use photogallery.Prelude.Text.{Text, bytes, ◌==◌}
use photogallery.Exec.{ok, err, Exec, pure, gets, or_throw, modify, throw_if, ◌>>=◌, ◌>>◌}

pub data Variant : Type 0 where
  original large medium small thumb blur : Variant

abbrev pub variant_name : Variant → Text
variant_name original = bytes "original"
variant_name large = bytes "large"
variant_name medium = bytes "medium"
variant_name small = bytes "small"
variant_name thumb = bytes "thumb"
variant_name blur = bytes "blur"

abbrev pub variants : List Variant
variants = original ∷ large ∷ medium ∷ small ∷ thumb ∷ blur ∷ []

unfoldable pub parse_variant : Text → Option Variant
parse_variant s = find (λ v. variant_name v == s) variants

abbrev pub same_variant : Variant → Variant → Bool
same_variant v w = variant_name v == variant_name w

pub record File : Type 0 where
  pub album_id : Text
  pub photo_id : Text
  pub variant : Variant
  pub contents : Text

-- A file in the incoming directory: the number of its temporary name, what is written so far, and
-- whether its descriptor is open.
pub record StagedFile : Type 0 where
  pub name : ℕ
  pub contents : Text
  pub is_open : Bool

-- `temps` is the next temporary name.
pub record Store : Type 0 where
  pub files : List File
  pub incoming : List StagedFile
  pub temps : ℕ
  pub faults : List Bool

pub data StoreError : Type 0 where
  invalid_id not_exist already_done io : StoreError

abbrev pub Disk : Type 0 → Type 0
Disk A = Exec Store StoreError A

-- The next call of the operating system.
unfoldable pub syscall : Disk Unit
syscall s = elim s.faults [
  | [] ↦ (ok tt, s)
  | fault ∷ rest ↦ (if fault then err io else ok tt, record s { faults = rest })
]

abbrev pub is_photo_file : Text → Text → File → Bool
is_photo_file album_id photo_id f = (f.album_id == album_id) && (f.photo_id == photo_id)

abbrev pub is_file : Text → Text → Variant → File → Bool
is_file album_id photo_id v f = is_photo_file album_id photo_id f && same_variant f.variant v

abbrev pub file_contents : Option File → Option Text
file_contents none = none
file_contents (some f) = some f.contents

-- What lies at a path.
unfoldable pub contents_at : Text → Text → Variant → Store → Option Text
contents_at album_id photo_id v s = file_contents (find (is_file album_id photo_id v) s.files)

abbrev pub put_files : List File → Store → Store
put_files files s = record s { files = files }

-- `valid` is `validID`: the canonical text of a UUID.
module _ (valid : Text → Bool) where
  -- `Path`, and with it `PhotoDir`
  abbrev pub check_path : Text → Text → Disk Unit
  check_path album_id photo_id = throw_if (not (valid album_id && valid photo_id)) invalid_id

  -- `Open` and the reading of the whole file
  unfoldable pub open_file : Text → Text → Variant → Disk Text
  unfolding syscall
  open_file album_id photo_id v = do
    check_path album_id photo_id
    syscall
    files ← gets (λ s. s.files)
    f ← or_throw not_exist (find (is_file album_id photo_id v) files)
    pure f.contents

  unfoldable pub stat : Text → Text → Variant → Disk Unit
  unfolding syscall
  stat album_id photo_id v = do
    check_path album_id photo_id
    syscall
    files ← gets (λ s. s.files)
    throw_if (not (any (is_file album_id photo_id v) files)) not_exist

  unfoldable pub remove : Text → Text → Variant → Disk Unit
  unfolding syscall
  remove album_id photo_id v = do
    check_path album_id photo_id
    syscall
    files ← gets (λ s. s.files)
    modify (put_files (filter (λ f. not (is_file album_id photo_id v f)) files))

  unfoldable pub remove_photo : Text → Text → Disk Unit
  unfolding syscall
  remove_photo album_id photo_id = do
    check_path album_id photo_id
    syscall
    files ← gets (λ s. s.files)
    modify (put_files (filter (λ f. not (is_photo_file album_id photo_id f)) files))

  unfoldable pub remove_album : Text → Disk Unit
  unfolding syscall
  remove_album album_id = do
    throw_if (not (valid album_id)) invalid_id
    syscall
    files ← gets (λ s. s.files)
    modify (put_files (filter (λ f. not (f.album_id == album_id)) files))
