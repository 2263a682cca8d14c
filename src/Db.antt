-- ===== src/Db.antt =====
-- backend/internal/db: the tables, and the statements that the server runs on them.
-- A table is the list of its rows, oldest first. A column that holds NULL for "" is the empty text.
-- Times are numbers. SQLite itself is not modelled: a statement does what its SQL text says, and
-- `faults` is the schedule of the driver's failures, one entry for each statement.
pub mod Albums
pub mod Photos
pub mod Summary
pub mod Folders
pub mod Lists
pub mod Keys
pub mod Consistent
use photogallery.Prelude.{ℕ, Bool, true, false, Option, none, some, List, [], ◌∷◌, if◌then◌else◌}
use photogallery.Prelude.Text.{Text, is_empty, ◌==◌}
use photogallery.Exec.{Result, ok, err, Exec}

-- The sentinel errors; `driver` stands for every other error.
pub data DbError : Type 0 where
  not_found slug_taken photo_exists idempotency_key_taken driver : DbError

pub record Album : Type 0 where
  pub id : Text
  pub folder_id : Text
  pub slug : Text
  pub name : Text
  pub description : Text
  pub password_hash : Text
  pub password_version : ℕ
  pub is_listed : Bool
  pub cover_photo_id : Text
  pub idempotency_key : Text
  pub created_at : ℕ
  pub updated_at : ℕ

pub record Photo : Type 0 where
  pub id : Text
  pub album_id : Text
  pub lr_photo_uuid : Text
  pub filename : Text
  pub mime_type : Text
  pub size_bytes : ℕ
  pub width : ℕ
  pub height : ℕ
  pub title : Text
  pub caption : Text
  pub keywords : List Text
  pub taken_at : Text
  pub exif : Option Text
  pub content_hash : Text
  pub sort_order : ℕ
  pub variants_ready : Bool
  pub created_at : ℕ
  pub updated_at : ℕ

pub record Folder : Type 0 where
  pub id : Text
  pub parent_id : Text
  pub slug : Text
  pub name : Text
  pub idempotency_key : Text
  pub created_at : ℕ
  pub updated_at : ℕ

pub record ApiKey : Type 0 where
  pub id : Text
  pub prefix : Text
  pub hash : Text
  pub label : Text
  pub created_at : ℕ
  pub last_used_at : Option ℕ
  pub revoked_at : Option ℕ

pub record Tables : Type 0 where
  pub albums : List Album
  pub photos : List Photo
  pub folders : List Folder
  pub api_keys : List ApiKey
  pub session_secret : Option Text

pub record Db : Type 0 where
  pub tables : Tables
  pub faults : List Bool

abbrev pub Query : Type 0 → Type 0
Query A = Exec Db DbError A

-- The next statement reaches the driver.
unfoldable pub statement : Query Unit
statement db = elim db.faults [
  | [] ↦ (ok tt, db)
  | fault ∷ rest ↦ (if fault then err driver else ok tt, record db { faults = rest })
]

-- `Protected`
abbrev pub is_protected : Album → Bool
is_protected a = if is_empty a.password_hash then false else true

-- `checkAffected`
abbrev pub check_affected : Bool → Query Unit
check_affected true db = (ok tt, db)
check_affected false db = (err not_found, db)
