-- ===== src/Api.antt =====
-- backend/internal/api: the server's state, its replies, and what all handlers share.
-- An early return of a handler is a `throw` of the reply. The packages uuid, bcrypt and text are
-- parameters, and so are HMAC-SHA256 and the JSON form of a session.
mod Replies
unfoldable pub use Replies.*
pub mod Filename
pub mod Input
pub mod Boot
pub mod Keeps
pub mod Publish
pub mod Visitor
pub mod Variants
use photogallery.Prelude.{
  ℕ, ◌+◌, ◌/◌, Bool, true, false, Option, none, some, List, [], ◌∷◌, ◌++◌, if◌then◌else◌,
}
use photogallery.Prelude.Text.{Text, bytes}
use photogallery.Exec.{Result, ok, err, Exec, pure, throw, ◌>>=◌}
use photogallery.Slug.{Rand}
use photogallery.Auth.Session.{Crypto, Sessions}
use photogallery.Auth.RateLimit.{RateLimiter, second}
use photogallery.Db.{DbError, not_found, Tables, Db, Query}
use photogallery.Image.{Vips}
use photogallery.Storage.{Variant, Store, StoreError, Disk}

pub record Env : Type 0 where
  -- `uuid.Parse` succeeds, and the text is the one that `uuid.String` prints
  pub uuid_parses : Text → Bool
  pub uuid_canonical : Text → Bool
  -- the n-th draw
  pub new_uuid : ℕ → Text
  -- bcrypt with the n-th salt; none for a password that it refuses
  pub bcrypt : ℕ → Text → Option Text
  pub bcrypt_matches : Text → Text → Bool
  pub dummy_hash : Text
  pub nfkd : Text → List ℕ
  pub mark : ℕ → Bool
  pub crypto : Crypto
  -- SHA-256 in lower case hexadecimal digits
  pub to_lower : Text → Text
  pub sha256_hex : Text → Text
  -- encoding/json: an array of strings; an object, written compactly
  pub json_strings : Text → Option (List Text)
  pub json_object : Text → Option Text
  pub vips : Vips

-- `variantWorker`: a token in the channel, and the fields behind the mutex. A key of `failed` is a
-- photo's id and content hash.
pub record Worker : Type 0 where
  pub wake : Bool
  pub busy : Bool
  pub kicked : Bool
  pub failed : List Text
  pub stopped : Bool

pub record Server : Type 0 where
  pub db : Db
  pub store : Store
  pub rand : Rand
  pub draws : ℕ
  -- nanoseconds; a handler sees one time
  pub now : ℕ
  pub limiter : RateLimiter
  pub sessions : Sessions
  pub public_base_url : Text
  pub worker : Worker

-- A server whose statements do not fail.
abbrev pub calm : Server → Tables → Server
calm s t = record s { db = record { tables = t; faults = [] } }

abbrev pub Handler : Type 0 → Type 0
Handler A = Exec Server Reply A

-- `internalError`
abbrev pub internal_error : Reply
internal_error = failure 500 (bytes "internal_error")

abbrev pub reply_of_error : Reply → DbError → Reply
reply_of_error missing not_found = missing
reply_of_error missing other = internal_error

-- A query whose `ErrNotFound` has its own reply.
unfoldable pub fetch : {A : Type 0} → Query A → Reply → Handler A
fetch q missing s =
    let (r, db) = q s.db in
    (elim r [ ok a ↦ ok a | err e ↦ err (reply_of_error missing e) ], record s { db = db })

-- A query of which every error is internal.
unfoldable pub query : {A : Type 0} → Query A → Handler A
unfolding fetch
query q = fetch q internal_error

-- A query whose error the handler looks at.
unfoldable pub try_query : {A : Type 0} → Query A → Handler (Result DbError A)
try_query q s = let (r, db) = q s.db in (ok r, record s { db = db })

-- A call of the store whose error the handler looks at, or only logs.
unfoldable pub try_store : {A : Type 0} → Disk A → Handler (Result StoreError A)
try_store d s = let (r, store) = d s.store in (ok r, record s { store = store })

-- What the client sees of a handler.
unfoldable pub respond : Handler Reply → Server → Reply × Server
respond h s = let (r, s') = h s in (elim r [ ok reply ↦ reply | err reply ↦ reply ], s')

-- The next number for a drawn identifier or salt.
unfoldable pub draw : Handler ℕ
draw s = (ok s.draws, record s { draws = s.draws + 1 })

abbrev pub album_url : Server → Text → Text
album_url s slug = s.public_base_url ++ (bytes "/a/" ++ slug)

abbrev pub folder_url : Server → Text → Text
folder_url s slug = s.public_base_url ++ (bytes "/f/" ++ slug)

abbrev pub photo_url : Server → Text → Text → Text
photo_url s slug photo_id = album_url s slug ++ (bytes "?photo=" ++ photo_id)

abbrev pub unix : Server → ℕ
unix s = s.now / second
