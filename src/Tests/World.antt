-- ===== src/Tests/World.antt =====
-- A gallery with one protected album, its one photo and one API key.
use photogallery.Prelude.{
  ℕ, ◌+◌, ◌*◌, ◌&&◌, leb, map, Bool, true, false, Option, none, some, List, [], ◌∷◌, ◌++◌, ltb,
  if◌then◌else◌, length, take, get_or,
}
use photogallery.Prelude.Text.{Text, bytes, ◌==◌}
use photogallery.Auth.Session.{Grant, Session, Crypto, Sessions}
use photogallery.Auth.RateLimit.{RateLimiter, second}
use photogallery.Db.{Album, Photo, Folder, ApiKey, Tables}
use photogallery.Storage.{File, Variant, thumb, blur}
use photogallery.Api.{Env, Server}

-- A session in bytes: the second of its end, and the first byte of each album with its version.
unfoldable pub marshal_grants : List Grant → Text
marshal_grants [] = []
marshal_grants (g ∷ gs) = g.version ∷ (g.album_id ++ marshal_grants gs)

unfoldable pub unmarshal_grants : Text → List Grant
unmarshal_grants [] = []
unmarshal_grants (v ∷ []) = []
unmarshal_grants (v ∷ c ∷ t) = record { album_id = c ∷ []; version = v } ∷ unmarshal_grants t

unfoldable pub marshal : Session → Text
unfolding marshal_grants
marshal sess = sess.expires ∷ marshal_grants sess.grants

unfoldable pub unmarshal : Text → Option Session
unfolding unmarshal_grants
unmarshal [] = none
unmarshal (e ∷ t) = some (record { expires = e; grants = unmarshal_grants t })

abbrev pub signature : Text → Text → Text
signature secret payload = secret

abbrev pub crypto : Crypto
crypto = record { hmac = signature; marshal = marshal; unmarshal = unmarshal }

abbrev pub any_uuid : Text → Bool
any_uuid id = true

abbrev pub fresh_uuid : ℕ → Text
fresh_uuid n = n ∷ []

abbrev pub plain_hash : ℕ → Text → Option Text
plain_hash salt pw = some pw

abbrev pub same : Text → List ℕ
same s = s

abbrev pub no_marks : ℕ → Bool
no_marks r = false

abbrev pub is_hash : Text → Text → Bool
is_hash hash pw = hash == pw

abbrev pub lower : Text → Text
lower s = map (λ c. if leb 65 c && leb c 90 then c + 32 else c) s

abbrev pub digest : Text → Text
digest s = take 8 s

abbrev pub no_strings : Text → Option (List Text)
no_strings s = none

-- A file is as wide as its fourth byte says.
abbrev pub sized : Text → Option (ℕ × ℕ)
sized s = if ltb (length s) 4 then none else some (get_or s 3 0, 1)

abbrev pub shrunk : Text → ℕ → ℕ → Bool → Option Text
shrunk s long quality is_blurred = if ltb (length s) 4 then none else some (long ∷ s)

abbrev pub env : Env
env = record {
  uuid_parses = any_uuid;
  uuid_canonical = any_uuid;
  new_uuid = fresh_uuid;
  bcrypt = plain_hash;
  bcrypt_matches = is_hash;
  dummy_hash = bytes "dummy";
  nfkd = same;
  mark = no_marks;
  crypto = crypto;
  to_lower = lower;
  sha256_hex = digest;
  json_strings = no_strings;
  json_object = some;
  vips = record { probe = sized; resize = shrunk };
}

abbrev pub album : Album
album = record {
  id = bytes "a";
  folder_id = bytes "f";
  slug = bytes "trip";
  name = bytes "Trip";
  description = [];
  password_hash = bytes "pw";
  password_version = 1;
  is_listed = true;
  cover_photo_id = bytes "p";
  idempotency_key = bytes "k1";
  created_at = 0;
  updated_at = 0;
}

abbrev pub photo : Photo
photo = record {
  id = bytes "p";
  album_id = bytes "a";
  lr_photo_uuid = bytes "lr";
  filename = bytes "p.jpg";
  mime_type = bytes "image/jpeg";
  size_bytes = 10;
  width = 4;
  height = 3;
  title = [];
  caption = [];
  keywords = [];
  taken_at = bytes "2024";
  exif = none;
  content_hash = bytes "h";
  sort_order = 0;
  variants_ready = true;
  created_at = 0;
  updated_at = 0;
}

abbrev pub folder : Folder
folder = record {
  id = bytes "f";
  parent_id = [];
  slug = bytes "year";
  name = bytes "Year";
  idempotency_key = [];
  created_at = 0;
  updated_at = 0;
}

abbrev pub api_key : ApiKey
api_key = record {
  id = bytes "key";
  prefix = bytes "abcdefgh";
  hash = bytes "abcdefghijklmnop";
  label = [];
  created_at = 0;
  last_used_at = none;
  revoked_at = none;
}

abbrev pub tables : Tables
tables = record {
  albums = album ∷ [];
  photos = photo ∷ [];
  folders = folder ∷ [];
  api_keys = api_key ∷ [];
  session_secret = none;
}

abbrev pub limiter : RateLimiter
limiter = record {
  buckets = [];
  capacity = 5;
  refill_per_minute = 5;
  max_keys = 10000;
  last_sweep = 0;
}

abbrev pub file_of : Variant → File
file_of v = record {
  album_id = bytes "a";
  photo_id = bytes "p";
  variant = v;
  contents = bytes "jpeg";
}

abbrev pub sessions : Sessions
sessions = record { secret = bytes "s"; ttl = 100 }

abbrev pub world : Server
world = record {
  db = record { tables = tables; faults = [] };
  store = record {
    files = file_of thumb ∷ file_of blur ∷ [];
    incoming = [];
    temps = 0;
    faults = [];
  };
  rand = [];
  draws = 0;
  now = 1 * second;
  limiter = limiter;
  sessions = sessions;
  public_base_url = bytes "https://x";
  worker = record { wake = true; busy = false; kicked = true; failed = []; stopped = false };
}
