-- ===== src/Api/Input.antt =====
-- The checks on what a request carries: errors.go, and the validators of publish_albums.go.
use photogallery.Prelude.{
  ℕ, Bool, ◌&&◌, ◌||◌, not, Option, none, some, [], ltb, leb, if◌then◌else◌, length, any,
}
use photogallery.Prelude.Text.{Text, bytes, is_empty}
use photogallery.Prelude.Space.{trim_space}
use photogallery.Exec.{pure, throw}
use photogallery.Api.{Reply, failure, Handler}

abbrev pub max_name_len : ℕ
max_name_len = 200

abbrev pub max_description_len : ℕ
max_description_len = 5000

abbrev pub max_password_len : ℕ
max_password_len = 72

abbrev pub max_idempotency_key_len : ℕ
max_idempotency_key_len = 128

-- What the JSON decoder makes of a body behind the limit of one megabyte.
pub data Decoded (A : Type 0) : Type 0 where
  too_large : Decoded A
  malformed : Decoded A
  decoded : A → Decoded A

unfoldable pub decode_json : {A : Type 0} → Decoded A → Handler A
decode_json too_large = throw (failure 413 (bytes "body_too_large"))
decode_json malformed = throw (failure 400 (bytes "invalid_json"))
decode_json (decoded a) = pure a

abbrev pub invalid_name : Reply
invalid_name = failure 400 (bytes "invalid_name")

unfoldable pub valid_name : Text → Handler Text
unfolding trim_space
valid_name raw =
    let name = trim_space raw in
    if is_empty name || ltb max_name_len (length name) then throw invalid_name else pure name

abbrev pub invalid_key : Reply
invalid_key = failure 400 (bytes "invalid_idempotency_key")

-- A byte of a character outside printable ASCII is itself outside it.
abbrev pub is_key_char : ℕ → Bool
is_key_char c = leb 0x21 c && leb c 0x7e

unfoldable pub valid_idempotency_key : Option Text → Handler Text
unfolding trim_space
valid_idempotency_key none = pure []
valid_idempotency_key (some raw) =
    let k = trim_space raw in
    if ltb max_idempotency_key_len (length k)
    then throw invalid_key
    else if any (λ c. not (is_key_char c)) k
    then throw invalid_key
    else pure k
