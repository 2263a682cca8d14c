-- ===== src/Api/Publish/Metadata.antt =====
-- backend/internal/api/publish_photos.go: the text fields of an upload. The JSON decoder is a
-- parameter.
use photogallery.Prelude.{
  ℕ, Bool, not, Option, none, some, List, [], ◌∷◌, ltb, eqb, if◌then◌else◌, length, find, filter,
}
use photogallery.Prelude.Text.{Text, bytes, is_empty, ◌==◌}
use photogallery.Prelude.Space.{trim_space}
use photogallery.Exec.{pure, throw, ◌>>=◌}
use photogallery.Db.{Photo}
use photogallery.Api.{Env, failure, Handler}
use photogallery.Api.Filename.{sanitize_filename}

abbrev pub max_taken_at_len : ℕ
max_taken_at_len = 64

-- `map[string]string`: the entry of a key, and an assignment.
abbrev pub Fields : Type 0
Fields = List (Text × Text)

abbrev pub has_key : Text → Text × Text → Bool
has_key k entry = entry.0 == k

abbrev value_of : Option (Text × Text) → Option Text
value_of none = none
value_of (some entry) = some entry.1

unfoldable pub get_field : Text → Fields → Option Text
get_field k f = value_of (find (has_key k) f)

unfoldable pub set_field : Text → Text → Fields → Fields
set_field k v f = (k, v) ∷ filter (λ entry. not (has_key k entry)) f

abbrev pub or_empty : Option Text → Text
or_empty none = []
or_empty (some v) = v

-- `f[k]`
abbrev pub field : Text → Fields → Text
field k f = or_empty (get_field k f)

-- `if fn := sanitizeFilename(v); fn != "" { photo.Filename = fn }`
abbrev pub name_after : Text → Photo → Photo
name_after fn photo = if is_empty fn then photo else record photo { filename = fn }

unfoldable pub set_filename : Option Text → Photo → Photo
unfolding sanitize_filename
set_filename none photo = photo
set_filename (some v) photo = name_after (sanitize_filename v) photo

unfoldable pub set_title : Option Text → Photo → Photo
unfolding trim_space
set_title none photo = photo
set_title (some v) photo = record photo { title = trim_space v }

unfoldable pub set_caption : Option Text → Photo → Photo
unfolding trim_space
set_caption none photo = photo
set_caption (some v) photo = record photo { caption = trim_space v }

abbrev pub take_time : Text → Photo → Handler Photo
take_time v photo =
    if ltb max_taken_at_len (length v)
    then throw (failure 400 (bytes "invalid_taken_at"))
    else pure (record photo { taken_at = v })

unfoldable pub set_taken_at : Option Text → Photo → Handler Photo
unfolding trim_space
set_taken_at none photo = pure photo
set_taken_at (some v) photo = take_time (trim_space v) photo

-- `strings.Split` at a comma
unfoldable pub split_comma : Text → List Text
split_comma [] = [] ∷ []
split_comma (c ∷ s) = elim (split_comma s) [
  | [] ↦ [] ∷ []
  | w ∷ ws ↦ if eqb c b',' then [] ∷ w ∷ ws else (c ∷ w) ∷ ws
]

-- The loops that trim the words and keep what is not empty.
unfoldable pub trim_words : List Text → List Text
unfolding trim_space
trim_words [] = []
trim_words (w ∷ ws) =
    let rest = trim_words ws in if is_empty (trim_space w) then rest else trim_space w ∷ rest

abbrev clean_words : Option (List Text) → Option (List Text)
clean_words none = none
clean_words (some ws) = some (trim_words ws)

module _ (env : Env) where
  -- A JSON array of strings, or a list with commas; none is the error.
  unfoldable pub parse_words : Text → Option (List Text)
  unfolding trim_words split_comma
  parse_words [] = some []
  parse_words (c ∷ v) =
      if eqb c b'['
      then clean_words (env.json_strings (c ∷ v))
      else clean_words (some (trim_words (split_comma (c ∷ v))))

  unfoldable pub parse_keywords : Text → Option (List Text)
  unfolding parse_words trim_space
  parse_keywords v = parse_words (trim_space v)

  abbrev pub with_keywords : Option (List Text) → Photo → Handler Photo
  with_keywords none photo = throw (failure 400 (bytes "invalid_keywords"))
  with_keywords (some kws) photo = pure (record photo { keywords = kws })

  unfoldable pub set_keywords : Option Text → Photo → Handler Photo
  unfolding parse_keywords
  set_keywords none photo = pure photo
  set_keywords (some v) photo = with_keywords (parse_keywords v) photo

  abbrev pub with_exif : Option Text → Photo → Handler Photo
  with_exif none photo = throw (failure 400 (bytes "invalid_exif"))
  with_exif (some compact) photo = pure (record photo { exif = some compact })

  abbrev pub trimmed_exif : Text → Photo → Handler Photo
  trimmed_exif [] photo = pure (record photo { exif = none })
  trimmed_exif (c ∷ v) photo = with_exif (env.json_object (c ∷ v)) photo

  unfoldable pub set_exif : Option Text → Photo → Handler Photo
  unfolding trim_space
  set_exif none photo = pure photo
  set_exif (some v) photo = trimmed_exif (trim_space v) photo

  unfoldable pub apply_metadata : Photo → Fields → Handler Photo
  unfolding set_filename set_title set_caption set_taken_at set_keywords set_exif get_field
  apply_metadata photo f = do
    timed ← set_taken_at (get_field (bytes "taken_at") f) (
        set_caption (get_field (bytes "caption") f) (
          set_title (get_field (bytes "title") f)
            (set_filename (get_field (bytes "filename") f) photo)))
    tagged ← set_keywords (get_field (bytes "keywords") f) timed
    set_exif (get_field (bytes "exif") f) tagged
