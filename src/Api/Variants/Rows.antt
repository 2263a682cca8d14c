-- ===== src/Api/Variants/Rows.antt =====
-- backend/internal/api/variants.go and backend/internal/db/photos.go: what the worker reads and writes of
-- a photo's row.
use mathlib.Core.List.{map}
use photogallery.Prelude.{
  ◌≡◌, refl, Bool, true, false, ◌||◌, not, Option, none, some, List, [], ◌∷◌, arith, any, find,
  if◌then◌else◌, Bool-cases, inl, inr,
}
use photogallery.Prelude.{all}
use photogallery.Exec.{Result, ok, err, or_throw}
use photogallery.Exec.Yields.{OkThen}
use photogallery.Db.{DbError, not_found, Photo, Tables, Db, statement}
use photogallery.Db.Photos.{photo_has_id, has_original, get_photo, mark_variants_ready}
use photogallery.Api.{Server}
use photogallery.Api.Variants.{is_gone, unless_gone}

-- The rows with this original are ready.
abbrev pub is_ready_row : Photo → Photo → Bool
is_ready_row p q = not (has_original p.album_id p.id p.content_hash q) || q.variants_ready

any-not_none :
    (p : Photo) (photos : List Photo)
    → any (has_original p.album_id p.id p.content_hash) photos ≡ true
    → find (photo_has_id p.album_id p.id) photos ≡ none
    → ⊥
unfolding any find
any-not_none p [] h e = ground (arith, h)
any-not_none p (q ∷ qs) h e = ground (arith, h, e, any-not_none p qs)

marked_rows :
    (p : Photo) (photos : List Photo)
    → all (is_ready_row p) (
        map
          (λ q.
            if has_original p.album_id p.id p.content_hash q
            then record q { variants_ready = true }
            else q)
          photos)
      ≡ true
unfolding all
marked_rows p [] = refl
marked_rows p (q ∷ qs) = elim (Bool-cases (has_original p.album_id p.id p.content_hash q)) [
  | inl e ↦ ground (arith, e, marked_rows p qs)
  | inr e ↦ ground (arith, e, marked_rows p qs)
]

abbrev says_gone : Result DbError Bool → Bool
says_gone (ok b) = b
says_gone (err e) = false

module _ (p : Photo) (tables : Tables)
    (present : any (has_original p.album_id p.id p.content_hash) tables.photos ≡ true) where
  find-present :
      (db : Db) (o : Option Photo)
      → find (photo_has_id p.album_id p.id) tables.photos ≡ o
      → says_gone (is_gone (or_throw not_found o db).0) ≡ false
  find-present db none e = absurd (any-not_none p tables.photos present e)
  find-present db (some q) e = refl

  -- A photo that is present does not read as gone, also when the statement fails.
  pub get_photo-present :
      (faults : List Bool)
      → says_gone
          (is_gone (get_photo p.album_id p.id (record { tables = tables; faults = faults })).0)
        ≡ false
  unfolding get_photo statement
  get_photo-present [] =
      find-present (record { tables = tables; faults = [] })
        (find (photo_has_id p.album_id p.id) tables.photos) refl
  get_photo-present (true ∷ faults) = refl
  get_photo-present (false ∷ faults) =
      find-present (record { tables = tables; faults = faults })
        (find (photo_has_id p.album_id p.id) tables.photos) refl

  pub mark-rows :
      (faults : List Bool)
      → OkThen
          (λ b db. (b ≡ true) × (all (is_ready_row p) db.tables.photos ≡ true))
          (mark_variants_ready p.album_id p.id p.content_hash
            (record { tables = tables; faults = faults })).0
          (mark_variants_ready p.album_id p.id p.content_hash
            (record { tables = tables; faults = faults })).1
  unfolding mark_variants_ready statement
  mark-rows [] = (present, marked_rows p tables.photos)
  mark-rows (true ∷ faults) = tt
  mark-rows (false ∷ faults) = (present, marked_rows p tables.photos)

pub unless_gone-throws :
    (R : Unit {0} → Server → Type 0) (r : Result DbError Bool) (t : Server)
    → says_gone r ≡ false
    → OkThen R (unless_gone r t).0 (unless_gone r t).1
unless_gone-throws R (ok true) t e = absurd (ground (arith, e))
unless_gone-throws R (ok false) t e = tt
unless_gone-throws R (err x) t e = tt
