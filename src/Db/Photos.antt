-- ===== src/Db/Photos.antt =====
-- backend/internal/db/photos.go.
pub mod Order
use mathlib.Core.List.{map}
use photogallery.Prelude.{
  ℕ, ◌+◌, Bool, true, false, ◌&&◌, not, List, [], ◌∷◌, ◌++◌, ltb, eqb, if◌then◌else◌, any, find,
  filter, length,
}
use photogallery.Prelude.Text.{Text, ◌==◌}
use photogallery.Exec.{ok, err, pure, gets, or_throw, modify, throw_if, ◌>>=◌, ◌>>◌}
use photogallery.Db.{not_found, photo_exists, driver, Photo, Db, Query, statement, check_affected}
use photogallery.Db.Albums.{album_has_id}

-- Bytewise order, the collation of the text columns.
unfoldable pub text_lt : Text → Text → Bool
text_lt [] [] = false
text_lt [] (d ∷ t) = true
text_lt (c ∷ s) [] = false
text_lt (c ∷ s) (d ∷ t) = let rest = text_lt s t in if eqb c d then rest else ltb c d

abbrev pub photo_has_id : Text → Text → Photo → Bool
photo_has_id album_id id p = (p.album_id == album_id) && (p.id == id)

abbrev pub photo_has_lr : Text → Text → Photo → Bool
photo_has_lr album_id lr p = (p.album_id == album_id) && (p.lr_photo_uuid == lr)

abbrev pub put_photos : List Photo → Db → Db
put_photos photos db = record db { tables = record db.tables { photos = photos } }

-- `ORDER BY sort_order, taken_at, filename`
abbrev pub photo_before : Photo → Photo → Bool
photo_before p q =
    if eqb p.sort_order q.sort_order
    then (if p.taken_at == q.taken_at
        then text_lt p.filename q.filename
        else text_lt p.taken_at q.taken_at)
    else ltb p.sort_order q.sort_order

-- `ORDER BY updated_at, id`
abbrev pub pending_before : Photo → Photo → Bool
pending_before p q =
    if eqb p.updated_at q.updated_at then text_lt p.id q.id else ltb p.updated_at q.updated_at

unfoldable pub insert_by : {A : Type 0} → (A → A → Bool) → A → List A → List A
insert_by before p [] = p ∷ []
insert_by before p (q ∷ qs) =
    let rest = insert_by before p qs in if before q p then q ∷ rest else p ∷ q ∷ qs

unfoldable pub sort_by : {A : Type 0} → (A → A → Bool) → List A → List A
unfolding insert_by
sort_by before [] = []
sort_by before (p ∷ ps) = insert_by before p (sort_by before ps)

unfoldable pub insert_photo : Photo → Query Unit
insert_photo p = do
  statement
  t ← gets (λ db. db.tables)
  throw_if (any (λ q. q.id == p.id) t.photos) driver
  throw_if (any (photo_has_lr p.album_id p.lr_photo_uuid) t.photos) photo_exists
  throw_if (not (any (album_has_id p.album_id) t.albums)) driver
  modify (put_photos (t.photos ++ p ∷ []))

-- The columns that `UPDATE photos` sets.
abbrev pub set_photo : Photo → Photo → Photo
set_photo p row =
    if photo_has_id p.album_id p.id row
    then record row {
      filename = p.filename;
      mime_type = p.mime_type;
      size_bytes = p.size_bytes;
      width = p.width;
      height = p.height;
      title = p.title;
      caption = p.caption;
      keywords = p.keywords;
      taken_at = p.taken_at;
      exif = p.exif;
      content_hash = p.content_hash;
      updated_at = p.updated_at;
    }
    else row

unfoldable pub update_photo : Photo → Query Unit
update_photo p = do
  statement
  photos ← gets (λ db. db.tables.photos)
  modify (put_photos (map (set_photo p) photos))
  check_affected (any (photo_has_id p.album_id p.id) photos)

unfoldable pub get_photo : Text → Text → Query Photo
get_photo album_id id = do
  statement
  photos ← gets (λ db. db.tables.photos)
  or_throw not_found (find (photo_has_id album_id id) photos)

unfoldable pub get_photo_by_lr_uuid : Text → Text → Query Photo
get_photo_by_lr_uuid album_id lr = do
  statement
  photos ← gets (λ db. db.tables.photos)
  or_throw not_found (find (photo_has_lr album_id lr) photos)

unfoldable pub list_photos : Text → Query (List Photo)
unfolding sort_by
list_photos album_id = do
  statement
  photos ← gets (λ db. db.tables.photos)
  pure (sort_by photo_before (filter (λ p. p.album_id == album_id) photos))

abbrev pub is_visible_in : Text → Photo → Bool
is_visible_in album_id p = (p.album_id == album_id) && p.variants_ready

unfoldable pub list_ready_photos : Text → Query (List Photo)
unfolding sort_by
list_ready_photos album_id = do
  statement
  photos ← gets (λ db. db.tables.photos)
  pure (sort_by photo_before (filter (is_visible_in album_id) photos))

unfoldable pub list_photos_pending_variants : Query (List Photo)
unfolding sort_by
list_photos_pending_variants = do
  statement
  photos ← gets (λ db. db.tables.photos)
  pure (sort_by pending_before (filter (λ p. not p.variants_ready) photos))

unfoldable pub mark_variants_pending : Text → Text → Query Unit
mark_variants_pending album_id id = do
  statement
  photos ← gets (λ db. db.tables.photos)
  modify (
      put_photos (
        map (λ p. if photo_has_id album_id id p then record p { variants_ready = false } else p)
          photos))
  check_affected (any (photo_has_id album_id id) photos)

abbrev pub has_original : Text → Text → Text → Photo → Bool
has_original album_id id content_hash p =
    photo_has_id album_id id p && (p.content_hash == content_hash)

unfoldable pub mark_variants_ready : Text → Text → Text → Query Bool
mark_variants_ready album_id id content_hash = do
  statement
  photos ← gets (λ db. db.tables.photos)
  modify (
      put_photos (
        map
          (λ p.
            if has_original album_id id content_hash p
            then record p { variants_ready = true }
            else p)
          photos))
  pure (any (has_original album_id id content_hash) photos)

unfoldable pub delete_photo : Text → Text → Query Unit
delete_photo album_id id = do
  statement
  photos ← gets (λ db. db.tables.photos)
  modify (put_photos (filter (λ p. not (photo_has_id album_id id p)) photos))
  check_affected (any (photo_has_id album_id id) photos)

abbrev pub set_order_where : (Photo → Bool) → ℕ → List Photo → List Photo
set_order_where test n = map (λ p. if test p then record p { sort_order = n } else p)

-- The loop of `SetPhotoOrder`, with its statements; the first failure ends it.
unfoldable pub number_photos : Text → ℕ → List Text → Query Unit
number_photos album_id n [] db = (ok tt, db)
number_photos album_id n (id ∷ ids) db =
    let (r, db') = statement db in
    let next = put_photos (set_order_where (photo_has_id album_id id) n db'.tables.photos) db' in
    let rest = number_photos album_id (n + 1) ids next in
    elim r [ ok _ ↦ rest | err e ↦ (err e, db') ]

-- A failed statement rolls the transaction back; the failures are used up all the same. Beginning
-- and committing are statements too.
unfoldable pub transaction : Query Unit → Query Unit
transaction body db =
    let (r, db') = (do statement; body; statement) db in
    elim r [ ok _ ↦ (ok tt, db') | err e ↦ (err e, record db' { tables = db.tables }) ]

unfoldable pub renumber : Text → List Text → Query Unit
unfolding number_photos
renumber album_id ids = do
  statement
  photos ← gets (λ db. db.tables.photos)
  modify (put_photos (set_order_where (λ p. p.album_id == album_id) (length ids + 1) photos))
  number_photos album_id 1 ids

unfoldable pub set_photo_order : Text → List Text → Query Unit
unfolding transaction renumber
set_photo_order album_id ids = transaction (renumber album_id ids)

unfoldable pub list_photo_refs : Query (List (Text × Text))
list_photo_refs = do
  statement
  photos ← gets (λ db. db.tables.photos)
  pure (map (λ p. (p.album_id, p.id)) photos)
