-- ===== src/Db/Photos/Order.antt =====
-- What `SetPhotoOrder` does to the order of an album's photos.
pub mod Whole
use mathlib.Core.List.{map}
use mathlib.Core.Path.{subst}
use photogallery.Prelude.{
  Bool, true, false, ℕ, ◌+◌, ◌≡◌, refl, ◌∙◌, ap, List, [], ◌∷◌, arith, if◌then◌else◌, length,
  Bool-cases, inl, inr,
}
use photogallery.Prelude.Text.{Text, ◌==◌}
use photogallery.Exec.{Result, ok, err, ◌>>◌}
use photogallery.Exec.Yields.{OkThen, Yields, Yields-bind}
use photogallery.Db.{DbError, Photo, Tables, Db, Query, statement}
use photogallery.Db.Photos.{
  put_photos, photo_has_id, set_order_where, number_photos, transaction, renumber, set_photo_order,
}

-- The place of an id in a list that is counted from `n`: that of its last occurrence.
unfoldable pub place : List Text → Text → ℕ → ℕ → ℕ
place [] id n missing = missing
place (x ∷ xs) id n missing = place xs id (n + 1) (if id == x then n else missing)

abbrev pub numbered : Text → ℕ → List Text → Photo → Photo
numbered album_id n ids p =
    if p.album_id == album_id then record p { sort_order = place ids p.id n p.sort_order } else p

-- The photos of the album are numbered by their places in the list from 1 on, those that the list
-- leaves out come after them; other photos stay as they are.
abbrev pub placed : Text → List Text → Photo → Photo
placed album_id ids p =
    if p.album_id == album_id
    then record p { sort_order = place ids p.id 1 (length ids + 1) }
    else p

abbrev pub with_photos : Tables → List Photo → Db
with_photos t photos = record { tables = record t { photos = photos }; faults = [] }

pub map-map :
    (f g h : Photo → Photo) (ps : List Photo)
    → ((p : Photo) → g (f p) ≡ h p)
    → map g (map f ps) ≡ map h ps
map-map f g h [] e = refl
map-map f g h (p ∷ ps) e = rw (e p, map-map f g h ps e) refl

numbered_nothing : (album_id : Text) (n : ℕ) (p : Photo) → numbered album_id n [] p ≡ p
unfolding place
numbered_nothing album_id n p = elim (Bool-cases (p.album_id == album_id)) [
  | inl e ↦ rw e refl
  | inr e ↦ rw e refl
]

pub map-numbered_nothing :
    (album_id : Text) (n : ℕ) (ps : List Photo) → map (numbered album_id n []) ps ≡ ps
unfolding place
map-numbered_nothing album_id n [] = refl
map-numbered_nothing album_id n (p ∷ ps) =
    rw (numbered_nothing album_id n p, map-numbered_nothing album_id n ps) refl

pub numbered-cons :
    (album_id id : Text) (n : ℕ) (ids : List Text) (p : Photo)
    → numbered album_id
        (n + 1)
        ids
        (if photo_has_id album_id id p then record p { sort_order = n } else p)
      ≡ numbered album_id n (id ∷ ids) p
unfolding place
numbered-cons album_id id n ids p = elim (Bool-cases (p.album_id == album_id)) [
  | inr e ↦ rw (e, e) refl
  | inl e ↦ elim (Bool-cases (p.id == id)) [ inl k ↦ rw (e, k, e) refl | inr k ↦ rw (e, k, e) refl ]
]

pub numbered-placed :
    (album_id : Text) (ids : List Text) (p : Photo)
    → numbered album_id 1 ids
        (if p.album_id == album_id then record p { sort_order = length ids + 1 } else p)
      ≡ placed album_id ids p
numbered-placed album_id ids p = elim (Bool-cases (p.album_id == album_id)) [
  | inl e ↦ rw (e, e) refl
  | inr e ↦ rw (e, e) refl
]

number_photos-numbered :
    (album_id : Text) (n : ℕ) (ids : List Text) (t : Tables) (ps : List Photo)
    → number_photos album_id n ids (with_photos t ps)
      ≡ (ok tt, with_photos t (map (numbered album_id n ids) ps))
unfolding number_photos statement
number_photos-numbered album_id n [] t ps = rw (map-numbered_nothing album_id n ps) refl
number_photos-numbered album_id n (id ∷ ids) t ps =
    number_photos-numbered album_id (n + 1) ids t (set_order_where (photo_has_id album_id id) n ps)
    ∙ ap (λ z. (ok tt, with_photos t z))
        (map-map _ (numbered album_id (n + 1) ids) (numbered album_id n (id ∷ ids)) ps
          (numbered-cons album_id id n ids))

renumber-placed :
    (album_id : Text) (ids : List Text) (t : Tables)
    → renumber album_id ids (with_photos t t.photos)
      ≡ (ok tt, with_photos t (map (placed album_id ids) t.photos))
unfolding renumber statement
renumber-placed album_id ids t =
    let start = set_order_where (λ p. p.album_id == album_id) (length ids + 1) t.photos in
    number_photos-numbered album_id 1 ids t start
    ∙ ap (λ z. (ok tt, with_photos t z))
        (map-map _ (numbered album_id 1 ids) (placed album_id ids) t.photos
          (numbered-placed album_id ids))

transaction-done :
    (body : Query Unit) (t : Tables) (ps : List Photo)
    → body (with_photos t t.photos) ≡ (ok tt, with_photos t ps)
    → transaction body (with_photos t t.photos) ≡ (ok tt, with_photos t ps)
unfolding transaction statement
transaction-done body t ps h = rw (h, transaction, h) refl

-- When no statement fails, `SetPhotoOrder` numbers the photos of the album by their places in the
-- list, counted from 1, where an id that occurs more than once has its last place, and the photos of
-- the album that are not listed get the number after the last; the photos of other albums and
-- everything else stay as they are.
pub set_photo_order-placed :
    (album_id : Text) (ids : List Text) (t : Tables)
    → set_photo_order album_id ids (with_photos t t.photos)
      ≡ (ok tt, with_photos t (map (placed album_id ids) t.photos))
unfolding set_photo_order
set_photo_order-placed album_id ids t =
    transaction-done (renumber album_id ids) t (map (placed album_id ids) t.photos)
      (renumber-placed album_id ids t)
