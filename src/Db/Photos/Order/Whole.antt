-- ===== src/Db/Photos/Order/Whole.antt =====
-- `SetPhotoOrder` when statements fail: its transaction is stored as a whole or not at all.
use mathlib.Core.List.{map}
use mathlib.Core.Path.{subst}
use photogallery.Prelude.{
  Bool, true, false, ℕ, ◌+◌, ◌≡◌, refl, ap, List, [], ◌∷◌, if◌then◌else◌, length,
}
use photogallery.Prelude.Text.{Text, ◌==◌}
use photogallery.Exec.{Result, ok, err, ◌>>◌}
use photogallery.Exec.Yields.{OkThen, Yields, Yields-bind}
use photogallery.Db.{DbError, Photo, Tables, Db, Query, statement}
use photogallery.Db.Photos.{
  put_photos, photo_has_id, set_order_where, number_photos, transaction, renumber, set_photo_order,
}
use photogallery.Db.Photos.Order.{
  numbered, placed, map-map, map-numbered_nothing, numbered-cons, numbered-placed,
}

-- The photos of the tables, and everything else as in `t`.
abbrev Has : Tables → List Photo → Db → Type 0
Has t ps db = db.tables ≡ record t { photos = ps }

statement-Has : (t : Tables) (ps : List Photo) → Yields (Has t ps) statement (λ u. Has t ps)
unfolding statement
statement-Has t ps = record { at = λ db h. go db db.faults h }
  where
    go :
        (db : Db) (faults : List Bool)
        → Has t ps db
        → OkThen
            (λ u. Has t ps)
            (statement (record db { faults = faults })).0
            (statement (record db { faults = faults })).1
    go db [] h = h
    go db (false ∷ faults) h = h
    go db (true ∷ faults) h = tt

module _ (album_id : Text) (t : Tables) where
  abbrev After : (Photo → Photo) → List Photo → Query Unit → Type 0
  After f ps m = Yields (Has t ps) m (λ u. Has t (map f ps))

  -- A step that renumbers, before statements that do.
  put_photos-After :
      (step g h : Photo → Photo) (ps : List Photo) (m : Query Unit)
      → ((p : Photo) → g (step p) ≡ h p)
      → ((qs : List Photo) → After g qs m)
      → Yields
          (Has t ps)
          (λ db. m (put_photos (map step db.tables.photos) db))
          (λ u. Has t (map h ps))
  put_photos-After step g h ps m e k = record {
    at = λ db has.
        subst
          (λ qs.
            OkThen (λ u. Has t qs) (m (put_photos (map step db.tables.photos) db)).0
              (m (put_photos (map step db.tables.photos) db)).1)
          (map-map step g h ps e)
          ((k (map step ps)).at (put_photos (map step db.tables.photos) db)
            (ap {A = Tables} (λ z. record z { photos = map step z.photos }) has));
  }

  abbrev resumed : Query Unit → Result DbError (Unit {0}) → Query Unit
  resumed next r db = elim r [ ok _ ↦ next db | err e ↦ (err e, db) ]

  number_photos-Has :
      (n : ℕ) (ids : List Text) (ps : List Photo)
      → After (numbered album_id n ids) ps (number_photos album_id n ids)
  unfolding number_photos
  number_photos-Has n [] ps = record { at = λ db h. rw (map-numbered_nothing album_id n ps) h }
  number_photos-Has n (id ∷ ids) ps = record {
    at = λ db h.
        go (statement db).0 (statement db).1
          (put_photos-After
            (λ p. if photo_has_id album_id id p then record p { sort_order = n } else p)
            (numbered album_id (n + 1) ids) (numbered album_id n (id ∷ ids)) ps
            (number_photos album_id (n + 1) ids) (numbered-cons album_id id n ids)
            (number_photos-Has (n + 1) ids))
          ((statement-Has t ps).at db h);
  }
    where
      next : Query Unit
      next db =
          number_photos album_id (n + 1) ids
            (put_photos (set_order_where (photo_has_id album_id id) n db.tables.photos) db)

      go :
          (r : Result DbError (Unit {0})) (db : Db)
          → Yields (Has t ps) next (λ u. Has t (map (numbered album_id n (id ∷ ids)) ps))
          → OkThen (λ u. Has t ps) r db
          → OkThen
              (λ u. Has t (map (numbered album_id n (id ∷ ids)) ps))
              (resumed next r db).0
              (resumed next r db).1
      go (err e) db k h = tt
      go (ok u) db k h = k.at db h

  renumber-Has : (ids : List Text) → After (placed album_id ids) t.photos (renumber album_id ids)
  unfolding renumber
  renumber-Has ids =
      Yields-bind (λ u. Has t t.photos) statement _ (statement-Has t t.photos)
        λ u.
          put_photos-After
            (λ p. if p.album_id == album_id then record p { sort_order = length ids + 1 } else p)
            (numbered album_id 1 ids) (placed album_id ids) t.photos (number_photos album_id 1 ids)
            (numbered-placed album_id ids) (number_photos-Has 1 ids)

  -- All of the renumbering is stored, or none of it.
  abbrev pub AllOrNone : List Text → Result DbError (Unit {0}) → Tables → Type 0
  AllOrNone ids (ok u) after = after ≡ record t { photos = map (placed album_id ids) t.photos }
  AllOrNone ids (err e) after = after ≡ t

  abbrev settled : Db → Result DbError (Unit {0}) → Query Unit
  settled db r db' = elim r [
    | ok _ ↦ (ok tt, db')
    | err e ↦ (err e, record db' { tables = db.tables })
  ]

  transaction-AllOrNone :
      (ids : List Text) (body : Query Unit) (db : Db)
      → After (placed album_id ids) t.photos body
      → db.tables ≡ t
      → AllOrNone ids (transaction body db).0 (transaction body db).1.tables
  unfolding transaction
  transaction-AllOrNone ids body db k h =
      let m = statement >> (body >> statement) in go (m db).0 (m db).1 (whole.at db h)
    where
      after : Unit {0} → Db → Type 0
      after u = Has t (map (placed album_id ids) t.photos)

      whole : Yields (Has t t.photos) (statement >> (body >> statement)) after
      whole =
          Yields-bind (λ u. Has t t.photos) statement _ (statement-Has t t.photos)
            λ u.
              Yields-bind after body _ k λ u. statement-Has t (map (placed album_id ids) t.photos)

      go :
          (r : Result DbError (Unit {0})) (db' : Db)
          → OkThen after r db'
          → AllOrNone ids (settled db r db').0 (settled db r db').1.tables
      go (ok u) db' k = k
      go (err e) db' k = h

-- Whatever statements fail, at the beginning, in the loop or at the commit: `SetPhotoOrder` either
-- returns no error, and then every photo of the album has its number by the list (by its last place,
-- or the number after the last) and all else is as before, or it returns an error, and then no photo
-- has a new number. A list that is stored in part is not possible.
pub set_photo_order-AllOrNone :
    (album_id : Text) (ids : List Text) (db : Db)
    → AllOrNone album_id db.tables ids
        (set_photo_order album_id ids db).0
        (set_photo_order album_id ids db).1.tables
unfolding set_photo_order
set_photo_order-AllOrNone album_id ids db =
    transaction-AllOrNone album_id db.tables ids (renumber album_id ids) db
      (renumber-Has album_id db.tables ids) refl
