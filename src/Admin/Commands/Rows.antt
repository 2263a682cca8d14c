-- ===== src/Admin/Commands/Rows.antt =====
-- What the commands read and write of the table of albums.
use mathlib.Core.List.{map}
use mathlib.Core.Option.{some-injective}
use photogallery.Prelude.{
  ◌≡◌, refl, sym, ap, ◌∙◌, Bool, true, false, Option, none, some, List, [], ◌∷◌, arith, any, find,
  Bool-cases, inl, inr,
}
use photogallery.Prelude.Text.{Text, text_eq}
use photogallery.Exec.{modify, or_throw, throw_if, ◌>>◌}
use photogallery.Exec.Yields.{OkThen, Yields}
use photogallery.Db.{not_found, driver, Album, Tables, Query, statement, check_affected}
use photogallery.Db.Albums.{
  album_has_id, album_has_slug, put_albums, assign_album, set_album, get_album_by_slug,
  update_album,
}
use photogallery.Api.{Server}
use photogallery.Admin.Commands.{no_album, failed, admin_query}

set_album-slug : (a x : Album) → (set_album a x).slug ≡ x.slug
set_album-slug a x = elim (Bool-cases (album_has_id a.id x)) [
  | inl e ↦ rw e refl
  | inr e ↦ rw e refl
]

set_album-same : (a x : Album) → a.id ≡ x.id → set_album a x ≡ assign_album a x
set_album-same a x e = rw (text_eq x.id a.id (sym e)) refl

find-first :
    (slug : Text) (x : Album) (xs : List Album)
    → album_has_slug slug x ≡ true
    → find (album_has_slug slug) (x ∷ xs) ≡ some x
unfolding find
find-first slug x xs e = rw e refl

pub find-set_album :
    (slug : Text) (a a' : Album) (albums : List Album)
    → a'.id ≡ a.id
    → find (album_has_slug slug) albums ≡ some a
    → find (album_has_slug slug) (map (set_album a') albums) ≡ some (assign_album a' a)
unfolding find
find-set_album slug a a' [] k h = absurd (ground (arith, h))
find-set_album slug a a' (x ∷ xs) k h = elim (Bool-cases (album_has_slug slug x)) [
  | inl e ↦
      let same = some-injective x a (sym (find-first slug x xs e) ∙ h) in
      rw (set_album-slug a' x, e)
        (ap some (set_album-same a' x (k ∙ ap (λ b. b.id) (sym same)) ∙ ap (assign_album a') same))
  | inr e ↦ rw (set_album-slug a' x, e) (find-set_album slug a a' xs k (ground (arith, h, e)))
]

module _ (tables : Tables) where
  abbrev pub Over : Server → Type 0
  Over t = t.db.tables ≡ tables

  module _ (slug : Text) where
    abbrev pub Finds : Album → Server → Type 0
    Finds a t = (find (album_has_slug slug) tables.albums ≡ some a) × Over t

    found_at :
        (t : Server) (faults : List Bool) (o : Option Album)
        → find (album_has_slug slug) tables.albums ≡ o
        → OkThen Finds
            (admin_query no_album
              (λ db. or_throw not_found o db)
              (record t { db = record { tables = tables; faults = faults } })).0
            (admin_query no_album
              (λ db. or_throw not_found o db)
              (record t { db = record { tables = tables; faults = faults } })).1
    unfolding admin_query
    found_at t faults none e = tt
    found_at t faults (some a) e = (e, refl)

    get_at :
        (t : Server) (faults : List Bool)
        → OkThen Finds
            (admin_query no_album
              (get_album_by_slug slug)
              (record t { db = record { tables = tables; faults = faults } })).0
            (admin_query no_album
              (get_album_by_slug slug)
              (record t { db = record { tables = tables; faults = faults } })).1
    unfolding admin_query get_album_by_slug statement
    get_at t [] = found_at t [] (find (album_has_slug slug) tables.albums) refl
    get_at t (true ∷ faults) = tt
    get_at t (false ∷ faults) = found_at t faults (find (album_has_slug slug) tables.albums) refl

    pub get_album-Finds : Yields Over (admin_query no_album (get_album_by_slug slug)) Finds
    get_album-Finds = record { at = λ t h. rw h (get_at t t.db.faults) }

  module _ (a : Album) where
    abbrev pub Sets : Server → Type 0
    Sets t = t.db.tables.albums ≡ map (set_album a) tables.albums

    written_at :
        (t : Server) (faults : List Bool) (refused known : Bool)
        → let q : Query Unit =
            throw_if refused driver
            >> (modify (put_albums (map (set_album a) tables.albums)) >> check_affected known) in
          let from : Server = record t { db = record { tables = tables; faults = faults } } in
          OkThen (λ u t. Sets t) (admin_query failed q from).0 (admin_query failed q from).1
    unfolding admin_query
    written_at t faults true known = tt
    written_at t faults false true = refl
    written_at t faults false false = tt

    set_at :
        (t : Server) (faults : List Bool)
        → let from : Server = record t { db = record { tables = tables; faults = faults } } in
          OkThen
            (λ u t. Sets t)
            (admin_query failed (update_album a) from).0
            (admin_query failed (update_album a) from).1
    unfolding admin_query update_album statement
    set_at t [] = written_at t [] _ (any (album_has_id a.id) tables.albums)
    set_at t (true ∷ faults) = tt
    set_at t (false ∷ faults) = written_at t faults _ (any (album_has_id a.id) tables.albums)

    pub update_album-Sets : Yields Over (admin_query failed (update_album a)) (λ u t. Sets t)
    update_album-Sets = record { at = λ t h. rw h (set_at t t.db.faults) }
