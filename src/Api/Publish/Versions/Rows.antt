-- ===== src/Api/Publish/Versions/Rows.antt =====
-- What the UPDATE of an album does to the password version of the rows.
use mathlib.Core.List.{map}
use mathlib.Core.Path.{subst}
use mathlib.Core.Option.{some-injective}
use photogallery.Prelude.{
  ◌+◌, ◌≡◌, refl, sym, ap, ◌∙◌, Bool, true, false, some, List, [], ◌∷◌, arith, any, find,
  Bool-cases, ◌⊎◌, inl, inr,
}
use photogallery.Prelude.Text.{Text}
use photogallery.Exec.{modify, throw_if, ◌>>◌}
use photogallery.Exec.Reaches.{Reaches}
use photogallery.Db.{driver, Album, Tables, Query, statement, check_affected}
use photogallery.Db.Albums.{album_has_id, put_albums, set_album, update_album}

-- The hash and the version are the old ones, or the version is the next one.
abbrev pub Bumped : Album → Album → Type 0
Bumped a b =
    (b.id ≡ a.id)
    × (((b.password_hash ≡ a.password_hash) × (b.password_version ≡ a.password_version))
        ⊎ (b.password_version ≡ a.password_version + 1))

-- The row with the id, and how it follows from the album that it was.
pub record IsNext (id : Text) (a : Album) (rows : List Album) : Type 0 where
  pub album : Album
  pub found : find (album_has_id id) rows ≡ some album
  pub bumped : Bumped a album

pub kept-IsNext :
    (id : Text) (a : Album) (rows : List Album)
    → find (album_has_id id) rows ≡ some a
    → IsNext id a rows
kept-IsNext id a rows h = record { album = a; found = h; bumped = (refl, inl (refl, refl)) }

set_album-id : (b x : Album) → (set_album b x).id ≡ x.id
set_album-id b x = elim (Bool-cases (album_has_id b.id x)) [ inl e ↦ rw e refl | inr e ↦ rw e refl ]

find-set_id :
    (id : Text) (b a : Album) (rows : List Album)
    → find (album_has_id id) rows ≡ some a
    → find (album_has_id id) (map (set_album b) rows) ≡ some (set_album b a)
unfolding find
find-set_id id b a [] h = absurd (ground (arith, h))
find-set_id id b a (x ∷ rows) h = elim (Bool-cases (album_has_id id x)) [
  | inl e ↦ rw (set_album-id b x, e) (ap (λ z. some (set_album b z)) (ground (arith, h, e)))
  | inr e ↦ rw (set_album-id b x, e) (find-set_id id b a rows (ground (arith, h, e)))
]

pub find-id :
    (id : Text) (a : Album) (rows : List Album) → find (album_has_id id) rows ≡ some a → a.id ≡ id
unfolding find
find-id id a [] h = absurd (ground (arith, h))
find-id id a (x ∷ rows) h = elim (Bool-cases (album_has_id id x)) [
  | inl e ↦ ground (arith, h, e)
  | inr e ↦ find-id id a rows (ground (arith, h, e))
]

module _ (id : Text) (a old b : Album) (rows : List Album)
    (found : find (album_has_id id) rows ≡ some a)
    (read : find (album_has_id old.id) rows ≡ some old) (bumped : Bumped old b) where
  same_row : album_has_id b.id a ≡ true → a ≡ old
  same_row e =
      let (named, k) = bumped in
      let same : id ≡ old.id = sym (find-id id a rows found) ∙ ground (arith, e) ∙ named in
      some-injective a old (sym found ∙ ap (λ z. find (album_has_id z) rows) same ∙ read)

  set_album-Bumped : Bumped a (set_album b a)
  set_album-Bumped = elim (Bool-cases (album_has_id b.id a)) [
    | inr e ↦ rw e (refl, inl (refl, refl))
    | inl e ↦ rw e (refl, subst (λ z. Versions z) (sym (same_row e)) bumped.1)
  ]
    where
      Versions : Album → Type 0
      Versions z =
          ((b.password_hash ≡ z.password_hash) × (b.password_version ≡ z.password_version))
          ⊎ (b.password_version ≡ z.password_version + 1)

  set_album-IsNext : IsNext id a (map (set_album b) rows)
  set_album-IsNext = record {
    album = set_album b a;
    found = find-set_id id b a rows found;
    bumped = set_album-Bumped;
  }

module _ (id : Text) (a old b : Album) (t : Tables)
    (found : find (album_has_id id) t.albums ≡ some a)
    (read : find (album_has_id old.id) t.albums ≡ some old) (bumped : Bumped old b) where
  set_rows :
      (refused known : Bool) (faults : List Bool)
      → let q : Query Unit =
          throw_if refused driver
          >> (modify (put_albums (map (set_album b) t.albums)) >> check_affected known) in
        IsNext id a (q (record { tables = t; faults = faults })).1.tables.albums
  set_rows true known faults = kept-IsNext id a t.albums found
  set_rows false true faults = set_album-IsNext id a old b t.albums found read bumped
  set_rows false false faults = set_album-IsNext id a old b t.albums found read bumped

  update_album-IsNext :
      (faults : List Bool)
      → IsNext id a (update_album b (record { tables = t; faults = faults })).1.tables.albums
  unfolding update_album statement
  update_album-IsNext [] = set_rows _ (any (album_has_id b.id) t.albums) []
  update_album-IsNext (true ∷ faults) = kept-IsNext id a t.albums found
  update_album-IsNext (false ∷ faults) = set_rows _ (any (album_has_id b.id) t.albums) faults

  pub update_album-Reaches :
      Reaches (λ db. db.tables ≡ t) (λ db. IsNext id a db.tables.albums) (update_album b)
  update_album-Reaches = record { at = λ db h. rw h (update_album-IsNext db.faults) }
