-- ===== src/Db/Consistent/OfAlbums.antt =====
-- The statements on albums keep the constraints.
use mathlib.Core.List.{map}
use photogallery.Prelude.{
  ◌≡◌, ◌∙◌, true, false, not, ◌&&◌, ◌||◌, List, [], ◌∷◌, ◌++◌, arith, any, all, filter,
  distinct-append_one, distinct-filter, distinct-map, all-append_one, all-filter, all-map, all_mono,
  any_or, any_grows, map_untouched, any-map, any-filter-true, Bool-cases, inl, inr,
}
use photogallery.Prelude.Text.{Text, ◌==◌}
use photogallery.Exec.Keeps.{Keeps, keeps_rules}
use photogallery.Db.{Album, Tables}
use photogallery.Db.Albums.{
  album_has_id, album_has_slug, album_has_key, folder_known, album_conflict, create_album,
  get_album, get_album_by_slug, get_album_by_idempotency_key, assign_album, set_album, update_album,
  delete_album,
}
use photogallery.Db.Consistent.{
  album_clash, photo_clash, photo_has_album, album_has_folder, IsConsistent, Holds, statement-Keeps,
  Keeps-statement,
}

album_clash_sym : (a b : Album) → album_clash a b ≡ album_clash b a
album_clash_sym a b = ground arith

no_clash :
    (a : Album) (albums : List Album)
    → any (album_has_id a.id) albums ≡ false
    → (any (album_has_slug a.slug) albums || any (album_has_key a.idempotency_key) albums) ≡ false
    → any (album_clash a) albums ≡ false
no_clash a albums i s =
    any_or (album_has_id a.id) (λ b. album_has_slug a.slug b || album_has_key a.idempotency_key b)
      albums
    ∙ ground (arith, any_or (album_has_slug a.slug) (album_has_key a.idempotency_key) albums)

module _ (t : Tables) (h : IsConsistent t) where
  insert_album-IsConsistent :
      (a : Album)
      → any (album_clash a) t.albums ≡ false
      → folder_known t.folders a.folder_id ≡ true
      → IsConsistent (record t { albums = t.albums ++ a ∷ [] })
  insert_album-IsConsistent a fresh fk = record {
    albums = distinct-append_one album_clash a t.albums album_clash_sym h.albums fresh;
    photos = h.photos;
    folders = h.folders;
    photo_albums =
        all_mono (photo_has_album t.albums) (photo_has_album (t.albums ++ a ∷ [])) t.photos
          (λ p. any_grows (album_has_id p.album_id) t.albums (a ∷ [])) h.photo_albums;
    album_folders = all-append_one (album_has_folder t.folders) a t.albums h.album_folders fk;
    folder_parents = h.folder_parents;
  }

  set_album-folders :
      (a : Album)
      → (any (album_has_id a.id) t.albums && not (folder_known t.folders a.folder_id)) ≡ false
      → all (album_has_folder t.folders) (map (set_album a) t.albums) ≡ true
  set_album-folders a fk = elim (Bool-cases (folder_known t.folders a.folder_id)) [
    | inl known ↦
        all-map (album_has_folder t.folders) (album_has_folder t.folders) (set_album a) t.albums
          (λ x e. ground arith) h.album_folders
    | inr unknown ↦
        rw (map_untouched (album_has_id a.id) (assign_album a) t.albums (ground arith))
          h.album_folders
  ]

  set_album-IsConsistent :
      (a : Album)
      → (any (album_has_id a.id) t.albums && not (folder_known t.folders a.folder_id)) ≡ false
      → IsConsistent (record t { albums = map (set_album a) t.albums })
  set_album-IsConsistent a fk = record {
    albums = distinct-map album_clash (set_album a) t.albums (λ x y. ground arith) ∙ h.albums;
    photos = h.photos;
    folders = h.folders;
    photo_albums =
        all_mono (photo_has_album t.albums) (photo_has_album (map (set_album a) t.albums)) t.photos
          (λ p e.
            any-map (album_has_id p.album_id) (album_has_id p.album_id) (set_album a) t.albums
              (λ x. ground arith)
            ∙ e)
          h.photo_albums;
    album_folders = set_album-folders a fk;
    folder_parents = h.folder_parents;
  }

  delete_album-IsConsistent :
      (id : Text)
      → IsConsistent (record t {
        albums = filter (λ a. not (album_has_id id a)) t.albums;
        photos = filter (λ p. not (p.album_id == id)) t.photos;
      })
  delete_album-IsConsistent id = record {
    albums = distinct-filter album_clash (λ a. not (album_has_id id a)) t.albums h.albums;
    photos = distinct-filter photo_clash (λ p. not (p.album_id == id)) t.photos h.photos;
    folders = h.folders;
    photo_albums =
        all-filter (photo_has_album t.albums)
          (photo_has_album (filter (λ a. not (album_has_id id a)) t.albums))
          (λ p. not (p.album_id == id)) t.photos
          (λ p kept e.
            any-filter-true (album_has_id p.album_id) (λ a. not (album_has_id id a)) t.albums
              (λ a same. ground arith)
            ∙ e)
          h.photo_albums;
    album_folders =
        all-filter (album_has_folder t.folders) (album_has_folder t.folders)
          (λ a. not (album_has_id id a)) t.albums (λ a kept e. e) h.album_folders;
    folder_parents = h.folder_parents;
  }

album_conflict-Keeps : (key : Text) → Keeps Holds (album_conflict key)
unfolding album_conflict
album_conflict-Keeps key = record { at = λ db h. ground (arith, statement-Keeps.at db h) }

pub create_album-Keeps : (a : Album) → Keeps Holds (create_album a)
unfolding create_album
create_album-Keeps a = Keeps-statement _ (record {
  at = λ db h. ground (
    arith,
    (album_conflict-Keeps a.idempotency_key).at db h,
    no_clash a db.tables.albums,
    insert_album-IsConsistent db.tables h a,
  );
})

pub update_album-Keeps : (a : Album) → Keeps Holds (update_album a)
unfolding update_album
update_album-Keeps a =
    Keeps-statement _ (record { at = λ db h. ground (arith, set_album-IsConsistent db.tables h a) })

pub delete_album-Keeps : (id : Text) → Keeps Holds (delete_album id)
unfolding delete_album
delete_album-Keeps id =
    Keeps-statement _
      (record { at = λ db h. ground (arith, delete_album-IsConsistent db.tables h id) })

pub get_album-Keeps : (id : Text) → Keeps Holds (get_album id)
unfolding get_album
get_album-Keeps id = search (keeps_rules, statement-Keeps)

pub get_album_by_slug-Keeps : (slug : Text) → Keeps Holds (get_album_by_slug slug)
unfolding get_album_by_slug
get_album_by_slug-Keeps slug = search (keeps_rules, statement-Keeps)

pub get_album_by_idempotency_key-Keeps :
    (key : Text) → Keeps Holds (get_album_by_idempotency_key key)
unfolding get_album_by_idempotency_key
get_album_by_idempotency_key-Keeps key = search (keeps_rules, statement-Keeps)
