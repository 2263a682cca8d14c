-- ===== src/Db/Consistent/OfFolders.antt =====
-- The statements on folders keep the constraints; the cascade of a deletion runs to its end.
use mathlib.Core.List.{map}
use photogallery.Prelude.{
  ◌≡◌, ◌∙◌, true, false, not, ◌&&◌, ◌||◌, List, [], ◌∷◌, ◌++◌, arith, any, all, distinct-append_one,
  distinct-map, all-append_one, all-map, all_mono, any_or, any_grows, any-map, map_untouched,
  Bool-cases, inl, inr,
}
use photogallery.Prelude.Text.{Text}
use photogallery.Exec.Keeps.{Keeps, keeps_rules}
use photogallery.Db.{Folder, Tables}
use photogallery.Db.Albums.{folder_has_id, folder_known}
use photogallery.Db.Folders.{
  folder_has_slug, folder_has_key, folder_conflict, create_folder, get_folder, get_folder_by_slug,
  get_folder_by_idempotency_key, assign_folder, set_folder, update_folder, folder_chain,
  subtree_album_ids,
}
use photogallery.Db.Consistent.{
  folder_clash, album_has_folder, folder_has_parent, IsConsistent, Holds, statement-Keeps,
  Keeps-statement,
}

folder_clash_sym : (f g : Folder) → folder_clash f g ≡ folder_clash g f
folder_clash_sym f g = ground arith

no_clash :
    (f : Folder) (folders : List Folder)
    → any (folder_has_id f.id) folders ≡ false
    → (any (folder_has_slug f.slug) folders || any (folder_has_key f.idempotency_key) folders)
      ≡ false
    → any (folder_clash f) folders ≡ false
no_clash f folders i s =
    any_or (folder_has_id f.id)
      (λ g. folder_has_slug f.slug g || folder_has_key f.idempotency_key g) folders
    ∙ ground (arith, any_or (folder_has_slug f.slug) (folder_has_key f.idempotency_key) folders)

folder_known_grows :
    (folders : List Folder) (f : Folder) (id : Text)
    → folder_known folders id ≡ true
    → folder_known (folders ++ f ∷ []) id ≡ true
folder_known_grows folders f id e = ground (arith, any_grows (folder_has_id id) folders (f ∷ []))

folder_known-set :
    (folders : List Folder) (f : Folder) (id : Text)
    → folder_known (map (set_folder f) folders) id ≡ folder_known folders id
folder_known-set folders f id = ground (
  arith,
  any-map (folder_has_id id) (folder_has_id id) (set_folder f) folders (λ x. ground arith),
)

module _ (t : Tables) (h : IsConsistent t) (f : Folder) where
  insert_folder-IsConsistent :
      any (folder_clash f) t.folders ≡ false
      → folder_known t.folders f.parent_id ≡ true
      → IsConsistent (record t { folders = t.folders ++ f ∷ [] })
  insert_folder-IsConsistent fresh fk =
      let grows = folder_known_grows t.folders f in
      record {
        albums = h.albums;
        photos = h.photos;
        folders = distinct-append_one folder_clash f t.folders folder_clash_sym h.folders fresh;
        photo_albums = h.photo_albums;
        album_folders = all_mono _ _ t.albums (λ a. grows a.folder_id) h.album_folders;
        folder_parents =
            all-append_one _ f t.folders
              (all_mono _ _ t.folders (λ g. grows g.parent_id) h.folder_parents)
              (grows f.parent_id fk);
      }

  set_folder-parents :
      (any (folder_has_id f.id) t.folders && not (folder_known t.folders f.parent_id)) ≡ false
      → all (folder_has_parent t.folders) (map (set_folder f) t.folders) ≡ true
  set_folder-parents fk = elim (Bool-cases (folder_known t.folders f.parent_id)) [
    | inl known ↦
        all-map (folder_has_parent t.folders) (folder_has_parent t.folders) (set_folder f) t.folders
          (λ x e. ground arith) h.folder_parents
    | inr unknown ↦
        rw (map_untouched (folder_has_id f.id) (assign_folder f) t.folders (ground arith))
          h.folder_parents
  ]

  set_folder-IsConsistent :
      (any (folder_has_id f.id) t.folders && not (folder_known t.folders f.parent_id)) ≡ false
      → IsConsistent (record t { folders = map (set_folder f) t.folders })
  set_folder-IsConsistent fk =
      let same = folder_known-set t.folders f in
      record {
        albums = h.albums;
        photos = h.photos;
        folders =
            distinct-map folder_clash (set_folder f) t.folders (λ x y. ground arith) ∙ h.folders;
        photo_albums = h.photo_albums;
        album_folders =
            all_mono (album_has_folder t.folders) (album_has_folder (map (set_folder f) t.folders))
              t.albums (λ a e. same a.folder_id ∙ e) h.album_folders;
        folder_parents =
            all_mono (folder_has_parent t.folders)
              (folder_has_parent (map (set_folder f) t.folders)) (map (set_folder f) t.folders)
              (λ g e. same g.parent_id ∙ e) (set_folder-parents fk);
      }

folder_conflict-Keeps : (key : Text) → Keeps Holds (folder_conflict key)
unfolding folder_conflict
folder_conflict-Keeps key = record { at = λ db h. ground (arith, statement-Keeps.at db h) }

pub create_folder-Keeps : (f : Folder) → Keeps Holds (create_folder f)
unfolding create_folder
create_folder-Keeps f = Keeps-statement _ (record {
  at = λ db h. ground (
    arith,
    (folder_conflict-Keeps f.idempotency_key).at db h,
    no_clash f db.tables.folders,
    insert_folder-IsConsistent db.tables h f,
  );
})

pub update_folder-Keeps : (f : Folder) → Keeps Holds (update_folder f)
unfolding update_folder
update_folder-Keeps f =
    Keeps-statement _
      (record { at = λ db h. ground (arith, set_folder-IsConsistent db.tables h f) })

pub get_folder-Keeps : (id : Text) → Keeps Holds (get_folder id)
unfolding get_folder
get_folder-Keeps id = search (keeps_rules, statement-Keeps)

pub get_folder_by_slug-Keeps : (slug : Text) → Keeps Holds (get_folder_by_slug slug)
unfolding get_folder_by_slug
get_folder_by_slug-Keeps slug = search (keeps_rules, statement-Keeps)

pub get_folder_by_idempotency_key-Keeps :
    (key : Text) → Keeps Holds (get_folder_by_idempotency_key key)
unfolding get_folder_by_idempotency_key
get_folder_by_idempotency_key-Keeps key = search (keeps_rules, statement-Keeps)

pub folder_chain-Keeps : (id : Text) → Keeps Holds (folder_chain id)
unfolding folder_chain
folder_chain-Keeps [] = search keeps_rules
folder_chain-Keeps (c ∷ id) = search (keeps_rules, statement-Keeps)

pub subtree_album_ids-Keeps : (id : Text) → Keeps Holds (subtree_album_ids id)
unfolding subtree_album_ids
subtree_album_ids-Keeps id = search (keeps_rules, statement-Keeps)
