-- ===== src/Db/Consistent/Cascade.antt =====
-- Deleting a folder: in the middle of the cascade the constraints hold but for the folders whose
-- turn comes next, and the rounds suffice for the cascade to end.
use photogallery.Prelude.{
  ℕ, zero, suc, ◌+◌, ◌<◌, ◌≡◌, refl, ◌∙◌, Bool, true, false, not, ◌||◌, List, [], ◌∷◌, arith,
  if◌then◌else◌, any, all, distinct, filter, length, distinct-filter, all-filter, all_mono,
  any-filter-true, any-filter_rest, all_both, Bool-cases, inl, inr, length-filter-le,
}
use photogallery.Prelude.Text.{Text, is_empty}
use photogallery.Exec.Keeps.{Keeps}
use photogallery.Db.{Folder, Tables}
use photogallery.Db.Albums.{album_has_id, folder_has_id, folder_known}
use photogallery.Db.Folders.{
  among, is_child_of, children, in_folder, drop_folders, cascade, delete_folder,
}
use photogallery.Db.Consistent.{
  album_clash, photo_clash, folder_clash, photo_has_album, album_has_folder, folder_has_parent,
  IsConsistent, Holds, Keeps-statement,
}

abbrev folder_has_parent_or : List Text → List Folder → Folder → Bool
folder_has_parent_or ids folders f =
    among (children ids folders) f.id || folder_has_parent folders f

-- The folders with the given ids may have lost their parents; their turn is next.
record IsPending (ids : List Text) (t : Tables) : Type 0 where
  albums : distinct album_clash t.albums ≡ true
  photos : distinct photo_clash t.photos ≡ true
  folders : distinct folder_clash t.folders ≡ true
  photo_albums : all (photo_has_album t.albums) t.photos ≡ true
  album_folders : all (album_has_folder t.folders) t.albums ≡ true
  folder_parents : all (λ f. among ids f.id || folder_has_parent t.folders f) t.folders ≡ true
  present : all (λ id. any (folder_has_id id) t.folders) ids ≡ true

IsPending-done : (t : Tables) → IsPending [] t → IsConsistent t
unfolding any
IsPending-done t h = record {
  albums = h.albums;
  photos = h.photos;
  folders = h.folders;
  photo_albums = h.photo_albums;
  album_folders = h.album_folders;
  folder_parents = h.folder_parents;
}

has_id-eq : (id : Text) (f : Folder) → folder_has_id id f ≡ true → f.id ≡ id
has_id-eq id f e = ground arith

-- A folder that is known and does not go is still known.
folder_known_stays :
    (ids : List Text) (folders : List Folder) (id : Text)
    → (if is_empty id then false else among ids id) ≡ false
    → folder_known folders id ≡ true
    → folder_known (filter (λ f. not (among ids f.id)) folders) id ≡ true
folder_known_stays ids folders id stays e = elim (Bool-cases (is_empty id)) [
  | inl root ↦ rw root refl
  | inr some_id ↦
      let here : any (folder_has_id id) folders ≡ true = ground arith in
      let out : among ids id ≡ false = ground arith in
      rw some_id (
        any-filter-true (folder_has_id id) (λ f. not (among ids f.id)) folders
          (λ f same. rw (has_id-eq id f same, out) refl)
        ∙ here)
]

abbrev handed_on : List Text → List Text → Folder → Bool
handed_on ids next f = not (is_child_of ids f) || among next f.id

-- Every child of what goes stands in the next round.
children-handed_on :
    (ids : List Text) (fs : List Folder) → all (handed_on ids (children ids fs)) fs ≡ true
unfolding all any filter
children-handed_on ids [] = refl
children-handed_on ids (f ∷ fs) = ground (
  arith,
  children-handed_on ids fs,
  all_mono (handed_on ids (children ids fs)) (handed_on ids (f.id ∷ children ids fs)) fs
      (λ g e. ground arith) (children-handed_on ids fs),
)

children-present :
    (ids : List Text) (fs : List Folder)
    → all (λ id. any (folder_has_id id) fs) (children ids fs) ≡ true
unfolding all any filter
children-present ids [] = refl
children-present ids (f ∷ fs) = ground (
  arith,
  all_mono (λ id. any (folder_has_id id) fs) (λ id. any (folder_has_id id) (f ∷ fs))
      (children ids fs) (λ id e. ground arith) (children-present ids fs),
)

drop_folders-parents :
    (ids : List Text) (t : Tables)
    → IsPending ids t
    → all (folder_has_parent_or ids (drop_folders ids t).folders) (drop_folders ids t).folders
      ≡ true
unfolding drop_folders
drop_folders-parents ids t h =
    let left = filter (λ f. not (among ids f.id)) t.folders in
    all_both (λ f. is_child_of ids f || folder_has_parent left f)
      (handed_on ids (children ids left))
      (λ f. among (children ids left) f.id || folder_has_parent left f) left (λ f e g. ground arith)
      (all-filter (λ f. among ids f.id || folder_has_parent t.folders f) _
        (λ f. not (among ids f.id)) t.folders
        (λ f stays e. ground (arith, folder_known_stays ids t.folders f.parent_id))
        h.folder_parents)
      (children-handed_on ids left)

drop_folders-IsPending :
    (ids : List Text) (t : Tables)
    → IsPending ids t
    → IsPending (children ids (drop_folders ids t).folders) (drop_folders ids t)
drop_folders-IsPending ids t h = record {
  albums = unfold drop_folders in distinct-filter album_clash _ t.albums h.albums;
  photos = unfold drop_folders in distinct-filter photo_clash _ t.photos h.photos;
  folders = unfold drop_folders in distinct-filter folder_clash _ t.folders h.folders;
  photo_albums =
      unfold drop_folders in
      all-filter (photo_has_album t.albums) _ _ t.photos
        (λ p stays e.
          any-filter_rest (album_has_id p.album_id) (in_folder ids) t.albums (ground arith) e)
        h.photo_albums;
  album_folders =
      unfold drop_folders in
      all-filter (album_has_folder t.folders) _ (λ a. not (in_folder ids a)) t.albums
        (λ a stays e. folder_known_stays ids t.folders a.folder_id (ground arith) e)
        h.album_folders;
  folder_parents = drop_folders-parents ids t h;
  present = children-present ids (drop_folders ids t).folders;
}

-- A round with an id to delete makes the table shorter.
filter-shorter :
    (p q : Folder → Bool) (fs : List Folder)
    → ((f : Folder) → p f ≡ true → q f ≡ false)
    → any p fs ≡ true
    → length (filter q fs) < length fs
unfolding any filter
filter-shorter p q [] h e = cc
filter-shorter p q (f ∷ fs) h e =
    ground (arith, h f, filter-shorter p q fs h, length-filter-le q fs)

drop_folders-shorter :
    (id : Text) (ids : List Text) (t : Tables)
    → IsPending (id ∷ ids) t
    → length (drop_folders (id ∷ ids) t).folders < length t.folders
unfolding drop_folders all any
drop_folders-shorter id ids t h =
    filter-shorter (folder_has_id id) (λ f. not (among (id ∷ ids) f.id)) t.folders
      (λ f same. rw (has_id-eq id f same) (ground arith)) (unfold all in ground arith)

cascade-IsConsistent :
    (fuel : ℕ) (ids : List Text) (t : Tables)
    → length t.folders < fuel
    → IsPending ids t
    → IsConsistent (cascade fuel ids t)
unfolding cascade
cascade-IsConsistent zero ids t enough h = absurd (omega arith)
cascade-IsConsistent (suc fuel) [] t enough h = IsPending-done t h
cascade-IsConsistent (suc fuel) (id ∷ ids) t enough h =
    cascade-IsConsistent fuel (children (id ∷ ids) (drop_folders (id ∷ ids) t).folders)
      (drop_folders (id ∷ ids) t) (omega (arith, drop_folders-shorter id ids t h))
      (drop_folders-IsPending (id ∷ ids) t h)

IsPending-start :
    (id : Text) (t : Tables)
    → IsConsistent t
    → any (folder_has_id id) t.folders ≡ true
    → IsPending (id ∷ []) t
unfolding all
IsPending-start id t h e = record {
  albums = h.albums;
  photos = h.photos;
  folders = h.folders;
  photo_albums = h.photo_albums;
  album_folders = h.album_folders;
  folder_parents =
      all_mono (folder_has_parent t.folders) _ t.folders (λ f p. ground arith) h.folder_parents;
  present = ground arith;
}

-- Deleting a folder, whether it succeeds, finds no folder or fails, keeps the primary keys, the unique
-- indexes and the foreign keys: the rounds of the cascade are enough to leave no folder, album or
-- photo below a deleted folder.
pub delete_folder-Keeps : (id : Text) → Keeps Holds (delete_folder id)
unfolding delete_folder
delete_folder-Keeps id = Keeps-statement _ (record {
  at = λ db h. ground (
    arith,
    h,
    cascade-IsConsistent (length db.tables.folders + 1) (id ∷ []) db.tables (omega arith),
    IsPending-start id db.tables h,
  );
})
