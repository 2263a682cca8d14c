-- ===== src/Storage/Walk/Finds.antt =====
-- Which photo directories `Walk` and `Orphans` name.
use photogallery.Prelude.{
  ℕ, ◌≡◌, Bool, true, false, ◌&&◌, Option, none, some, List, [], ◌∷◌, ◌++◌, arith, any, any-append,
  Bool-cases, inl, inr,
}
use photogallery.Prelude.Text.{Text, ◌==◌}
use photogallery.Exec.{Result, ok, err}
use photogallery.Storage.Walk.{
  IoError, missing, unreadable, Entry, Dir, Tree, PhotoDir, Listing, stat_photo, stat_empty,
  is_id_dir, walk_photo, walk_photos, walk_entries, walk_album, walk_albums, new_listing, walk,
  is_older, orphan_photos, old_dirs, orphans,
}
use photogallery.Storage.Walk.Answers.{OnSome, and_then-OnSome, entries_of, is_photo_entry}

module _ (valid : Text → Bool) (now age : ℕ) (album_id photo_id : Text) where
  abbrev pub is_old_time : Result IoError ℕ → Bool
  is_old_time (ok time) = is_older now age time
  is_old_time (err e) = false

  -- An entry that is a directory of the photo's name, older than the age.
  abbrev pub is_old_dir : Entry → Bool
  is_old_dir e = (e.name == photo_id) && (is_id_dir valid e && is_old_time e.mod_time)

  abbrev pub is_found : PhotoDir → Bool
  is_found d = (d.album_id == album_id) && ((d.photo_id == photo_id) && is_older now age d.mod_time)

  abbrev pub Finds : Listing → Type 0
  Finds l = any is_found l.photos ≡ true

  stat_photo-Finds :
      (b q : Text) (r : Result IoError ℕ) (l : Listing)
      → Finds l
      → OnSome Finds (stat_photo b q r l)
  unfolding any
  stat_photo-Finds b q (ok time) l h = ground (
    arith,
    h,
    any-append is_found l.photos (record { album_id = b; photo_id = q; mod_time = time } ∷ []),
  )
  stat_photo-Finds b q (err missing) l h = h
  stat_photo-Finds b q (err unreadable) l h = tt

  walk_photo-Finds :
      (b : Text) (e : Entry) (l : Listing) → Finds l → OnSome Finds (walk_photo valid b e l)
  walk_photo-Finds b e l h = elim (Bool-cases (is_id_dir valid e)) [
    | inl dir ↦ rw dir (stat_photo-Finds b e.name e.mod_time l h)
    | inr other ↦ rw other h
  ]

  walk_photos-Finds :
      (b : Text) (es : List Entry) (l : Listing) → Finds l → OnSome Finds (walk_photos valid b es l)
  unfolding walk_photos
  walk_photos-Finds b [] l h = h
  walk_photos-Finds b (e ∷ es) l h =
      and_then-OnSome Finds Finds (walk_photo valid b e l) (walk_photos valid b es)
        (walk_photos-Finds b es) (walk_photo-Finds b e l h)

  -- The entry that is looked for.
  stat_photo-found :
      (e : Entry) (r : Result IoError ℕ) (l : Listing)
      → (e.name == photo_id) ≡ true
      → is_old_time r ≡ true
      → OnSome Finds (stat_photo album_id e.name r l)
  unfolding any
  stat_photo-found e (ok time) l n h = ground (
    arith,
    n,
    h,
    any-append is_found l.photos
        (record { album_id = album_id; photo_id = e.name; mod_time = time } ∷ []),
  )
  stat_photo-found e (err x) l n h = absurd (ground (arith, h))

  anything : (o : Option Listing) → OnSome (λ l. Unit {0}) o
  anything none = tt
  anything (some l) = tt

  walk_photo-found :
      (e : Entry) (l : Listing) → is_old_dir e ≡ true → OnSome Finds (walk_photo valid album_id e l)
  walk_photo-found e l h = elim (Bool-cases (is_id_dir valid e)) [
    | inl dir ↦ rw dir (stat_photo-found e e.mod_time l (ground (arith, h)) (ground (arith, h)))
    | inr other ↦ absurd (ground (arith, h, other))
  ]

  walk_photos-found :
      (es : List Entry) (l : Listing)
      → any is_old_dir es ≡ true
      → OnSome Finds (walk_photos valid album_id es l)
  unfolding walk_photos any
  walk_photos-found [] l h = absurd (ground (arith, h))
  walk_photos-found (e ∷ es) l h = elim (Bool-cases (is_old_dir e)) [
    | inl here ↦
        and_then-OnSome Finds Finds (walk_photo valid album_id e l) (walk_photos valid album_id es)
          (walk_photos-Finds album_id es) (walk_photo-found e l here)
    | inr later ↦
        and_then-OnSome (λ l'. Unit {0}) Finds (walk_photo valid album_id e l)
          (walk_photos valid album_id es)
          (λ l' u. walk_photos-found es l' (ground (arith, h, later)))
          (anything (walk_photo valid album_id e l))
  ]

  stat_empty-Finds :
      (name : Text) (r : Result IoError ℕ) (l : Listing)
      → Finds l
      → OnSome Finds (stat_empty name r l)
  stat_empty-Finds name (ok time) l h = h
  stat_empty-Finds name (err missing) l h = h
  stat_empty-Finds name (err unreadable) l h = tt

  walk_entries-Finds :
      (a : Entry) (dir : Dir) (l : Listing) → Finds l → OnSome Finds (walk_entries valid a dir l)
  walk_entries-Finds a (err missing) l h = h
  walk_entries-Finds a (err unreadable) l h = tt
  walk_entries-Finds a (ok []) l h = stat_empty-Finds a.name a.mod_time l h
  walk_entries-Finds a (ok (p ∷ ps)) l h = walk_photos-Finds a.name (p ∷ ps) l h

  walk_entries-found :
      (a : Entry) (dir : Dir) (l : Listing)
      → a.name ≡ album_id
      → any is_old_dir (entries_of dir) ≡ true
      → OnSome Finds (walk_entries valid a dir l)
  unfolding any
  walk_entries-found a (err e) l n h = absurd (ground (arith, h))
  walk_entries-found a (ok []) l n h = absurd (ground (arith, h))
  walk_entries-found a (ok (p ∷ ps)) l n h = rw n (walk_photos-found (p ∷ ps) l h)

  module _ (tree : Tree) where
    abbrev pub is_album_dir : Entry → Bool
    is_album_dir a = (a.name == album_id) && is_id_dir valid a

    walk_album-Finds :
        (a : Entry) (l : Listing) → Finds l → OnSome Finds (walk_album valid tree a l)
    walk_album-Finds a l h = elim (Bool-cases (is_id_dir valid a)) [
      | inl dir ↦ rw dir (walk_entries-Finds a (tree.album a.name) l h)
      | inr other ↦ rw other h
    ]

    walk_albums-Finds :
        (es : List Entry) (l : Listing) → Finds l → OnSome Finds (walk_albums valid tree es l)
    unfolding walk_albums
    walk_albums-Finds [] l h = h
    walk_albums-Finds (a ∷ es) l h =
        and_then-OnSome Finds Finds (walk_album valid tree a l) (walk_albums valid tree es)
          (walk_albums-Finds es) (walk_album-Finds a l h)

    module _ (old : any is_old_dir (entries_of (tree.album album_id)) ≡ true) where
      walk_album-found :
          (a : Entry) (l : Listing)
          → is_album_dir a ≡ true
          → OnSome Finds (walk_album valid tree a l)
      walk_album-found a l h =
          let name : a.name ≡ album_id = ground (arith, h) in
          let dir : is_id_dir valid a ≡ true = ground (arith, h) in
          rw dir (walk_entries-found a (tree.album a.name) l name (rw name old))

      walk_albums-found :
          (es : List Entry) (l : Listing)
          → any is_album_dir es ≡ true
          → OnSome Finds (walk_albums valid tree es l)
      unfolding walk_albums any
      walk_albums-found [] l h = absurd (ground (arith, h))
      walk_albums-found (a ∷ es) l h = elim (Bool-cases (is_album_dir a)) [
        | inl here ↦
            and_then-OnSome Finds Finds (walk_album valid tree a l) (walk_albums valid tree es)
              (walk_albums-Finds es) (walk_album-found a l here)
        | inr later ↦
            and_then-OnSome (λ l'. Unit {0}) Finds (walk_album valid tree a l)
              (walk_albums valid tree es)
              (λ l' u. walk_albums-found es l' (ground (arith, h, later)))
              (anything (walk_album valid tree a l))
      ]

      pub walk-found :
          any is_album_dir (entries_of tree.photos) ≡ true → OnSome Finds (walk valid tree)
      unfolding walk any
      walk-found h = start tree.photos h
        where
          start :
              (dir : Dir)
              → any is_album_dir (entries_of dir) ≡ true
              → OnSome Finds (elim dir [
                | ok albums ↦ walk_albums valid tree albums new_listing
                | err e ↦ none
              ])
          start (ok albums) h = walk_albums-found albums new_listing h
          start (err e) h = tt

  module _ (known : Text → Text → Bool) (lost : known album_id photo_id ≡ false) where
    orphan_photos-found :
        (ps : List PhotoDir)
        → any is_found ps ≡ true
        → any (is_photo_entry album_id photo_id) (orphan_photos known now age ps) ≡ true
    unfolding any orphan_photos
    orphan_photos-found [] h = h
    orphan_photos-found (d ∷ ps) h = ground (arith, h, lost, orphan_photos-found ps)

    pub orphans-found :
        (l : Listing)
        → Finds l
        → any (is_photo_entry album_id photo_id) (orphans known now age l) ≡ true
    unfolding orphans
    orphans-found l h =
        let photos = orphan_photos known now age l.photos in
        let dirs = old_dirs known now age l.empty_dirs in
        let test = is_photo_entry album_id photo_id in
        ground (
          arith,
          any-append test l.junk (photos ++ dirs),
          any-append test photos dirs,
          orphan_photos-found l.photos h,
        )
