-- ===== src/Storage/Walk/Spares.antt =====
-- Which photo directories `Walk` and `Orphans` spare, and which they name.
use photogallery.Prelude.{
  ℕ, ◌≡◌, refl, Bool, true, false, ◌&&◌, ◌||◌, not, none, List, [], ◌∷◌, ◌++◌, arith, any, all,
  any-append, Bool-cases, inl, inr,
}
use photogallery.Prelude.Text.{Text, text_dec, text_ne, ◌==◌}
use photogallery.Exec.{Result, ok, err}
use photogallery.Storage.Walk.Answers.{OnSome, and_then-OnSome, entries_of, is_photo_entry}
use photogallery.Storage.Walk.{
  IoError, missing, unreadable, Entry, Dir, Tree, Target, album_entry, PhotoDir, DirInfo, Listing,
  add_junk, stat_photo, stat_empty, is_id_dir, walk_photo, walk_photos, walk_entries, walk_album,
  walk_albums, new_listing, walk, is_older, orphan_photos, old_dirs, orphans, stale_entries,
  stale_incoming, stale_entry,
}

module _ (valid : Text → Bool) (known : Text → Text → Bool) (now age : ℕ)
    (album_id photo_id : Text) where
  abbrev pub is_due : Result IoError ℕ → Bool
  is_due (ok time) = not (known album_id photo_id) && is_older now age time
  is_due (err e) = false

  -- An entry that does not name the photo, or is the directory of one that is known or young.
  abbrev pub is_spared : Entry → Bool
  is_spared e = not (e.name == photo_id) || (is_id_dir valid e && not (is_due e.mod_time))

  abbrev is_kept_dir : PhotoDir → Bool
  is_kept_dir d =
      not ((d.album_id == album_id) && (d.photo_id == photo_id)) || not (is_due (ok d.mod_time))

  pub record Spares (l : Listing) : Type 0 where
    pub no_junk : any (is_photo_entry album_id photo_id) l.junk ≡ false
    pub kept : all is_kept_dir l.photos ≡ true

  all_end :
      (p : PhotoDir → Bool) (ps : List PhotoDir) (d : PhotoDir)
      → all p ps ≡ true
      → p d ≡ true
      → all p (ps ++ d ∷ []) ≡ true
  unfolding all
  all_end p [] d h k = ground (arith, k)
  all_end p (x ∷ ps) d h k = ground (arith, h, k, all_end p ps d)

  add_junk-Spares :
      (t : Target) (l : Listing)
      → is_photo_entry album_id photo_id t ≡ false
      → Spares l
      → Spares (add_junk t l)
  unfolding any
  add_junk-Spares t l k h = record {
    no_junk =
        ground (arith, k, h.no_junk, any-append (is_photo_entry album_id photo_id) l.junk (t ∷ []));
    kept = h.kept;
  }

  stat_photo-Spares :
      (b q : Text) (r : Result IoError ℕ) (l : Listing)
      → (not ((b == album_id) && (q == photo_id)) || not (is_due r)) ≡ true
      → Spares l
      → OnSome Spares (stat_photo b q r l)
  stat_photo-Spares b q (ok time) l k h = record {
    no_junk = h.no_junk;
    kept = all_end is_kept_dir l.photos _ h.kept k;
  }
  stat_photo-Spares b q (err missing) l k h = h
  stat_photo-Spares b q (err unreadable) l k h = tt

  walk_photo-Spares :
      (b : Text) (e : Entry) (l : Listing)
      → (not (b == album_id) || is_spared e) ≡ true
      → Spares l
      → OnSome Spares (walk_photo valid b e l)
  walk_photo-Spares b e l k h = elim (Bool-cases (is_id_dir valid e)) [
    | inl dir ↦ rw dir (stat_photo-Spares b e.name e.mod_time l (ground (arith, k, dir)) h)
    | inr other ↦ rw other (add_junk-Spares _ l (ground (arith, k, other)) h)
  ]

  walk_photos-Spares :
      (b : Text) (es : List Entry) (l : Listing)
      → (not (b == album_id) || all is_spared es) ≡ true
      → Spares l
      → OnSome Spares (walk_photos valid b es l)
  unfolding walk_photos all
  walk_photos-Spares b [] l k h = h
  walk_photos-Spares b (e ∷ es) l k h =
      and_then-OnSome Spares Spares (walk_photo valid b e l) (walk_photos valid b es)
        (λ l'. walk_photos-Spares b es l' (ground (arith, k)))
        (walk_photo-Spares b e l (ground (arith, k)) h)

  stat_empty-Spares :
      (name : Text) (r : Result IoError ℕ) (l : Listing)
      → Spares l
      → OnSome Spares (stat_empty name r l)
  stat_empty-Spares name (ok time) l h = record { no_junk = h.no_junk; kept = h.kept }
  stat_empty-Spares name (err missing) l h = h
  stat_empty-Spares name (err unreadable) l h = tt

  walk_entries-Spares :
      (a : Entry) (dir : Dir) (l : Listing)
      → (not (a.name == album_id) || all is_spared (entries_of dir)) ≡ true
      → Spares l
      → OnSome Spares (walk_entries valid a dir l)
  walk_entries-Spares a (err missing) l k h = h
  walk_entries-Spares a (err unreadable) l k h = tt
  walk_entries-Spares a (ok []) l k h = stat_empty-Spares a.name a.mod_time l h
  walk_entries-Spares a (ok (p ∷ ps)) l k h = walk_photos-Spares a.name (p ∷ ps) l k h

  module _ (tree : Tree) (fine : all is_spared (entries_of (tree.album album_id)) ≡ true) where
    named :
        (name : Text)
        → (not (name == album_id) || all is_spared (entries_of (tree.album name))) ≡ true
    named name = elim (text_dec name album_id) [
      | yes e ↦ rw e (ground (arith, fine))
      | no k ↦ rw (text_ne name album_id k) refl
    ]

    walk_album-Spares :
        (a : Entry) (l : Listing) → Spares l → OnSome Spares (walk_album valid tree a l)
    walk_album-Spares a l h = elim (Bool-cases (is_id_dir valid a)) [
      | inl dir ↦ rw dir (walk_entries-Spares a (tree.album a.name) l (named a.name) h)
      | inr other ↦ rw other (add_junk-Spares (album_entry a.name) l refl h)
    ]

    walk_albums-Spares :
        (es : List Entry) (l : Listing) → Spares l → OnSome Spares (walk_albums valid tree es l)
    unfolding walk_albums
    walk_albums-Spares [] l h = h
    walk_albums-Spares (a ∷ es) l h =
        and_then-OnSome Spares Spares (walk_album valid tree a l) (walk_albums valid tree es)
          (walk_albums-Spares es) (walk_album-Spares a l h)

    pub walk-Spares : OnSome Spares (walk valid tree)
    unfolding walk any all
    walk-Spares = start tree.photos
      where
        none_yet : Spares new_listing
        none_yet = record { no_junk = refl; kept = refl }

        start :
            (dir : Dir)
            → OnSome Spares
                (elim dir [ ok albums ↦ walk_albums valid tree albums new_listing | err e ↦ none ])
        start (ok albums) = walk_albums-Spares albums new_listing none_yet
        start (err e) = tt

  orphan_photos-spared :
      (ps : List PhotoDir)
      → all is_kept_dir ps ≡ true
      → any (is_photo_entry album_id photo_id) (orphan_photos known now age ps) ≡ false
  unfolding any all orphan_photos
  orphan_photos-spared [] k = refl
  orphan_photos-spared (d ∷ ps) k = ground (arith, k, orphan_photos-spared ps)

  old_dirs-spared :
      (ds : List DirInfo)
      → any (is_photo_entry album_id photo_id) (old_dirs known now age ds) ≡ false
  unfolding any old_dirs
  old_dirs-spared [] = refl
  old_dirs-spared (d ∷ ds) = ground (arith, old_dirs-spared ds)

  pub orphans-spared :
      (l : Listing)
      → Spares l
      → any (is_photo_entry album_id photo_id) (orphans known now age l) ≡ false
  unfolding orphans
  orphans-spared l h =
      let photos = orphan_photos known now age l.photos in
      let dirs = old_dirs known now age l.empty_dirs in
      let test = is_photo_entry album_id photo_id in
      ground (
        arith,
        h.no_junk,
        any-append test l.junk (photos ++ dirs),
        any-append test photos dirs,
        orphan_photos-spared l.photos h.kept,
        old_dirs-spared l.empty_dirs,
      )

  stale_entry-spared :
      (e : Entry) (r : Result IoError ℕ) (rest : List Target)
      → any (is_photo_entry album_id photo_id) rest ≡ false
      → OnSome
          (λ ts. any (is_photo_entry album_id photo_id) ts ≡ false)
          (stale_entry now age e r rest)
  unfolding any
  stale_entry-spared e (ok time) rest h = ground (arith, h)
  stale_entry-spared e (err missing) rest h = h
  stale_entry-spared e (err unreadable) rest h = tt

  stale_entries-spared :
      (es : List Entry)
      → OnSome (λ ts. any (is_photo_entry album_id photo_id) ts ≡ false) (stale_entries now age es)
  unfolding stale_entries any
  stale_entries-spared [] = refl
  stale_entries-spared (e ∷ es) =
      let spared = λ (ts : List Target). any (is_photo_entry album_id photo_id) ts ≡ false in
      and_then-OnSome spared spared (stale_entries now age es) (stale_entry now age e e.mod_time)
        (stale_entry-spared e e.mod_time) (stale_entries-spared es)

  pub stale_incoming-spared :
      (dir : Dir)
      → OnSome
          (λ ts. any (is_photo_entry album_id photo_id) ts ≡ false)
          (stale_incoming now age dir)
  unfolding stale_incoming
  stale_incoming-spared (ok es) = stale_entries-spared es
  stale_incoming-spared (err e) = tt

-- The more photos are known, the more entries are spared.
module _ (valid : Text → Bool) (known known' : Text → Text → Bool) (now age : ℕ)
    (album_id photo_id : Text)
    (more : known album_id photo_id ≡ true → known' album_id photo_id ≡ true) where
  is_due-known :
      (r : Result IoError ℕ)
      → is_due valid known now age album_id photo_id r ≡ false
      → is_due valid known' now age album_id photo_id r ≡ false
  is_due-known (ok time) h = elim (Bool-cases (known album_id photo_id)) [
    | inl e ↦ ground (arith, more e)
    | inr e ↦ ground (arith, h, e)
  ]
  is_due-known (err e) h = refl

  pub is_spared-known :
      (es : List Entry)
      → all (is_spared valid known now age album_id photo_id) es ≡ true
      → all (is_spared valid known' now age album_id photo_id) es ≡ true
  unfolding all
  is_spared-known [] h = refl
  is_spared-known (e ∷ es) h = ground (arith, h, is_due-known e.mod_time, is_spared-known es)
