-- ===== src/Storage/Walk.antt =====
-- backend/internal/storage/storage.go: Walk, Orphans and StaleIncoming. What the operating system
-- lists is a parameter. A path is built from the names of its directory entries, so the names stand
-- for it.
pub mod Answers
pub mod Spares
pub mod Finds
use photogallery.Prelude.{
  ℕ, ◌+◌, Bool, ◌&&◌, not, Option, none, some, List, [], ◌∷◌, ◌++◌, ltb, if◌then◌else◌,
}
use photogallery.Prelude.Text.{Text}
use photogallery.Exec.{Result, ok, err}

-- Reading a directory or the modification time of an entry: the thing may be gone by then.
pub data IoError : Type 0 where
  missing unreadable : IoError

pub record Entry : Type 0 where
  pub name : Text
  pub is_dir : Bool
  pub mod_time : Result IoError ℕ

abbrev pub Dir : Type 0
Dir = Result IoError (List Entry)

-- The directory photos, each album directory, and the directory incoming.
pub record Tree : Type 0 where
  pub photos : Dir
  pub album : Text → Dir
  pub incoming : Dir

pub data Target : Type 0 where
  album_entry : Text → Target
  photo_entry : Text → Text → Target
  incoming_entry : Text → Target

pub record PhotoDir : Type 0 where
  pub album_id : Text
  pub photo_id : Text
  pub mod_time : ℕ

pub record DirInfo : Type 0 where
  pub name : Text
  pub mod_time : ℕ

pub record Listing : Type 0 where
  pub photos : List PhotoDir
  pub junk : List Target
  pub empty_dirs : List DirInfo

abbrev pub new_listing : Listing
new_listing = record { photos = []; junk = []; empty_dirs = [] }

abbrev pub add_junk : Target → Listing → Listing
add_junk t l = record l { junk = l.junk ++ t ∷ [] }

abbrev pub add_photo : Text → Text → ℕ → Listing → Listing
add_photo album_id photo_id time l = record l {
  photos = l.photos ++ record { album_id = album_id; photo_id = photo_id; mod_time = time } ∷ [];
}

abbrev pub add_empty : Text → ℕ → Listing → Listing
add_empty name time l = record l {
  empty_dirs = l.empty_dirs ++ record { name = name; mod_time = time } ∷ [];
}

-- What is missing is passed over; another error ends the walk.
abbrev pub stat_photo : Text → Text → Result IoError ℕ → Listing → Option Listing
stat_photo album_id photo_id (ok time) l = some (add_photo album_id photo_id time l)
stat_photo album_id photo_id (err missing) l = some l
stat_photo album_id photo_id (err e) l = none

abbrev pub stat_empty : Text → Result IoError ℕ → Listing → Option Listing
stat_empty name (ok time) l = some (add_empty name time l)
stat_empty name (err missing) l = some l
stat_empty name (err e) l = none

unfoldable pub and_then : {A B : Type 0} → Option A → (A → Option B) → Option B
and_then none f = none
and_then (some a) f = f a

module _ (valid : Text → Bool) where
  abbrev pub is_id_dir : Entry → Bool
  is_id_dir e = e.is_dir && valid e.name

  -- One round of the loop over the entries of an album directory.
  abbrev pub walk_photo : Text → Entry → Listing → Option Listing
  walk_photo album_id p l =
      if is_id_dir p
      then stat_photo album_id p.name p.mod_time l
      else some (add_junk (photo_entry album_id p.name) l)

  unfoldable pub walk_photos : Text → List Entry → Listing → Option Listing
  walk_photos album_id [] l = some l
  walk_photos album_id (p ∷ ps) l = and_then (walk_photo album_id p l) (walk_photos album_id ps)

  abbrev pub walk_entries : Entry → Dir → Listing → Option Listing
  walk_entries a (err missing) l = some l
  walk_entries a (err e) l = none
  walk_entries a (ok []) l = stat_empty a.name a.mod_time l
  walk_entries a (ok (p ∷ ps)) l = walk_photos a.name (p ∷ ps) l

  module _ (tree : Tree) where
    abbrev pub walk_album : Entry → Listing → Option Listing
    walk_album a l =
        if is_id_dir a
        then walk_entries a (tree.album a.name) l
        else some (add_junk (album_entry a.name) l)

    unfoldable pub walk_albums : List Entry → Listing → Option Listing
    unfolding walk_photos
    walk_albums [] l = some l
    walk_albums (a ∷ rest) l = and_then (walk_album a l) (walk_albums rest)

    -- `Walk`; none is the error
    unfoldable pub walk : Option Listing
    unfolding walk_albums
    walk = elim tree.photos [ ok albums ↦ walk_albums albums new_listing | err e ↦ none ]

-- `now.Sub(t) > age`, where `t` may lie ahead
abbrev pub is_older : ℕ → ℕ → ℕ → Bool
is_older now age time = ltb (time + age) now

module _ (known : Text → Text → Bool) (now age : ℕ) where
  unfoldable pub orphan_photos : List PhotoDir → List Target
  orphan_photos [] = []
  orphan_photos (p ∷ ps) =
      let rest = orphan_photos ps in
      if not (known p.album_id p.photo_id) && is_older now age p.mod_time
      then photo_entry p.album_id p.photo_id ∷ rest
      else rest

  unfoldable pub old_dirs : List DirInfo → List Target
  old_dirs [] = []
  old_dirs (d ∷ ds) =
      let rest = old_dirs ds in
      if is_older now age d.mod_time then album_entry d.name ∷ rest else rest

  -- `Orphans`
  unfoldable pub orphans : Listing → List Target
  unfolding orphan_photos old_dirs
  orphans l = l.junk ++ (orphan_photos l.photos ++ old_dirs l.empty_dirs)

module _ (now age : ℕ) where
  abbrev pub stale_entry : Entry → Result IoError ℕ → List Target → Option (List Target)
  stale_entry e (ok time) rest =
      some (if is_older now age time then incoming_entry e.name ∷ rest else rest)
  stale_entry e (err missing) rest = some rest
  stale_entry e (err x) rest = none

  unfoldable pub stale_entries : List Entry → Option (List Target)
  stale_entries [] = some []
  stale_entries (e ∷ es) = and_then (stale_entries es) (stale_entry e e.mod_time)

  -- `StaleIncoming`
  unfoldable pub stale_incoming : Dir → Option (List Target)
  unfolding stale_entries
  stale_incoming (err e) = none
  stale_incoming (ok entries) = stale_entries entries
