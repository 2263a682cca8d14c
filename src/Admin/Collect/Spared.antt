-- ===== src/Admin/Collect/Spared.antt =====
-- The garbage collection spares what the tables know and what is young, and names the rest.
use mathlib.Core.List.{map}
use photogallery.Prelude.{
  ℕ, ◌≡◌, Bool, true, false, some, List, [], ◌∷◌, ◌++◌, arith, any, all, any-append,
}
use photogallery.Prelude.Text.{Text, text_eq}
use photogallery.Exec.{ok}
use photogallery.Db.{Photo, Db}
use photogallery.Db.Photos.{photo_has_id}
use photogallery.Storage.Walk.{Tree, Target, Listing, walk, orphans, stale_incoming}
use photogallery.Storage.Walk.Answers.{OnSome-some, is_photo_entry, entries_of}
use photogallery.Storage.Walk.Spares.{
  is_spared, walk-Spares, orphans-spared, stale_incoming-spared, is_spared-known, Spares,
}
use photogallery.Storage.Walk.Finds.{Finds, is_old_dir, is_album_dir, walk-found, orphans-found}
use photogallery.Admin.Collect.Steps.{refs_of, gc_targets-targets}
use photogallery.Admin.Collect.{gc_grace, key_of, is_known, gc_targets}

abbrev pub has_row : Db → Text → Text → Bool
has_row db album_id photo_id = any (photo_has_id album_id photo_id) db.tables.photos

row-is_known :
    (album_id photo_id : Text) (ps : List Photo)
    → any (photo_has_id album_id photo_id) ps ≡ true
    → is_known (map (λ q. (q.album_id, q.id)) ps) album_id photo_id ≡ true
unfolding any is_known
row-is_known album_id photo_id [] h = h
row-is_known album_id photo_id (q ∷ ps) h = ground (
  arith,
  h,
  text_eq (key_of q.album_id q.id) (key_of album_id photo_id),
  row-is_known album_id photo_id ps,
)

module _ (valid : Text → Bool) (tree : Tree) (now : ℕ) (album_id photo_id : Text) where
  abbrev is_ours : Target → Bool
  is_ours = is_photo_entry album_id photo_id

  -- The garbage collection of a tree of directories, at any time. A target is a path that it would
  -- remove. Say that each entry of the photo's name in the directory of its album is a directory
  -- with an identifier for a name, and that the tables have the row of the photo or the entry is not
  -- older than an hour. Then, if the collection goes through, the photo's directory is no target.
  pub gc_targets-spared :
      (db : Db) (targets : List Target)
      → all
          (is_spared valid (has_row db) now gc_grace album_id photo_id)
          (entries_of (tree.album album_id))
        ≡ true
      → (gc_targets valid tree now db).0 ≡ ok targets
      → any is_ours targets ≡ false
  gc_targets-spared db targets fine =
      gc_targets-targets valid tree now db (λ ts. any is_ours ts ≡ false) found targets
    where
      fine' :
          all
            (is_spared valid (is_known (refs_of db)) now gc_grace album_id photo_id)
            (entries_of (tree.album album_id))
          ≡ true
      fine' =
          is_spared-known valid (has_row db) (is_known (refs_of db)) now gc_grace album_id photo_id
            (row-is_known album_id photo_id db.tables.photos) _ fine

      found :
          (listing : Listing) (stale : List Target)
          → walk valid tree ≡ some listing
          → stale_incoming now gc_grace tree.incoming ≡ some stale
          → any is_ours (orphans (is_known (refs_of db)) now gc_grace listing ++ stale) ≡ false
      found listing stale w st =
          let spares =
            OnSome-some (Spares valid (is_known (refs_of db)) now gc_grace album_id photo_id)
              (walk valid tree) listing
              (walk-Spares valid (is_known (refs_of db)) now gc_grace album_id photo_id tree fine')
              w in
          ground (
            arith,
            any-append is_ours (orphans (is_known (refs_of db)) now gc_grace listing) stale,
            orphans-spared valid (is_known (refs_of db)) now gc_grace album_id photo_id listing
                spares,
            OnSome-some (λ ts. any is_ours ts ≡ false) (stale_incoming now gc_grace tree.incoming)
                stale
                (stale_incoming-spared valid (is_known (refs_of db)) now gc_grace album_id photo_id
                  tree.incoming)
                st,
          )

  -- The photo's directory is a target, if the collection goes through: when its album's entry is a
  -- directory with an identifier for a name, an entry of the photo's name in it is too and is older
  -- than an hour, and no row of the tables has the key that album and photo give.
  pub gc_targets-found :
      (db : Db) (targets : List Target)
      → any (is_album_dir valid now gc_grace album_id photo_id tree) (entries_of tree.photos) ≡ true
      → any (is_old_dir valid now gc_grace album_id photo_id) (entries_of (tree.album album_id))
        ≡ true
      → is_known (refs_of db) album_id photo_id ≡ false
      → (gc_targets valid tree now db).0 ≡ ok targets
      → any is_ours targets ≡ true
  gc_targets-found db targets dir old lost =
      gc_targets-targets valid tree now db (λ ts. any is_ours ts ≡ true) found targets
    where
      found :
          (listing : Listing) (stale : List Target)
          → walk valid tree ≡ some listing
          → stale_incoming now gc_grace tree.incoming ≡ some stale
          → any is_ours (orphans (is_known (refs_of db)) now gc_grace listing ++ stale) ≡ true
      found listing stale w st =
          let finds =
            OnSome-some (Finds valid now gc_grace album_id photo_id) (walk valid tree) listing
              (walk-found valid now gc_grace album_id photo_id tree old dir) w in
          ground (
            arith,
            any-append is_ours (orphans (is_known (refs_of db)) now gc_grace listing) stale,
            orphans-found valid now gc_grace album_id photo_id (is_known (refs_of db)) lost listing
                finds,
          )
