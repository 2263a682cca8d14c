-- ===== src/Db/Consistent/OfPhotos.antt =====
-- The statements on photos keep the constraints.
use mathlib.Core.List.{map}
use photogallery.Prelude.{
  ℕ, ◌+◌, ◌≡◌, refl, ◌∙◌, Bool, true, false, not, List, [], ◌∷◌, ◌++◌, arith, if◌then◌else◌, any,
  filter, length, distinct-append_one, distinct-filter, distinct-map, all-append_one, all-filter,
  all-map, any_or,
}
use photogallery.Prelude.Text.{Text, ◌==◌}
use photogallery.Exec.{◌>>◌}
use photogallery.Exec.Keeps.{Keeps, Keeps-bind, keeps_rules}
use photogallery.Db.{Photo, Tables, Query, statement}
use photogallery.Db.Albums.{album_has_id}
use photogallery.Db.Photos.{
  photo_has_id, photo_has_lr, insert_photo, set_photo, update_photo, get_photo,
  get_photo_by_lr_uuid, list_photos, list_ready_photos, mark_variants_pending, has_original,
  mark_variants_ready, delete_photo, set_order_where, number_photos, put_photos, transaction,
  renumber, set_photo_order,
}
use photogallery.Db.Consistent.{
  photo_clash, photo_has_album, IsConsistent, Holds, statement-Keeps, Keeps-statement,
}

photo_clash_sym : (p q : Photo) → photo_clash p q ≡ photo_clash q p
photo_clash_sym p q = ground arith

-- What every update of photos leaves alone.
record SameKeys (g : Photo → Photo) : Type 0 where
  id : (p : Photo) → (g p).id ≡ p.id
  album_id : (p : Photo) → (g p).album_id ≡ p.album_id
  lr_photo_uuid : (p : Photo) → (g p).lr_photo_uuid ≡ p.lr_photo_uuid

module _ (t : Tables) (h : IsConsistent t) where
  insert_photo-IsConsistent :
      (p : Photo)
      → any (λ q. q.id == p.id) t.photos ≡ false
      → any (photo_has_lr p.album_id p.lr_photo_uuid) t.photos ≡ false
      → any (album_has_id p.album_id) t.albums ≡ true
      → IsConsistent (record t { photos = t.photos ++ p ∷ [] })
  insert_photo-IsConsistent p i l fk = record {
    albums = h.albums;
    photos = distinct-append_one photo_clash p t.photos photo_clash_sym h.photos (
        any_or (λ q. q.id == p.id) (photo_has_lr p.album_id p.lr_photo_uuid) t.photos
        ∙ ground arith);
    folders = h.folders;
    photo_albums = all-append_one (photo_has_album t.albums) p t.photos h.photo_albums fk;
    album_folders = h.album_folders;
    folder_parents = h.folder_parents;
  }

  map_photos-IsConsistent :
      (g : Photo → Photo) → SameKeys g → IsConsistent (record t { photos = map g t.photos })
  map_photos-IsConsistent g k = record {
    albums = h.albums;
    photos =
        distinct-map photo_clash g t.photos (λ p q.
          rw (k.id p, k.id q, k.album_id p, k.album_id q, k.lr_photo_uuid p, k.lr_photo_uuid q)
            refl)
        ∙ h.photos;
    folders = h.folders;
    photo_albums =
        all-map (photo_has_album t.albums) (photo_has_album t.albums) g t.photos
          (λ p e. rw (k.album_id p) e) h.photo_albums;
    album_folders = h.album_folders;
    folder_parents = h.folder_parents;
  }

  filter_photos-IsConsistent :
      (q : Photo → Bool) → IsConsistent (record t { photos = filter q t.photos })
  filter_photos-IsConsistent q = record {
    albums = h.albums;
    photos = distinct-filter photo_clash q t.photos h.photos;
    folders = h.folders;
    photo_albums =
        all-filter (photo_has_album t.albums) (photo_has_album t.albums) q t.photos (λ p kept e. e)
          h.photo_albums;
    album_folders = h.album_folders;
    folder_parents = h.folder_parents;
  }

-- An update of the rows that pass a test.
SameKeys-if :
    (test : Photo → Bool) (f : Photo → Photo)
    → SameKeys f
    → SameKeys (λ p. if test p then f p else p)
SameKeys-if test f k = record {
  id = λ p. ground (arith, k.id p);
  album_id = λ p. ground (arith, k.album_id p);
  lr_photo_uuid = λ p. ground (arith, k.lr_photo_uuid p);
}

set_photo-SameKeys : (p : Photo) → SameKeys (set_photo p)
set_photo-SameKeys p = record {
  id = λ q. ground arith;
  album_id = λ q. ground arith;
  lr_photo_uuid = λ q. ground arith;
}

ready-SameKeys : (b : Bool) → SameKeys (λ p. record p { variants_ready = b })
ready-SameKeys b = record { id = λ q. refl; album_id = λ q. refl; lr_photo_uuid = λ q. refl }

order-SameKeys : (n : ℕ) → SameKeys (λ p. record p { sort_order = n })
order-SameKeys n = record { id = λ q. refl; album_id = λ q. refl; lr_photo_uuid = λ q. refl }

pub insert_photo-Keeps : (p : Photo) → Keeps Holds (insert_photo p)
unfolding insert_photo
insert_photo-Keeps p =
    Keeps-statement _
      (record { at = λ db h. ground (arith, insert_photo-IsConsistent db.tables h p) })

pub update_photo-Keeps : (p : Photo) → Keeps Holds (update_photo p)
unfolding update_photo
update_photo-Keeps p = Keeps-statement _ (record {
  at = λ db h.
      ground (arith, map_photos-IsConsistent db.tables h (set_photo p) (set_photo-SameKeys p));
})

pub mark_variants_pending-Keeps :
    (album_id id : Text) → Keeps Holds (mark_variants_pending album_id id)
unfolding mark_variants_pending
mark_variants_pending-Keeps album_id id = Keeps-statement _ (record {
  at = λ db h. ground (
    arith,
    map_photos-IsConsistent db.tables h _
        (SameKeys-if (photo_has_id album_id id) _ (ready-SameKeys false)),
  );
})

pub mark_variants_ready-Keeps :
    (album_id id content_hash : Text) → Keeps Holds (mark_variants_ready album_id id content_hash)
unfolding mark_variants_ready
mark_variants_ready-Keeps album_id id content_hash = Keeps-statement _ (record {
  at = λ db h.
      map_photos-IsConsistent db.tables h _
        (SameKeys-if (has_original album_id id content_hash) _ (ready-SameKeys true));
})

pub delete_photo-Keeps : (album_id id : Text) → Keeps Holds (delete_photo album_id id)
unfolding delete_photo
delete_photo-Keeps album_id id = Keeps-statement _ (record {
  at = λ db h.
      ground
        (arith, filter_photos-IsConsistent db.tables h (λ p. not (photo_has_id album_id id p)));
})

order-IsConsistent :
    (test : Photo → Bool) (n : ℕ) (t : Tables)
    → IsConsistent t
    → IsConsistent (record t { photos = set_order_where test n t.photos })
order-IsConsistent test n t h =
    map_photos-IsConsistent t h _ (SameKeys-if test _ (order-SameKeys n))

number_photos-Keeps :
    (album_id : Text) (n : ℕ) (ids : List Text) → Keeps Holds (number_photos album_id n ids)
unfolding number_photos
number_photos-Keeps album_id n [] = record { at = λ db h. h }
number_photos-Keeps album_id n (id ∷ ids) = record {
  at = λ db h.
      let here = statement-Keeps.at db h in
      let test = photo_has_id album_id id in
      let next = order-IsConsistent test n (statement db).1.tables here in
      ground (
        arith,
        here,
        (number_photos-Keeps album_id (n + 1) ids).at
            (put_photos (set_order_where test n (statement db).1.tables.photos) (statement db).1)
            next,
      );
}

renumber-Keeps : (album_id : Text) (ids : List Text) → Keeps Holds (renumber album_id ids)
unfolding renumber
renumber-Keeps album_id ids = Keeps-statement _ (record {
  at = λ db h.
      (number_photos-Keeps album_id 1 ids).at _
        (order-IsConsistent (λ p. p.album_id == album_id) (length ids + 1) db.tables h);
})

transaction-Keeps : (body : Query Unit) → Keeps Holds body → Keeps Holds (transaction body)
unfolding transaction
transaction-Keeps body k = record { at = λ db h. ground (arith, h, whole.at db h) }
  where
    whole : Keeps Holds (statement >> (body >> statement))
    whole = Keeps-statement _ (Keeps-bind body (λ _. statement) k (λ _. statement-Keeps))

pub set_photo_order-Keeps :
    (album_id : Text) (ids : List Text) → Keeps Holds (set_photo_order album_id ids)
unfolding set_photo_order
set_photo_order-Keeps album_id ids =
    transaction-Keeps (renumber album_id ids) (renumber-Keeps album_id ids)

pub get_photo-Keeps : (album_id id : Text) → Keeps Holds (get_photo album_id id)
unfolding get_photo
get_photo-Keeps album_id id = search (keeps_rules, statement-Keeps)

pub get_photo_by_lr_uuid-Keeps :
    (album_id lr : Text) → Keeps Holds (get_photo_by_lr_uuid album_id lr)
unfolding get_photo_by_lr_uuid
get_photo_by_lr_uuid-Keeps album_id lr = search (keeps_rules, statement-Keeps)

pub list_photos-Keeps : (album_id : Text) → Keeps Holds (list_photos album_id)
unfolding list_photos
list_photos-Keeps album_id = search (keeps_rules, statement-Keeps)

pub list_ready_photos-Keeps : (album_id : Text) → Keeps Holds (list_ready_photos album_id)
unfolding list_ready_photos
list_ready_photos-Keeps album_id = search (keeps_rules, statement-Keeps)
