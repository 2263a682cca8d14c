-- ===== src/Db/Lists/Covered.antt =====
-- What the lists of a folder show: listed albums only, and covers that exist.
use mathlib.Core.List.{map, Mem}
use mathlib.Core.Path.{subst}
use mathlib.Core.Option.{some-injective}
use photogallery.Prelude.{
  ◌≡◌, ◌≢◌, ◌+◌, refl, sym, ◌∙◌, ◌&&◌, Bool, true, false, Option, none, some, List, [], ◌∷◌, arith,
  if◌then◌else◌, any, find, filter, length, All, ◌⊎◌, inl, inr,
}
use photogallery.Prelude.Text.{Text}
use photogallery.Db.{Album, Photo, Folder, Tables}
use photogallery.Db.Photos.{insert_by, sort_by, photo_before, is_visible_in}
use photogallery.Db.Folders.{subtree}
use photogallery.Db.Summary.{AlbumSummary, summary}
use photogallery.Db.Summary.Agrees.{lists, any-sort_by, summary-agrees}
use photogallery.Db.Lists.Beneath.{Beneath, All-map-filter, in_subtree-Beneath}
use photogallery.Db.Lists.{
  newer, is_in, album_summaries_in, is_listed_in, albums_beneath, has_cover, slug_of,
  folder_summary,
}

module _ {A : Type 0} (P : A → Type 0) (before : A → A → Bool) where
  All-insert_by : (x : A) (xs : List A) → P x → All P xs → All P (insert_by before x xs)
  unfolding insert_by
  All-insert_by x [] p h = (p, tt)
  All-insert_by x (y ∷ ys) p h = ground (arith, p, h, All-insert_by x ys p h.1)

  All-sort_by : (xs : List A) → All P xs → All P (sort_by before xs)
  unfolding sort_by
  All-sort_by [] h = tt
  All-sort_by (x ∷ xs) h = All-insert_by x (sort_by before xs) h.0 (All-sort_by xs h.1)

-- An album of a list: its row is listed and lies in the folder.
abbrev pub IsListedIn : Text → AlbumSummary → Type 0
IsListedIn folder_id s = (s.album.is_listed ≡ true) × (s.album.folder_id ≡ folder_id)

-- An album list for visitors holds only albums that are listed and lie directly in the folder.
pub album_summaries_in-IsListedIn :
    (folder_id : Text) (t : Tables)
    → All (IsListedIn folder_id) (album_summaries_in folder_id true t)
unfolding album_summaries_in
album_summaries_in-IsListedIn folder_id t =
    All-sort_by (IsListedIn folder_id) newer
      (map (summary t.photos) (filter (is_in folder_id true) t.albums))
      (All-map-filter (IsListedIn folder_id) (is_in folder_id true) (summary t.photos) t.albums
        λ a m p. (ground (arith, p), ground (arith, p)))

module _ {A : Type 0} (P : A → Type 0) (test : A → Bool) where
  find-All : (xs : List A) (x : A) → All P xs → find test xs ≡ some x → P x × (test x ≡ true)
  unfolding find
  find-All [] x h e = absurd (ground (arith, e))
  find-All (y ∷ ys) x h e = go (test y) refl e (find-All ys x h.1)
    where
      go :
          (b : Bool)
          → test y ≡ b
          → (if b then some y else find test ys) ≡ some x
          → (find test ys ≡ some x → P x × (test x ≡ true))
          → P x × (test x ≡ true)
      go true t k later = subst (λ z. P z × (test z ≡ true)) (some-injective y x k) (h.0, t)
      go false t k later = later k

any-length :
    (test : Photo → Bool) (ps : List Photo) → any test ps ≡ true → length (filter test ps) ≢ 0
unfolding any filter
any-length test [] e k = ground (arith, e)
any-length test (p ∷ ps) e k = ground (arith, e, k, any-length test ps)

find-not_any :
    {A : Type 0} (test : A → Bool) (xs : List A) → find test xs ≡ none → any test xs ≡ false
unfolding find any
find-not_any test [] e = refl
find-not_any test (x ∷ xs) e = ground (arith, e, find-not_any test xs)

any-map-filter :
    {A B : Type 0} (test : B → Bool) (f : A → B) (p : A → Bool) (xs : List A)
    → any test (map f (filter p xs)) ≡ any (λ x. p x && test (f x)) xs
unfolding any filter
any-map-filter test f p [] = refl
any-map-filter test f p (x ∷ xs) = ground (arith, any-map-filter test f p xs)

-- The cover album of a folder: a listed album of the table, in the folder or beneath it, which has a
-- photo to show as its own cover.
pub record IsCovered (t : Tables) (f : Folder) (slug : Text) : Type 0 where
  pub album : Album
  pub in_table : Mem album t.albums
  pub named : album.slug ≡ slug
  pub listed : album.is_listed ≡ true
  pub beneath : Beneath t.folders f.id album.folder_id
  pub shown :
      lists
        (summary t.photos album).resolved_cover
        (sort_by photo_before (filter (is_visible_in album.id) t.photos))
      ≡ true

-- No listed album in the folder or beneath it has a photo to show.
abbrev pub HasNone : Tables → Folder → Type 0
HasNone t f =
    any
      (λ a.
        is_listed_in (subtree (length t.folders + 1) t.folders (f.id ∷ [])) a
        && any (is_visible_in a.id) t.photos)
      t.albums
    ≡ false

IsBeneath : Tables → Folder → AlbumSummary → Type 0
IsBeneath t f s =
    Mem s.album t.albums
    × (s.album.is_listed ≡ true)
    × Beneath t.folders f.id s.album.folder_id
    × (s ≡ summary t.photos s.album)

module _ (t : Tables) (f : Folder) where
  albums_beneath-IsBeneath : All (IsBeneath t f) (albums_beneath t f)
  unfolding albums_beneath IsBeneath
  albums_beneath-IsBeneath =
      let ids = subtree (length t.folders + 1) t.folders (f.id ∷ []) in
      All-sort_by (IsBeneath t f) newer
        (map (summary t.photos) (filter (is_listed_in ids) t.albums))
        (All-map-filter (IsBeneath t f) (is_listed_in ids) (summary t.photos) t.albums λ a m p. (
          m,
          ground (arith, p),
          in_subtree-Beneath t.folders f.id (length t.folders + 1) a (ground (arith, p)),
          refl,
        ))

  albums_beneath-HasNone : find (has_cover t.photos) (albums_beneath t f) ≡ none → HasNone t f
  unfolding albums_beneath
  albums_beneath-HasNone e =
      let ids = subtree (length t.folders + 1) t.folders (f.id ∷ []) in
      let sums = map (summary t.photos) (filter (is_listed_in ids) t.albums) in
      sym (any-map-filter (has_cover t.photos) (summary t.photos) (is_listed_in ids) t.albums)
      ∙ (sym (any-sort_by newer (has_cover t.photos) sums)
          ∙ find-not_any (has_cover t.photos) (sort_by newer sums) e)

  -- Whatever the tables: in a list of folders, a folder has no cover and no listed album in it or
  -- beneath it has a ready photo; or the slug of its cover is that of an album of the table which is
  -- listed, lies in the folder or beneath it, and has a ready photo as its own cover.
  pub folder_summary-IsCovered :
      (((folder_summary t f).cover_album_slug ≡ []) × HasNone t f)
      ⊎ IsCovered t f (folder_summary t f).cover_album_slug
  unfolding folder_summary IsBeneath
  folder_summary-IsCovered = go (find (has_cover t.photos) (albums_beneath t f)) refl
    where
      go :
          (o : Option AlbumSummary)
          → find (has_cover t.photos) (albums_beneath t f) ≡ o
          → ((slug_of o ≡ []) × HasNone t f) ⊎ IsCovered t f (slug_of o)
      go none e = inl (refl, albums_beneath-HasNone e)
      go (some s) e =
          let (made, covered) =
            find-All (IsBeneath t f) (has_cover t.photos) (albums_beneath t f) s
              albums_beneath-IsBeneath e in
          let (count, shown) = summary-agrees t.photos s.album in
          elim shown [
            | inl k ↦ inr (record {
              album = s.album;
              in_table = made.0;
              named = refl;
              listed = made.1;
              beneath = made.2;
              shown = k;
            })
            | inr k ↦
                absurd
                  (any-length (is_visible_in s.album.id) t.photos covered (unfold summary in k))
          ]
