-- ===== src/Db/Summary/Agrees.antt =====
-- The aggregates of an album agree with the photos that a visitor is shown.
use photogallery.Prelude.{
  suc, ◌≡◌, refl, sym, ◌∙◌, Bool, true, Option, none, some, List, [], ◌∷◌, arith, any, find, filter,
  length, ◌⊎◌, inl, inr,
}
use photogallery.Prelude.Text.{Text, ◌==◌}
use photogallery.Db.{Album, Photo}
use photogallery.Db.Photos.{insert_by, sort_by, photo_before, is_visible_in}
use photogallery.Db.Summary.{first_id, is_cover, chosen_cover, resolve_cover, summary}

module _ {A : Type 0} (before : A → A → Bool) where
  length-insert_by : (p : A) (qs : List A) → length (insert_by before p qs) ≡ suc (length qs)
  unfolding insert_by
  length-insert_by p [] = refl
  length-insert_by p (q ∷ qs) = ground (arith, length-insert_by p qs)

  pub length-sort_by : (ps : List A) → length (sort_by before ps) ≡ length ps
  unfolding sort_by
  length-sort_by [] = refl
  length-sort_by (p ∷ ps) =
      ground (arith, length-sort_by ps, length-insert_by p (sort_by before ps))

  any-insert_by :
      (test : A → Bool) (p : A) (qs : List A) → any test (insert_by before p qs) ≡ any test (p ∷ qs)
  unfolding insert_by any
  any-insert_by test p [] = refl
  any-insert_by test p (q ∷ qs) = ground (arith, any-insert_by test p qs)

  pub any-sort_by : (test : A → Bool) (ps : List A) → any test (sort_by before ps) ≡ any test ps
  unfolding sort_by any
  any-sort_by test [] = refl
  any-sort_by test (p ∷ ps) =
      any-insert_by test p (sort_by before ps) ∙ ground (arith, any-sort_by test ps)

-- The photo with the given id is in the list.
abbrev pub lists : Text → List Photo → Bool
lists id ps = any (λ p. p.id == id) ps

lists-find :
    (cover : Text) (ps : List Photo) (p : Photo)
    → find (is_cover cover) ps ≡ some p
    → lists p.id ps ≡ true
unfolding find any
lists-find cover [] p e = ground (arith, e)
lists-find cover (q ∷ ps) p e = ground (arith, e, lists-find cover ps p)

lists-first_id : (ps : List Photo) → (lists (first_id ps) ps ≡ true) ⊎ (length ps ≡ 0)
unfolding any
lists-first_id [] = inr refl
lists-first_id (p ∷ ps) = inl (ground arith)

lists-resolve_cover :
    (cover : Text) (visible : List Photo)
    → (lists (resolve_cover cover visible) visible ≡ true) ⊎ (length visible ≡ 0)
unfolding resolve_cover
lists-resolve_cover cover visible = go (find (is_cover cover) visible) refl
  where
    sorted : List Photo
    sorted = sort_by photo_before visible

    go :
        (o : Option Photo)
        → find (is_cover cover) visible ≡ o
        → (lists (chosen_cover o (first_id sorted)) visible ≡ true) ⊎ (length visible ≡ 0)
    go (some p) e = inl (lists-find cover visible p e)
    go none e = elim (lists-first_id sorted) [
      | inl h ↦ inl (sym (any-sort_by photo_before (λ p. p.id == first_id sorted) visible) ∙ h)
      | inr h ↦ inr (sym (length-sort_by photo_before visible) ∙ h)
    ]

-- The photo count of an album's summary is the number of the photos that the album page lists, and
-- unless there are none, the resolved cover is one of them.
pub summary-agrees :
    (photos : List Photo) (a : Album)
    → let listed = sort_by photo_before (filter (is_visible_in a.id) photos) in
      ((summary photos a).photo_count ≡ length listed)
      × ((lists (summary photos a).resolved_cover listed ≡ true)
          ⊎ ((summary photos a).photo_count ≡ 0))
unfolding summary
summary-agrees photos a =
    let visible = filter (is_visible_in a.id) photos in
    (
      sym (length-sort_by photo_before visible),
      rw (any-sort_by photo_before (λ p. p.id == resolve_cover a.cover_photo_id visible) visible)
          (lists-resolve_cover a.cover_photo_id visible),
    )
