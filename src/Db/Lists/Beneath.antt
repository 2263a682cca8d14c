-- ===== src/Db/Lists/Beneath.antt =====
-- The folders of `subtree`: each lies beneath one of those that it starts from.
use mathlib.Core.List.{map, Mem, mem-cons_self, mem-cons_of_mem}
use mathlib.Core.Path.{subst}
use photogallery.Prelude.{
  ℕ, zero, suc, ◌≡◌, refl, Bool, true, false, List, [], ◌∷◌, ◌++◌, arith, if◌then◌else◌, any,
  filter, All,
}
use photogallery.Prelude.Text.{Text, text_dec}
use photogallery.Db.{Album, Folder}
use photogallery.Db.Folders.{among, is_child_of, children, in_folder, subtree}

-- The chain of parents from a folder up to `root`, over rows of the table.
pub data Beneath (folders : List Folder) (root : Text) : Text → Type 0 where
  itself : Beneath folders root root
  child :
      (f : Folder) → Mem f folders → Beneath folders root f.parent_id → Beneath folders root f.id

module _ {A B : Type 0} (Q : B → Type 0) (p : A → Bool) (f : A → B) where
  pub All-map-filter :
      (xs : List A) → ((a : A) → Mem a xs → p a ≡ true → Q (f a)) → All Q (map f (filter p xs))
  unfolding filter
  All-map-filter [] h = tt
  All-map-filter (x ∷ xs) h = go (p x) refl (All-map-filter xs (λ a m. h a (mem-cons_of_mem x m)))
    where
      go :
          (b : Bool)
          → p x ≡ b
          → All Q (map f (filter p xs))
          → All Q (map f (if b then x ∷ filter p xs else filter p xs))
      go true e rest = (h x mem-cons_self e, rest)
      go false e rest = rest

All-append : {A : Type 0} (P : A → Type 0) (xs ys : List A) → All P xs → All P ys → All P (xs ++ ys)
All-append P [] ys h k = k
All-append P (x ∷ xs) ys h k = (h.0, All-append P xs ys h.1 k)

among-All :
    (P : Text → Type 0) (ids : List Text) (id : Text) → All P ids → among ids id ≡ true → P id
unfolding any
among-All P [] id h e = absurd (ground (arith, e))
among-All P (x ∷ ids) id h e = elim (text_dec x id) [
  | yes same ↦ subst P same h.0
  | no other ↦ among-All P ids id h.1 (ground (arith, other, e))
]

module _ (folders : List Folder) (root : Text) where
  children-Beneath :
      (ids : List Text)
      → All (Beneath folders root) ids
      → All (Beneath folders root) (children ids folders)
  children-Beneath ids h =
      All-map-filter (Beneath folders root) (is_child_of ids) (λ f. f.id) folders
        λ f m e. child f m (among-All (Beneath folders root) ids f.parent_id h (ground (arith, e)))

  subtree-Beneath :
      (fuel : ℕ) (ids : List Text)
      → All (Beneath folders root) ids
      → All (Beneath folders root) (subtree fuel folders ids)
  unfolding subtree
  subtree-Beneath zero ids h = tt
  subtree-Beneath (suc fuel) [] h = tt
  subtree-Beneath (suc fuel) (id ∷ ids) h = (
    h.0,
    All-append (Beneath folders root) ids _ h.1
        (subtree-Beneath fuel (children (id ∷ ids) folders) (children-Beneath (id ∷ ids) h)),
  )

  -- An album in one of these folders.
  pub in_subtree-Beneath :
      (fuel : ℕ) (a : Album)
      → in_folder (subtree fuel folders (root ∷ [])) a ≡ true
      → Beneath folders root a.folder_id
  in_subtree-Beneath fuel a e =
      among-All (Beneath folders root) (subtree fuel folders (root ∷ [])) a.folder_id
        (subtree-Beneath fuel (root ∷ []) (itself, tt)) (ground (arith, e))
