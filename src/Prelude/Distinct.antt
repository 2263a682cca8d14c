-- ===== src/Prelude/Distinct.antt =====
-- Boolean tests over all elements or all pairs of a list, and what the table operations do to them.
use mathlib.Core.Path.{◌≡◌, refl}
use mathlib.Core.Bool.{Bool, true, false, not, ◌&&◌, ◌||◌}
use mathlib.Core.List.{List, [], ◌∷◌, ◌++◌, map}
use native.Mathlib.Omega.{arith}
use photogallery.Prelude.Tests.{if◌then◌else◌}
use photogallery.Prelude.Lists.{any, filter}

module _ {ℓ} {A : Type ℓ} where
  -- Every element passes.
  unfoldable pub all : (A → Bool) → List A → Bool
  all p [] = true
  all p (x ∷ xs) = if p x then all p xs else false

  -- No element clashes with a later one.
  unfoldable pub distinct : (A → A → Bool) → List A → Bool
  distinct clash [] = true
  distinct clash (x ∷ xs) = if any (clash x) xs then false else distinct clash xs

module _ {ℓ} {A : Type ℓ} where
  pub any_mono :
      (p q : A → Bool) (xs : List A)
      → ((x : A) → p x ≡ true → q x ≡ true)
      → any p xs ≡ true
      → any q xs ≡ true
  unfolding any
  any_mono p q [] h e = e
  any_mono p q (x ∷ xs) h e = ground (arith, h x, any_mono p q xs h)

  pub any_or : (p q : A → Bool) (xs : List A) → any (λ x. p x || q x) xs ≡ (any p xs || any q xs)
  unfolding any
  any_or p q [] = refl
  any_or p q (x ∷ xs) = ground (arith, any_or p q xs)

  pub any-filter-false :
      (p q : A → Bool) (xs : List A) → any p xs ≡ false → any p (filter q xs) ≡ false
  unfolding any filter
  any-filter-false p q [] e = e
  any-filter-false p q (x ∷ xs) e = ground (arith, any-filter-false p q xs)

  -- A filter that lets every element pass that passes p.
  pub any-filter-true :
      (p q : A → Bool) (xs : List A)
      → ((x : A) → p x ≡ true → q x ≡ true)
      → any p (filter q xs) ≡ any p xs
  unfolding any filter
  any-filter-true p q [] h = refl
  any-filter-true p q (x ∷ xs) h = ground (arith, h x, any-filter-true p q xs h)

  pub any-map :
      {B : Type ℓ} (p : B → Bool) (q : A → Bool) (g : A → B) (xs : List A)
      → ((x : A) → p (g x) ≡ q x)
      → any p (map g xs) ≡ any q xs
  unfolding any
  any-map p q g [] h = refl
  any-map p q g (x ∷ xs) h = ground (arith, h x, any-map p q g xs h)

  pub distinct-append_one :
      (clash : A → A → Bool) (a : A) (xs : List A)
      → ((x y : A) → clash x y ≡ clash y x)
      → distinct clash xs ≡ true
      → any (clash a) xs ≡ false
      → distinct clash (xs ++ a ∷ []) ≡ true
  unfolding distinct any
  distinct-append_one clash a [] sy d e = refl
  distinct-append_one clash a (x ∷ xs) sy d e =
      ground (arith, sy a x, distinct-append_one clash a xs sy, any-one (clash x) a xs)
    where
      any-one : (p : A → Bool) (a : A) (xs : List A) → any p (xs ++ a ∷ []) ≡ (any p xs || p a)
      any-one p a [] = ground arith
      any-one p a (x ∷ xs) = ground (arith, any-one p a xs)

  pub distinct-filter :
      (clash : A → A → Bool) (q : A → Bool) (xs : List A)
      → distinct clash xs ≡ true
      → distinct clash (filter q xs) ≡ true
  unfolding distinct filter
  distinct-filter clash q [] d = refl
  distinct-filter clash q (x ∷ xs) d =
      ground (arith, distinct-filter clash q xs, any-filter-false (clash x) q xs)

  pub distinct-map :
      (clash : A → A → Bool) (g : A → A) (xs : List A)
      → ((x y : A) → clash (g x) (g y) ≡ clash x y)
      → distinct clash (map g xs) ≡ distinct clash xs
  unfolding distinct
  distinct-map clash g [] h = refl
  distinct-map clash g (x ∷ xs) h =
      ground (arith, distinct-map clash g xs h, any-map (clash (g x)) (clash x) g xs (h x))

  pub all-append_one :
      (p : A → Bool) (a : A) (xs : List A)
      → all p xs ≡ true
      → p a ≡ true
      → all p (xs ++ a ∷ []) ≡ true
  unfolding all
  all-append_one p a [] h e = ground arith
  all-append_one p a (x ∷ xs) h e = ground (arith, all-append_one p a xs)

  pub all-filter :
      (p p' q : A → Bool) (xs : List A)
      → ((x : A) → q x ≡ true → p x ≡ true → p' x ≡ true)
      → all p xs ≡ true
      → all p' (filter q xs) ≡ true
  unfolding all filter
  all-filter p p' q [] h e = refl
  all-filter p p' q (x ∷ xs) h e = ground (arith, h x, all-filter p p' q xs h)

  pub all-map :
      (p p' : A → Bool) (g : A → A) (xs : List A)
      → ((x : A) → p x ≡ true → p' (g x) ≡ true)
      → all p xs ≡ true
      → all p' (map g xs) ≡ true
  unfolding all
  all-map p p' g [] h e = refl
  all-map p p' g (x ∷ xs) h e = ground (arith, h x, all-map p p' g xs h)

  pub all_mono :
      (p p' : A → Bool) (xs : List A)
      → ((x : A) → p x ≡ true → p' x ≡ true)
      → all p xs ≡ true
      → all p' xs ≡ true
  unfolding all
  all_mono p p' [] h e = refl
  all_mono p p' (x ∷ xs) h e = ground (arith, h x, all_mono p p' xs h)

  pub any_grows : (p : A → Bool) (xs ys : List A) → any p xs ≡ true → any p (xs ++ ys) ≡ true
  unfolding any
  any_grows p [] ys e = cc
  any_grows p (x ∷ xs) ys e = ground (arith, any_grows p xs ys)

  -- A conditional update that hits no row.
  pub map_untouched :
      (p : A → Bool) (f : A → A) (xs : List A)
      → any p xs ≡ false
      → map (λ x. if p x then f x else x) xs ≡ xs
  unfolding any
  map_untouched p f [] e = refl
  map_untouched p f (x ∷ xs) e = ground (arith, map_untouched p f xs)

  -- What passes p and not q is still there without what passes q.
  pub any-filter_rest :
      (p q : A → Bool) (xs : List A)
      → any (λ x. q x && p x) xs ≡ false
      → any p xs ≡ true
      → any p (filter (λ x. not (q x)) xs) ≡ true
  unfolding any filter
  any-filter_rest p q [] e h = h
  any-filter_rest p q (x ∷ xs) e h = ground (arith, any-filter_rest p q xs)

  pub all_both :
      (p q r : A → Bool) (xs : List A)
      → ((x : A) → p x ≡ true → q x ≡ true → r x ≡ true)
      → all p xs ≡ true
      → all q xs ≡ true
      → all r xs ≡ true
  unfolding all
  all_both p q r [] h e f = refl
  all_both p q r (x ∷ xs) h e f = ground (arith, h x, all_both p q r xs h)
