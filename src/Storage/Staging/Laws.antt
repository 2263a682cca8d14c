-- ===== src/Storage/Staging/Laws.antt =====
-- What the operations on staged files do to what lies at the paths.
use mathlib.Core.List.{map}
use photogallery.Prelude.{
  ℕ, ◌+◌, ◌≡◌, refl, Bool, true, false, none, some, List, [], ◌∷◌, arith, eqb, if◌then◌else◌, any,
  find, filter, ◌∙◌,
}
use photogallery.Prelude.Text.{Text, text_dec}
use photogallery.Exec.{modify}
use photogallery.Exec.Keeps.{Keeps, keeps_rules}
use photogallery.Exec.Yields.{Yields, Yields-bind, Yields-Keeps}
use photogallery.Storage.{
  Variant, StoreError, original, large, medium, small, thumb, blur, same_variant, StagedFile, Store,
  syscall,
}
use photogallery.Storage.Staging.{
  is_staged, contents_of, staged_contents, new_staged, edit_staged, fill_staged, flush_staged,
  sync_staged,
}

pub find-filter {ℓ} :
    {A : Type ℓ} (p q : A → Bool) (xs : List A)
    → ((x : A) → p x ≡ true → q x ≡ true)
    → find p (filter q xs) ≡ find p xs
unfolding find filter
find-filter p q [] k = refl
find-filter p q (x ∷ xs) k = ground (arith, k x, find-filter p q xs k)

-- A staged file whose contents are set.
find-fill :
    (m n : ℕ) (p : Text) (fs : List StagedFile)
    → contents_of
        (find (is_staged m) (map (λ g. if is_staged n g then record g { contents = p } else g) fs))
      ≡ (if eqb n m
          then (if any (is_staged m) fs then some p else none)
          else contents_of (find (is_staged m) fs))
unfolding find any
find-fill m n p [] = ground arith
find-fill m n p (f ∷ fs) = ground (arith, find-fill m n p fs)

find-close :
    (m n : ℕ) (fs : List StagedFile)
    → contents_of (
        find
          (is_staged m)
          (map (λ g. if is_staged n g then record g { is_open = false } else g) fs))
      ≡ contents_of (find (is_staged m) fs)
unfolding find
find-close m n [] = refl
find-close m n (f ∷ fs) = ground (arith, find-close m n fs)

has_file :
    (n : ℕ) (fs : List StagedFile)
    → any (is_staged n) fs
      ≡ elim (contents_of (find (is_staged n) fs)) [ none ↦ false | some c ↦ true ]
unfolding find any
has_file n [] = refl
has_file n (f ∷ fs) = ground (arith, has_file n fs)

pub same_variant-eq : (v w : Variant) → same_variant v w ≡ true → v ≡ w
unfolding text_dec
same_variant-eq original original h = refl
same_variant-eq large large h = refl
same_variant-eq medium medium h = refl
same_variant-eq small small h = refl
same_variant-eq thumb thumb h = refl
same_variant-eq blur blur h = refl
same_variant-eq v w h = absurd (ground (arith, h))

-- The same things lie at the same paths.
pub record Same (s t : Store) : Type 0 where
  pub files : t.files ≡ s.files
  pub temps : t.temps ≡ s.temps
  pub staged : (m : ℕ) → staged_contents m t ≡ staged_contents m s

pub Same-refl : (s : Store) → Same s s
Same-refl s = record { files = refl; temps = refl; staged = λ m. refl }

module _ (s : Store) where
  pub syscall-Same : Keeps (Same s) syscall
  unfolding syscall staged_contents
  syscall-Same = record { at = λ t h. go t.faults t h }
    where
      go :
          (faults : List Bool) (t : Store)
          → Same s t
          → Same s (syscall (record t { faults = faults })).1
      go [] t h = record { files = h.files; temps = h.temps; staged = h.staged }
      go (true ∷ faults) t h = record { files = h.files; temps = h.temps; staged = h.staged }
      go (false ∷ faults) t h = record { files = h.files; temps = h.temps; staged = h.staged }

  close-Same :
      (n : ℕ)
      → Keeps (Same s) (modify {E = StoreError} (edit_staged n (λ f. record f { is_open = false })))
  unfolding staged_contents
  close-Same n = record {
    at = λ t h. record {
      files = h.files;
      temps = h.temps;
      staged = λ m. find-close m n t.incoming ∙ h.staged m;
    };
  }

  flush_staged-Same : (n : ℕ) → Keeps (Same s) (flush_staged n)
  unfolding flush_staged
  flush_staged-Same n = search (keeps_rules, syscall-Same, close-Same) depth 12

  pub sync_staged-Same : (n : ℕ) → Keeps (Same s) (sync_staged n)
  unfolding sync_staged
  sync_staged-Same n = search (keeps_rules, flush_staged-Same)

-- What a new staged file changes.
pub record IsStaged (n : ℕ) (s t : Store) : Type 0 where
  pub files : t.files ≡ s.files
  pub name : n ≡ s.temps
  pub temps : t.temps ≡ s.temps + 1
  pub staged : (m : ℕ) → staged_contents m t ≡ (if eqb n m then some [] else staged_contents m s)

pub new_staged-IsStaged : (s : Store) → Yields (Same s) new_staged (λ n t. IsStaged n s t)
unfolding new_staged staged_contents find
new_staged-IsStaged s =
    Yields-bind (λ u t. Same s t) syscall _ (Yields-Keeps syscall (syscall-Same s))
      λ u. record {
        at = λ t h. record {
          files = h.files;
          name = h.temps;
          temps = ground (arith, h.temps);
          staged = λ m. ground (arith, h.staged m);
        };
      }

pub fill_staged_lem :
    (n m : ℕ) (p c : Text) (s : Store)
    → staged_contents n s ≡ some c
    → staged_contents m (fill_staged n p s) ≡ (if eqb n m then some p else staged_contents m s)
unfolding staged_contents
fill_staged_lem n m p c s h = ground (arith, h, find-fill m n p s.incoming, has_file m s.incoming)

pub staged-any :
    (n : ℕ) (c : Text) (s : Store)
    → staged_contents n s ≡ some c
    → any (is_staged n) s.incoming ≡ true
unfolding staged_contents
staged-any n c s h = ground (arith, h, has_file n s.incoming)
