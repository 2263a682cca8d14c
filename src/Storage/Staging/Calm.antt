-- ===== src/Storage/Staging/Calm.antt =====
-- What staged files do while no call of the operating system fails.
use mathlib.Core.Path.{subst}
use photogallery.Prelude.{
  ap, sym, ℕ, ◌≡◌, refl, Bool, true, ◌&&◌, none, some, [], any, find, Bool-cases, inl, inr, Option,
  some,
}
use photogallery.Prelude.Text.{Text}
use photogallery.Exec.Returns.{OkAnd, Returns}
use photogallery.Storage.{Variant, StagedFile, Store, syscall, remove}
use photogallery.Storage.Staging.{
  is_staged, new_staged, flush_staged, sync_staged, rename_staged, commit, abort_staged,
  abort_staged,
}

abbrev pub IsCalm : Store → Type 0
IsCalm s = s.faults ≡ []

pub new_staged-IsCalm : Returns IsCalm new_staged (λ n t. IsCalm t)
unfolding new_staged syscall
new_staged-IsCalm = record { at = λ s h. rw h refl }

rename_staged-faults :
    (n : ℕ) (album_id photo_id : Text) (v : Variant) (s : Store)
    → (rename_staged n album_id photo_id v s).faults ≡ s.faults
unfolding rename_staged abort_staged
rename_staged-faults n album_id photo_id v s = go (find (is_staged n) s.incoming) refl
  where
    go :
        (o : Option StagedFile)
        → find (is_staged n) s.incoming ≡ o
        → (rename_staged n album_id photo_id v s).faults ≡ s.faults
    go none e = rw (e, rename_staged) refl
    go (some f) e = rw (e, rename_staged) refl

module _ (valid : Text → Bool) (album_id photo_id : Text) (v : Variant)
    (checked : (valid album_id && valid photo_id) ≡ true) where
  pub remove-IsCalm : Returns IsCalm (remove valid album_id photo_id v) (λ u t. IsCalm t)
  unfolding remove syscall
  remove-IsCalm = record { at = λ s h. rw (checked, h) h }

  abbrev calm : Store → Store
  calm s = record s { faults = [] }

  commit-calm :
      (n : ℕ) (s : Store)
      → any (is_staged n) s.incoming ≡ true
      → OkAnd
          (λ u t. IsCalm t)
          (commit valid n album_id photo_id v (calm s)).0
          (commit valid n album_id photo_id v (calm s)).1
  unfolding commit syscall sync_staged flush_staged
  commit-calm n s h = elim (Bool-cases (any (λ f. is_staged n f && f.is_open) s.incoming)) [
    | inl e ↦ rw (h, checked, e) (rename_staged-faults n album_id photo_id v _)
    | inr e ↦ rw (h, checked, e) (rename_staged-faults n album_id photo_id v _)
  ]

  pub commit-IsCalm :
      (n : ℕ)
      → Returns
          (λ s. IsCalm s × (any (is_staged n) s.incoming ≡ true))
          (commit valid n album_id photo_id v)
          (λ u t. IsCalm t)
  commit-IsCalm n = record {
    at = λ s h.
        subst
          (λ t.
            OkAnd (λ u t. IsCalm t) (commit valid n album_id photo_id v t).0
              (commit valid n album_id photo_id v t).1)
          (sym (ap (λ f. record s { faults = f }) h.0)) (commit-calm n s h.1);
  }
