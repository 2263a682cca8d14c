-- ===== src/Storage/Staging/Commits.antt =====
-- What committing a staged file and removing a file do to what lies at the paths.
use photogallery.Prelude.{
  ℕ, ◌≡◌, refl, ap, Bool, true, false, ◌&&◌, not, Option, none, some, List, [], ◌∷◌, arith, eqb,
  if◌then◌else◌, any, find, filter, Bool-cases, inl, inr, ◌∙◌,
}
use photogallery.Prelude.Text.{Text}
use photogallery.Exec.{modify, throw_if, ◌>>=◌}
use photogallery.Exec.Yields.{Yields, Yields-bind, Yields-guard, Yields-Keeps}
use photogallery.Storage.{
  Variant, StoreError, invalid_id, already_done, same_variant, variant_name, File, StagedFile,
  Store, Disk, is_file, contents_at, file_contents, syscall, remove, put_files,
}
use photogallery.Storage.Staging.{
  is_staged, contents_of, staged_contents, sync_staged, abort_staged, place, rename_staged, commit,
}
use photogallery.Storage.Staging.Laws.{
  find-filter, same_variant-eq, Same, syscall-Same, sync_staged-Same,
}

find-abort :
    (m n : ℕ) (fs : List StagedFile)
    → eqb n m ≡ false
    → find (is_staged m) (filter (λ f. not (is_staged n f)) fs) ≡ find (is_staged m) fs
find-abort m n fs k =
    find-filter (is_staged m) (λ f. not (is_staged n f)) fs (λ f h. ground (arith, h, k))

-- A file at a path with the variant `w` is none with the variant `v`.
other_file :
    (album_id photo_id : Text) (v w : Variant) (f : File)
    → same_variant v w ≡ false
    → is_file album_id photo_id w f ≡ true
    → not (is_file album_id photo_id v f) ≡ true
other_file album_id photo_id v w f k h = elim (Bool-cases (same_variant f.variant v)) [
  | inl e ↦ absurd (ground (arith, h, k, ap variant_name (same_variant-eq f.variant v e)))
  | inr e ↦ ground (arith, e)
]

find-place :
    (album_id photo_id c : Text) (v w : Variant) (fs : List File)
    → file_contents (find (is_file album_id photo_id w) (place album_id photo_id v c fs))
      ≡ (if same_variant v w then some c else file_contents (find (is_file album_id photo_id w) fs))
unfolding find
find-place album_id photo_id c v w fs = elim (Bool-cases (same_variant v w)) [
  | inl e ↦ ground (arith, e)
  | inr e ↦
      rw
        (
          e,
          find-filter (is_file album_id photo_id w) (λ f. not (is_file album_id photo_id v f)) fs
              (λ f. other_file album_id photo_id v w f e),
        )
        (ground (arith, e))
]

-- What a committed file changes.
pub record IsCommitted (album_id photo_id : Text) (n : ℕ) (v : Variant) (s t : Store) : Type 0 where
  pub temps : t.temps ≡ s.temps
  pub staged : (m : ℕ) → eqb n m ≡ false → staged_contents m t ≡ staged_contents m s
  pub contents :
      (w : Variant)
      → contents_at album_id photo_id w t
        ≡ (if same_variant v w then staged_contents n s else contents_at album_id photo_id w s)

rename_staged-IsCommitted :
    (album_id photo_id c : Text) (n : ℕ) (v : Variant) (s : Store)
    → staged_contents n s ≡ some c
    → IsCommitted album_id photo_id n v s (rename_staged n album_id photo_id v s)
unfolding rename_staged abort_staged staged_contents contents_at
rename_staged-IsCommitted album_id photo_id c n v s h = go (find (is_staged n) s.incoming) refl
  where
    go :
        (o : Option StagedFile)
        → find (is_staged n) s.incoming ≡ o
        → IsCommitted album_id photo_id n v s (rename_staged n album_id photo_id v s)
    go none e = absurd (ground (arith, h, e))
    go (some f) e =
        rw (e, rename_staged)
          (record {
            temps = refl;
            staged = λ m k. ap contents_of (find-abort m n s.incoming k);
            contents = λ w. find-place album_id photo_id f.contents v w s.files ∙ rw e refl;
          })

IsCommitted-Same :
    (album_id photo_id : Text) (n : ℕ) (v : Variant) (s t u : Store)
    → Same s t
    → IsCommitted album_id photo_id n v t u
    → IsCommitted album_id photo_id n v s u
unfolding contents_at
IsCommitted-Same album_id photo_id n v s t u h c = record {
  temps = c.temps ∙ h.temps;
  staged = λ m k. c.staged m k ∙ h.staged m;
  contents = λ w. c.contents w ∙ rw (h.staged n, h.files) refl;
}

module _ (valid : Text → Bool) (album_id photo_id c : Text) (n : ℕ) (v : Variant) (s : Store)
    (staged : staged_contents n s ≡ some c) where
  rename-IsCommitted :
      Yields
        (Same s)
        (modify {E = StoreError} (rename_staged n album_id photo_id v))
        (λ u t. IsCommitted album_id photo_id n v s t)
  rename-IsCommitted = record {
    at = λ t h.
        IsCommitted-Same album_id photo_id n v s t (rename_staged n album_id photo_id v t) h
          (rename_staged-IsCommitted album_id photo_id c n v t (h.staged n ∙ staged));
  }

  abbrev moved : Disk Unit
  moved = modify (rename_staged n album_id photo_id v)

  abbrev synced : Disk Unit
  synced = sync_staged n >>= λ u. (syscall >>= λ u. (syscall >>= λ u. moved))

  abbrev checked : Disk Unit
  checked = throw_if (not (valid album_id && valid photo_id)) invalid_id >>= λ u. synced

  synced-IsCommitted : Yields (Same s) synced (λ u t. IsCommitted album_id photo_id n v s t)
  synced-IsCommitted =
      Yields-bind (λ u t. Same s t) (sync_staged n) (λ u. syscall >>= λ u. (syscall >>= λ u. moved))
        (Yields-Keeps (sync_staged n) (sync_staged-Same s n))
        λ u.
          Yields-bind (λ u t. Same s t) syscall (λ u. syscall >>= λ u. moved)
            (Yields-Keeps syscall (syscall-Same s))
            λ u.
              Yields-bind (λ u t. Same s t) syscall (λ u. moved)
                (Yields-Keeps syscall (syscall-Same s)) λ u. rename-IsCommitted

  checked-IsCommitted : Yields (Same s) checked (λ u t. IsCommitted album_id photo_id n v s t)
  checked-IsCommitted =
      Yields-guard (not (valid album_id && valid photo_id)) invalid_id synced
        (λ k. synced-IsCommitted)

  pub commit-IsCommitted :
      Yields
        (Same s)
        (commit valid n album_id photo_id v)
        (λ u t. IsCommitted album_id photo_id n v s t)
  unfolding commit
  commit-IsCommitted = record {
    at = λ t h.
        (Yields-guard (not (any (is_staged n) t.incoming)) already_done checked
            (λ k. checked-IsCommitted)).at
          t h;
  }

-- What a removed file changes.
pub record IsRemoved (album_id photo_id : Text) (v : Variant) (s t : Store) : Type 0 where
  pub temps : t.temps ≡ s.temps
  pub staged : (m : ℕ) → staged_contents m t ≡ staged_contents m s
  pub contents :
      (w : Variant)
      → contents_at album_id photo_id w t
        ≡ (if same_variant v w then none else contents_at album_id photo_id w s)

find-none :
    {A : Type 0} (p q : A → Bool) (xs : List A)
    → ((x : A) → p x ≡ true → q x ≡ false)
    → find p (filter q xs) ≡ none
unfolding find filter
find-none p q [] k = refl
find-none p q (x ∷ xs) k = ground (arith, k x, find-none p q xs k)

same_file :
    (album_id photo_id : Text) (v w : Variant) (f : File)
    → v ≡ w
    → is_file album_id photo_id w f ≡ true
    → not (is_file album_id photo_id v f) ≡ false
same_file album_id photo_id v w f e h = rw e (ap not h)

find-removed :
    (album_id photo_id : Text) (v w : Variant) (fs : List File)
    → file_contents
        (find (is_file album_id photo_id w) (filter (λ f. not (is_file album_id photo_id v f)) fs))
      ≡ (if same_variant v w then none else file_contents (find (is_file album_id photo_id w) fs))
find-removed album_id photo_id v w fs = elim (Bool-cases (same_variant v w)) [
  | inl e ↦
      rw
        (
          e,
          find-none (is_file album_id photo_id w) (λ f. not (is_file album_id photo_id v f)) fs
              (λ f. same_file album_id photo_id v w f (same_variant-eq v w e)),
        )
        refl
  | inr e ↦
      rw
        (
          e,
          find-filter (is_file album_id photo_id w) (λ f. not (is_file album_id photo_id v f)) fs
              (λ f. other_file album_id photo_id v w f e),
        )
        refl
]

module _ (valid : Text → Bool) (album_id photo_id : Text) (v : Variant) (s : Store) where
  abbrev without : Store → Store
  without t = put_files (filter (λ f. not (is_file album_id photo_id v f)) t.files) t

  without-IsRemoved :
      Yields (Same s) (modify {E = StoreError} without) (λ u t. IsRemoved album_id photo_id v s t)
  unfolding contents_at staged_contents
  without-IsRemoved = record {
    at = λ t h. record {
      temps = h.temps;
      staged = h.staged;
      contents = λ w. find-removed album_id photo_id v w t.files ∙ rw h.files refl;
    };
  }

  pub remove-IsRemoved :
      Yields (Same s) (remove valid album_id photo_id v) (λ u t. IsRemoved album_id photo_id v s t)
  unfolding remove
  remove-IsRemoved = Yields-guard (not (valid album_id && valid photo_id)) invalid_id _ λ k.
      Yields-bind (λ u t. Same s t) syscall _ (Yields-Keeps syscall (syscall-Same s))
        λ u. record { at = without-IsRemoved.at }
