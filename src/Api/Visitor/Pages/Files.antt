-- ===== src/Api/Visitor/Pages/Files.antt =====
-- What reading a file and asking for one tell of the files of the store.
use photogallery.Prelude.{
  Bool, true, false, List, [], ◌∷◌, some, arith, sym, find, any, ap, Option, none, not, ◌&&◌, ◌≡◌,
  refl,
}
use photogallery.Prelude.Text.{Text}
use photogallery.Exec.{Result, ok, err, pure, or_throw, throw_if, ◌>>=◌, ◌>>◌}
use photogallery.Exec.Keeps.{Keeps, Keeps-or_throw, keeps_rules}
use photogallery.Exec.Ensures.{Ensures, Ensures-guard, Ensures-next}
use photogallery.Storage.{
  File, not_exist, invalid_id, Store, contents_at, file_contents, syscall, open_file, stat, is_file,
  Variant, StoreError,
}

-- The calls of the store that read leave the files as they were.
abbrev pub HasFiles : Store → Store → Type 0
HasFiles s0 s = s.files ≡ s0.files

found_contents :
    (o : Option File) (s : Store) (c : Text)
    → ((or_throw not_exist o >>= λ f. pure f.contents) s).0 ≡ ok c
    → file_contents o ≡ some c
found_contents none s c e = absurd (ground (arith, e))
found_contents (some f) s c e = ground (arith, e)

-- A file that is not there.
find-not_any :
    {A : Type 0} (test : A → Bool) (xs : List A) → any test xs ≡ false → find test xs ≡ none
unfolding find any
find-not_any test [] e = refl
find-not_any test (x ∷ xs) e = ground (arith, e, find-not_any test xs)

module _ (s0 : Store) where
  pub syscall-Keeps : Keeps (HasFiles s0) syscall
  unfolding syscall
  syscall-Keeps = record { at = λ s h. go s s.faults h }
    where
      go :
          (s : Store) (faults : List Bool)
          → HasFiles s0 s
          → HasFiles s0 (syscall (record s { faults = faults })).1
      go s [] h = h
      go s (fault ∷ faults) h = h

  module _ (valid : Text → Bool) (album_id photo_id : Text) (v : Variant) where
    pub open_file-Keeps : Keeps (HasFiles s0) (open_file valid album_id photo_id v)
    unfolding open_file
    open_file-Keeps = search (keeps_rules, syscall-Keeps, Keeps-or_throw) depth 12

    pub stat-Keeps : Keeps (HasFiles s0) (stat valid album_id photo_id v)
    unfolding stat
    stat-Keeps = search (keeps_rules, syscall-Keeps) depth 12

    -- What is read is what lies at the path.
    pub open_file-reads :
        Ensures
          (HasFiles s0)
          (λ c. contents_at album_id photo_id v s0 ≡ some c)
          (open_file valid album_id photo_id v)
    unfolding open_file contents_at
    open_file-reads = Ensures-guard (not (valid album_id && valid photo_id)) invalid_id _ λ k.
        Ensures-next syscall _ syscall-Keeps λ u. record {
          at = λ s c h e.
              rw (sym h) (found_contents (find (is_file album_id photo_id v) s.files) s c e);
        }

  module _ (valid : Text → Bool) (album_id photo_id : Text) (v : Variant) where
    abbrev Missing : Type 0
    Missing = contents_at album_id photo_id v s0 ≡ none

    abbrev pub IfMissing : Result StoreError (Unit {0}) → Type 0
    IfMissing (err StoreError.not_exist) = Missing
    IfMissing other = Unit

    abbrev present : Store → Bool
    present s = any (is_file album_id photo_id v) s.files

    present-IfMissing :
        (b : Bool) (s : Store)
        → (b ≡ false → Missing)
        → IfMissing (throw_if {S = Store} (not b) not_exist s).0
    present-IfMissing true s k = tt
    present-IfMissing false s k = k refl

    stat_at :
        (s : Store) (is_valid : Bool) (faults : List Bool)
        → (present s ≡ false → Missing)
        → IfMissing
            ((throw_if (not is_valid) invalid_id
                >> (syscall >> (λ z. throw_if (not (present z)) not_exist z)))
              (record s { faults = faults })).0
    unfolding syscall
    stat_at s false faults k = tt
    stat_at s true (true ∷ faults) k = tt
    stat_at s true [] k = present-IfMissing (present s) _ k
    stat_at s true (false ∷ faults) k = present-IfMissing (present s) _ k

    pub stat-IfMissing :
        (s : Store) → HasFiles s0 s → IfMissing (stat valid album_id photo_id v s).0
    unfolding stat contents_at
    stat-IfMissing s h =
        stat_at s (valid album_id && valid photo_id) s.faults
          λ e. rw (sym h) (ap file_contents (find-not_any (is_file album_id photo_id v) s.files e))
