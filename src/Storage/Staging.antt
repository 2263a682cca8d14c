-- ===== src/Storage/Staging.antt =====
-- backend/internal/storage/storage.go: files that are written to the incoming directory first. A
-- staged file is named by its temporary name, and `done` holds exactly when no file of that name is
-- left there. Removing a temporary file does not fail here.
pub mod Laws
pub mod Commits
pub mod Calm
use mathlib.Core.List.{map}
use photogallery.Prelude.{
  ℕ, ◌+◌, Bool, true, false, ◌&&◌, not, none, some, Option, none, some, List, [], ◌∷◌, ◌++◌, eqb,
  if◌then◌else◌, any, find, filter,
}
use photogallery.Prelude.Text.{Text}
use photogallery.Exec.{pure, gets, modify, throw_if, skip, ◌>>=◌, ◌>>◌, attempt, rethrow}
use photogallery.Storage.{
  Variant, File, StagedFile, Store, already_done, Disk, syscall, is_file, check_path,
}

abbrev pub is_staged : ℕ → StagedFile → Bool
is_staged n f = eqb f.name n

abbrev pub put_incoming : List StagedFile → Store → Store
put_incoming incoming s = record s { incoming = incoming }

abbrev pub contents_of : Option StagedFile → Option Text
contents_of none = none
contents_of (some f) = some f.contents

-- What lies at the path of a staged file.
unfoldable pub staged_contents : ℕ → Store → Option Text
staged_contents n s = contents_of (find (is_staged n) s.incoming)

-- `NewStaged`
unfoldable pub new_staged : Disk ℕ
unfolding syscall
new_staged = do
  syscall
  n ← gets (λ s. s.temps)
  incoming ← gets (λ s. s.incoming)
  modify (λ s. record s {
    incoming = record { name = n; contents = []; is_open = true } ∷ incoming;
    temps = n + 1;
  })
  pure n

abbrev pub edit_staged : ℕ → (StagedFile → StagedFile) → Store → Store
edit_staged n f s = put_incoming (map (λ g. if is_staged n g then f g else g) s.incoming) s

-- `Staged.Write`
unfoldable pub write_staged : ℕ → Text → Disk Unit
unfolding syscall
write_staged n p = do syscall; modify (edit_staged n (λ f. record f { contents = f.contents ++ p }))

-- libvips writes a whole file at `Staged.Path`.
abbrev pub fill_staged : ℕ → Text → Store → Store
fill_staged n p = edit_staged n (λ f. record f { contents = p })

-- The descriptor is closed also when flushing it fails; the first error is returned.
unfoldable pub flush_staged : ℕ → Disk Unit
unfolding syscall
flush_staged n = do
  synced ← attempt syscall
  closed ← attempt syscall
  modify (edit_staged n (λ f. record f { is_open = false }))
  rethrow synced
  rethrow closed

-- `Staged.Sync`
unfoldable pub sync_staged : ℕ → Disk Unit
unfolding flush_staged
sync_staged n = do
  is_open ← gets (λ s. any (λ f. is_staged n f && f.is_open) s.incoming)
  if is_open then flush_staged n else skip

-- `Staged.Abort`
unfoldable pub abort_staged : ℕ → Store → Store
abort_staged n s = put_incoming (filter (λ f. not (is_staged n f)) s.incoming) s

-- `Rename` takes the place of a file that was there.
abbrev pub place : Text → Text → Variant → Text → List File → List File
place album_id photo_id v contents files =
    record { album_id = album_id; photo_id = photo_id; variant = v; contents = contents }
    ∷ filter (λ f. not (is_file album_id photo_id v f)) files

unfoldable pub rename_staged : ℕ → Text → Text → Variant → Store → Store
unfolding abort_staged
rename_staged n album_id photo_id v s = elim (find (is_staged n) s.incoming) [
  | none ↦ s
  | some f ↦ abort_staged n (record s { files = place album_id photo_id v f.contents s.files })
]

module _ (valid : Text → Bool) where
  -- `Commit`
  unfoldable pub commit : ℕ → Text → Text → Variant → Disk Unit
  unfolding syscall sync_staged rename_staged
  commit n album_id photo_id v = do
    present ← gets (λ s. any (is_staged n) s.incoming)
    throw_if (not present) already_done
    check_path valid album_id photo_id
    sync_staged n
    syscall
    syscall
    modify (rename_staged n album_id photo_id v)
