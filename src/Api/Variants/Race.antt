-- ===== src/Api/Variants/Race.antt =====
-- backend/internal/api: a replacement of a photo and the variant worker, in any order of their steps.
use photogallery.Prelude.{ℕ, ◌≡◌, refl, Bool, true, false, some, List, [], ◌∷◌, any, find, filter}
use photogallery.Prelude.Text.{Text, bytes, text_dec}
use photogallery.Exec.{Result, ok, err}
use photogallery.Db.{Album, Photo}
use photogallery.Storage.{File, Variant, original, thumb, is_file}
use photogallery.Db.{statement}
use photogallery.Db.Photos.{
  mark_variants_pending, list_photos_pending_variants, mark_variants_ready, sort_by, update_photo,
}
use photogallery.Storage.Staging.{commit}
use photogallery.Api.{Env, Server, query, try_store}
use photogallery.Api.Publish.Ingest.{put_file, hide, save}
use photogallery.Api.Variants.{run_round, woken, ticked, idle}

-- Where the replacing request stands, after `probeUpload`.
pub data Phase : Type 0 where
  probed hidden placed answered : Phase

-- An error ends the request.
abbrev pub after_call : {E A : Type 0} → Result E A → Phase → Phase
after_call (ok u) phase = phase
after_call (err e) phase = answered

module _ (env : Env) (a : Album) (photo : Photo) (n : ℕ) where
  -- A call of the request on the tables or the store, or a whole round of the worker,
  -- after a kick or a tick of the retry timer.
  pub data Step : Server × Phase → Server × Phase → Type 0 where
    hides :
        (s : Server)
        → Step
            (s, probed)
            ((hide env false a photo s).1, after_call (hide env false a photo s).0 hidden)
    places :
        (s : Server)
        → Step
            (s, hidden)
            ((put_file env n a photo s).1, after_call (put_file env n a photo s).0 placed)
    saves : (s : Server) → Step (s, placed) ((save env false true a photo s).1, answered)
    wakes :
        (stops : List Bool) (s : Server) (phase : Phase)
        → s.worker.wake ≡ true
        → Step (s, phase) ((run_round env woken stops s).1, phase)
    ticks :
        (stops : List Bool) (s : Server) (phase : Phase)
        → Step (s, phase) ((run_round env ticked stops s).1, phase)

  pub data Reach (start : Server × Phase) : Server × Phase → Type 0 where
    here : Reach start start
    next : {t u : Server × Phase} → Reach start t → Step t u → Reach start u

-- One album with one photo, of which the original holds `old`; the request has staged `new`.
module _ (base_env : Env) (base : Server) (album : Album) (row : Photo)
    (image : Text → ℕ → ℕ → Bool → Text) (old new hash : Text) where
  abbrev pub accepting : Env
  accepting = record base_env {
    uuid_canonical = λ id. true;
    vips = record base_env.vips {
      resize = λ s long quality is_blurred. some (image s long quality is_blurred);
    };
  }

  abbrev pub a : Album
  a = record album { id = bytes "a" }

  abbrev pub before : Photo
  before = record row {
    id = bytes "p";
    album_id = bytes "a";
    width = 4;
    height = 3;
    variants_ready = true;
    content_hash = bytes "old";
  }

  abbrev pub file_of : Variant → Text → File
  file_of v contents = record {
    album_id = bytes "a";
    photo_id = bytes "p";
    variant = v;
    contents = contents;
  }

  abbrev pub start : Server
  start = record base {
    db = record { tables = record base.db.tables { photos = before ∷ [] }; faults = [] };
    store = record {
      files =
          record { album_id = bytes "a"; photo_id = bytes "p"; variant = original; contents = old }
          ∷ [];
      incoming = record { name = 0; contents = new; is_open = false } ∷ [];
      temps = 1;
      faults = [];
    };
    worker = record base.worker { failed = [] };
  }

  -- The row that the request writes.
  abbrev pub after_row : Photo
  after_row = record before { filename = bytes "new.jpg"; content_hash = hash }

  abbrev hidden_at : Server
  hidden_at = (hide accepting false a after_row start).1

  abbrev worked_at : Server
  worked_at = (run_round accepting ticked [] hidden_at).1

  abbrev placed_at : Server
  placed_at = (put_file accepting 0 a after_row worked_at).1

  abbrev saved_at : Server
  saved_at = (save accepting false true a after_row placed_at).1

  abbrev end : Server
  end = (run_round accepting woken [] saved_at).1

  -- The photo is visible under the hash of the new file, its thumb is that of the old one, and no
  -- round of the worker is due.
  pub record IsStale (s : Server) : Type 0 where
    pub rows : s.db.tables.photos ≡ record after_row { variants_ready = true } ∷ []
    pub original_new :
        find (is_file (bytes "a") (bytes "p") original) s.store.files ≡ some (file_of original new)
    pub thumb_old :
        find (is_file (bytes "a") (bytes "p") thumb) s.store.files
        ≡ some (file_of thumb (image old 400 80 false))
    pub at_rest : idle s.worker ≡ true

  hides-done : Step accepting a after_row 0 (start, probed) (hidden_at, hidden)
  unfolding query mark_variants_pending statement text_dec any
  hides-done = hides start

  places-done : Step accepting a after_row 0 (worked_at, hidden) (placed_at, placed)
  unfolding run_round query mark_variants_pending list_photos_pending_variants mark_variants_ready
      statement sort_by filter any find text_dec commit try_store
  places-done = places worked_at

  saved-kicked : saved_at.worker.wake ≡ true
  unfolding run_round query mark_variants_pending list_photos_pending_variants mark_variants_ready
      statement sort_by filter any find text_dec save update_photo commit try_store
  saved-kicked = refl

  end-IsStale : IsStale end
  unfolding run_round query mark_variants_pending list_photos_pending_variants mark_variants_ready
      statement sort_by filter any find text_dec save update_photo commit try_store
  end-IsStale = record { rows = refl; original_new = refl; thumb_old = refl; at_rest = refl }

  -- A bug, for an album whose one photo is 4 by 3 pixels, without any failure of the tables or the
  -- store, whatever the old and the new file are and however they are rendered. A replacement has
  -- marked the photo pending and not yet put the new file in place; a tick of the retry timer lets
  -- the worker render the old file and mark the photo ready, since the row still has the old hash;
  -- the request then puts the new file and its row and kicks the worker. In the end the photo is
  -- visible under the hash of the new file with the new original, its thumb shows the old file, and
  -- no kick is left that would render it again.
  pub replacement-IsStale :
      (s : Server) × Reach accepting a after_row 0 (start, probed) (s, answered) × IsStale s
  replacement-IsStale = (
    end,
    next
        (next (next (next (next here hides-done) (ticks [] hidden_at hidden)) places-done)
          (saves placed_at))
        (wakes [] saved_at answered saved-kicked),
    end-IsStale,
  )
