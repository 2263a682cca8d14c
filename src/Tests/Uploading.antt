-- ===== src/Tests/Uploading.antt =====
-- Uploads and the variant worker at concrete inputs.
use photogallery.Api.Filename.Safe.{IsSafeName, sanitize_filename-IsSafeName}
use mathlib.Core.List.{map}
use photogallery.Prelude.{
  arith, ℕ, Bool, ◌≡◌, refl, true, none, some, List, [], ◌∷◌, any, find, filter, ◌++◌,
}
use photogallery.Prelude.Text.{Text, bytes, text_dec, ◌==◌}
use photogallery.Db.{Photo, statement}
use photogallery.Db.Albums.{get_album}
use photogallery.Db.Photos.{
  get_photo_by_lr_uuid, insert_photo, list_photos_pending_variants, mark_variants_ready,
}
use photogallery.Storage.{
  Variant, same_variant, original, large, medium, small, thumb, blur, variant_name, contents_at,
}
use photogallery.Api.{Server, Reply, photo_stored, respond}
use photogallery.Api.Filename.{sanitize_filename}
use photogallery.Api.Publish.Upload.{Body, multipart, complete}
use photogallery.Api.Publish.Ingest.{waiting, upload_photo}
use photogallery.Api.Variants.{woken, generate, run_round}
use photogallery.Api.Variants.Publishes.{IsRendered}
use photogallery.Image.{deferred}
use photogallery.Image.Held.{rendered as made_of}
use photogallery.Image.Succeeds.{IsMakeable}
use photogallery.Api.Variants.Finishes.{generate-returns}
use photogallery.Api.Variants.Renders.{generate-IsRendered}
use photogallery.Api.Variants.Race.{
  probed, answered, Reach, accepting, a, start, after_row, IsStale, replacement-IsStale,
}
use photogallery.Tests.World.{env, album, photo, world}

sanitize_filename-IsSafeName_example : IsSafeName (sanitize_filename (bytes "b/c:d?.jpg "))
sanitize_filename-IsSafeName_example = sanitize_filename-IsSafeName (bytes "b/c:d?.jpg ")

sanitized : sanitize_filename (bytes "b/c:d?.jpg ") ≡ bytes "c_d_.jpg"
unfolding sanitize_filename text_dec any
sanitized = refl

abbrev picture : Text
picture = 0xff ∷ 0xd8 ∷ 0xff ∷ 7 ∷ []

abbrev body : Body
body =
    multipart
      (record {
        form_name = bytes "lr_photo_uuid";
        file_name = [];
        chunks = bytes "new" ∷ [];
        ending = complete;
      }
        ∷ record {
          form_name = bytes "file";
          file_name = bytes "x/y.jpg";
          chunks = (0xff ∷ 0xd8 ∷ []) ∷ (0xff ∷ 7 ∷ []) ∷ [];
          ending = complete;
        }
        ∷ [])
      complete

abbrev uploaded : Reply × Server
uploaded = respond (upload_photo env (bytes "a") waiting body) world

abbrev rendered : Server
rendered = (run_round env woken [] uploaded.1).1

abbrev shown : Server → List (Text × Bool × Text × Text)
shown s = map (λ p. (p.id, p.variants_ready, p.filename, p.content_hash)) s.db.tables.photos

abbrev files_in : Server → List (Text × Text × Text)
files_in s = map (λ f. (f.photo_id, variant_name f.variant, f.contents)) s.store.files

uploaded-reply : uploaded.0 ≡ photo_stored 201 (0 ∷ []) (bytes "https://x/a/trip?photo=" ++ 0 ∷ [])
unfolding respond upload_photo text_dec get_album statement find get_photo_by_lr_uuid filter any
    insert_photo
uploaded-reply = refl

-- The worker renders the new photo at once, and nothing is left in the incoming directory.
rendered-shown :
    (shown rendered
      ≡ (bytes "p", true, bytes "p.jpg", bytes "h") ∷ (0 ∷ [], true, bytes "y.jpg", picture) ∷ [])
    × (rendered.store.incoming ≡ [])
unfolding respond upload_photo run_round text_dec get_album statement find get_photo_by_lr_uuid
    filter any insert_photo list_photos_pending_variants mark_variants_ready
rendered-shown = (refl, refl)

abbrev image : Text → ℕ → ℕ → Bool → Text
image s long quality is_blurred = long ∷ s

replacement-IsStale_example :
    (s : Server) × Reach
      (accepting env world album photo image picture (0 ∷ picture) (bytes "new"))
      (a env world album photo image picture (0 ∷ picture) (bytes "new"))
      (after_row env world album photo image picture (0 ∷ picture) (bytes "new"))
      0
      (start env world album photo image picture (0 ∷ picture) (bytes "new"), probed)
      (s, answered)
    × IsStale env world album photo image picture (0 ∷ picture) (bytes "new") s
replacement-IsStale_example =
    replacement-IsStale env world album photo image picture (0 ∷ picture) (bytes "new")

abbrev new_row : Photo
new_row = elim (find (λ p. p.id == 0 ∷ []) uploaded.1.db.tables.photos) [
  | none ↦ photo
  | some p ↦ p
]

generate-IsRendered_example : IsRendered env new_row picture (generate env new_row uploaded.1).1
unfolding respond upload_photo generate text_dec get_album statement find get_photo_by_lr_uuid
    filter any insert_photo mark_variants_ready contents_at
generate-IsRendered_example = generate-IsRendered env new_row picture uploaded.1 refl refl

-- The longer side of the upload is 7.
picture-IsMakeable :
    (w : Variant) → any (same_variant w) deferred ≡ true → IsMakeable env.vips picture 7 w
unfolding any find text_dec made_of
picture-IsMakeable original h k = absurd (ground (arith, h))
picture-IsMakeable large h k = absurd (ground (arith, k))
picture-IsMakeable medium h k = (1600 ∷ picture, refl)
picture-IsMakeable small h k = (800 ∷ picture, refl)
picture-IsMakeable thumb h k = (400 ∷ picture, refl)
picture-IsMakeable blur h k = (40 ∷ picture, refl)

generate-returns_example : IsRendered env new_row picture (generate env new_row uploaded.1).1
unfolding respond upload_photo generate text_dec get_album statement find get_photo_by_lr_uuid
    filter any insert_photo mark_variants_ready contents_at
generate-returns_example =
    generate-returns env new_row picture uploaded.1 refl refl refl picture-IsMakeable refl refl
