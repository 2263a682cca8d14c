-- ===== src/Image.antt =====
-- backend/internal/image: image.go and derive.go. What libvips makes of a file is a parameter.
pub mod Held
pub mod Derives
pub mod Succeeds
use photogallery.Prelude.{
  ℕ, Bool, true, false, ◌&&◌, Option, none, some, List, [], ◌∷◌, ◌++◌, leb, ltb, eqb, if◌then◌else◌,
  find,
}
use photogallery.Prelude.Text.{Text}
use photogallery.Exec.{Result, ok, err, pure, gets, modify, ◌>>=◌, ◌>>◌, attempt}
use photogallery.Storage.{
  Variant, large, medium, small, thumb, blur, same_variant, Store, StoreError, Disk,
}
use photogallery.Storage.Staging.{fill_staged}

-- The width and the height of a file, upright; and its JPEG at a long side and a quality, blurred
-- or not. None for a file that cannot be decoded.
pub record Vips : Type 0 where
  pub probe : Text → Option (ℕ × ℕ)
  pub resize : Text → ℕ → ℕ → Bool → Option Text

pub record Size : Type 0 where
  pub variant : Variant
  pub long : ℕ
  pub quality : ℕ

abbrev pub sizes : List Size
sizes =
    record { variant = large; long = 2560; quality = 85 }
    ∷ record { variant = medium; long = 1600; quality = 85 }
    ∷ record { variant = small; long = 800; quality = 80 }
    ∷ record { variant = thumb; long = 400; quality = 80 }
    ∷ []

abbrev pub blur_long : ℕ
blur_long = 40

abbrev pub blur_quality : ℕ
blur_quality = 40

abbrev pub validate : List Variant
validate = thumb ∷ []

abbrev pub deferred : List Variant
deferred = thumb ∷ large ∷ medium ∷ small ∷ blur ∷ []

abbrev pub is_jpeg : Text → Bool
is_jpeg (a ∷ b ∷ c ∷ head) = eqb a 0xff && (eqb b 0xd8 && eqb c 0xff)
is_jpeg head = false

abbrev pub size_of : Variant → Option Size
size_of v = find (λ size. same_variant size.variant v) sizes

-- The staged files that `dst` has made, the variants that are written, and whether an error ended
-- the loop.
pub record Derived : Type 0 where
  pub staged : List (Variant × ℕ)
  pub produced : List Variant
  pub has_failed : Bool

abbrev pub derived_none : Derived
derived_none = record { staged = []; produced = []; has_failed = false }

abbrev pub max : ℕ → ℕ → ℕ
max a b = if ltb a b then b else a

-- `resize` reads the source from its path each time; `src` is what lies there.
module _ (vips : Vips) (src : Store → Option Text) (dst : Variant → Disk ℕ) where
  abbrev pub written : Variant → ℕ → Derived → Option Text → Disk Derived
  written v n d none = pure (record d { has_failed = true })
  written v n d (some out) = do
    modify (fill_staged n out)
    pure (record d { produced = d.produced ++ v ∷ [] })

  abbrev pub thumbnail : ℕ → ℕ → Bool → Option Text → Option Text
  thumbnail long quality is_blurred none = none
  thumbnail long quality is_blurred (some s) = vips.resize s long quality is_blurred

  abbrev pub render_at : Variant → ℕ → ℕ → Bool → Derived → Result StoreError ℕ → Disk Derived
  render_at v long quality is_blurred d (err e) = pure (record d { has_failed = true })
  render_at v long quality is_blurred d (ok n) = do
    s ← gets src
    written v n (record d { staged = (v, n) ∷ d.staged }) (thumbnail long quality is_blurred s)

  unfoldable pub render : Variant → ℕ → ℕ → Bool → Derived → Disk Derived
  render v long quality is_blurred d = do
    path ← attempt (dst v)
    render_at v long quality is_blurred d path

  -- One round of the loop, for a picture with this long side.
  unfoldable pub derive_one : ℕ → Variant → Derived → Disk Derived
  unfolding render
  derive_one side blur d = render blur blur_long blur_quality true d
  derive_one side v d = elim (size_of v) [
    | none ↦ pure (record d { has_failed = true })
    | some size ↦
        if same_variant v large && leb side size.long
        then pure d
        else render v size.long size.quality false d
  ]

  unfoldable pub derive_loop : ℕ → List Variant → Derived → Disk Derived
  unfolding derive_one
  derive_loop side [] d = pure d
  derive_loop side (v ∷ want) d = do
    d' ← derive_one side v d
    if d'.has_failed then pure d' else derive_loop side want d'

  unfoldable pub derive : ℕ → ℕ → List Variant → Disk Derived
  unfolding derive_loop
  derive width height want = derive_loop (max width height) want derived_none
