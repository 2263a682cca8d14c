-- ===== src/Image/Held.antt =====
-- The staged files that a derivation has made.
use photogallery.Prelude.{
  ℕ, ◌<◌, ◌≤◌, ◌≡◌, sym, ◌∙◌, Bool, true, false, ◌&&◌, not, Option, none, some, List, [], ◌∷◌,
  arith, any, leb, find, All, Bool-cases, inl, inr,
}
use photogallery.Prelude.Text.{Text, text_dec}
use photogallery.Storage.{Variant, large, blur, same_variant, Store}
use photogallery.Storage.Staging.{staged_contents}
use photogallery.Storage.Staging.Laws.{same_variant-eq}
use photogallery.Image.{Vips, Size, size_of, blur_long, blur_quality}

abbrev pub sized : (Size → Option Text) → Option Size → Option Text
sized f none = none
sized f (some size) = f size

-- The file that libvips makes of a picture for a variant.
unfoldable pub rendered : Vips → Text → Variant → Option Text
unfolding find text_dec
rendered vips pic blur = vips.resize pic blur_long blur_quality true
rendered vips pic v = sized (λ size. vips.resize pic size.long size.quality false) (size_of v)

-- A variant that is made for a picture with this long side.
abbrev pub is_wanted : ℕ → Variant → Bool
is_wanted side w = not (same_variant w large && leb side 2560)

module _ (vips : Vips) (pic : Text) where
  -- Each staged file holds its rendering; the newest comes first.
  abbrev pub Held : Store → List (Variant × ℕ) → Type 0
  Held s [] = Unit
  Held s ((v, n) ∷ rest) =
      ((c : Text) × (rendered vips pic v ≡ some c) × (staged_contents n s ≡ some c))
      × (n < s.temps)
      × All (λ x. x.1 < n) rest
      × Held s rest

  pub Held-temps :
      (s : Store) (staged : List (Variant × ℕ)) → Held s staged → All (λ x. x.1 < s.temps) staged
  Held-temps s [] h = tt
  Held-temps s ((v, n) ∷ rest) h = (h.1, Held-temps s rest h.3)

  -- What happens to the names above leaves it alone.
  pub Held-later :
      (k : ℕ) (s t : Store) (staged : List (Variant × ℕ))
      → s.temps ≤ t.temps
      → ((m : ℕ) → m < k → staged_contents m t ≡ staged_contents m s)
      → All (λ x. x.1 < k) staged
      → Held s staged
      → Held t staged
  Held-later k s t [] le same below h = tt
  Held-later k s t ((v, n) ∷ rest) le same below h = (
    (h.0.0, h.0.1, same n below.0 ∙ h.0.2),
    omega (arith, h.1),
    h.2,
    Held-later k s t rest le same below.1 h.3,
  )

  -- A variant with a staged file has a rendering.
  pub Held-made :
      (w : Variant) (s : Store) (staged : List (Variant × ℕ))
      → Held s staged
      → any (λ x. same_variant x.0 w) staged ≡ true
      → (c : Text) × (rendered vips pic w ≡ some c)
  unfolding any
  Held-made w s ((v, n) ∷ rest) h e = elim (Bool-cases (same_variant v w)) [
    | inl same ↦ (h.0.0, rw (sym (same_variant-eq v w same)) h.0.1)
    | inr other ↦ Held-made w s rest h.3 (ground (arith, e, other))
  ]
  Held-made w s [] h e = absurd (ground (arith, e))
