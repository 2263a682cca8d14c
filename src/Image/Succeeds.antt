-- ===== src/Image/Succeeds.antt =====
-- `Derive` succeeds when the source can be decoded and no call of the operating system fails.
use photogallery.Prelude.{
  ℕ, ◌≡◌, refl, ◌∙◌, Bool, true, false, Option, some, List, [], ◌∷◌, arith, leb, any, find, All,
  Bool-cases, inl, inr,
}
use photogallery.Prelude.Text.{Text, text_dec}
use photogallery.Exec.{Result, ok, err, pure, attempt}
use photogallery.Exec.Returns.{OkAnd, Returns, Returns-bind, Returns-if, OkAnd-both, OkAnd-weaken}
use photogallery.Storage.{
  Variant, original, large, medium, small, thumb, blur, same_variant, Store, StoreError, Disk,
}
use photogallery.Storage.Staging.{new_staged}
use photogallery.Storage.Staging.Laws.{Same-refl, IsStaged, new_staged-IsStaged}
use photogallery.Storage.Staging.Calm.{IsCalm, new_staged-IsCalm}
use photogallery.Image.{
  Vips, Derived, derived_none, max, render_at, render, derive_one, derive_loop, derive, blur_long,
  blur_quality, deferred,
}
use photogallery.Image.Held.{rendered, is_wanted}

module _ (vips : Vips) (pic : Text) where
  -- libvips can make the variant, when it is wanted for a picture with this long side.
  abbrev pub IsMakeable : ℕ → Variant → Type 0
  IsMakeable side v = is_wanted side v ≡ true → (c : Text) × (rendered vips pic v ≡ some c)

module _ (vips : Vips) (pic : Text) (base : Store) (src : Store → Option Text)
    (source : (t : Store) → t.files ≡ base.files → src t ≡ some pic) (side : ℕ) where
  abbrev new : Variant → Disk ℕ
  new v = new_staged

  -- Nothing has failed, and the files are where they were.
  abbrev IsFine : Store → Type 0
  IsFine t = IsCalm t × (t.files ≡ base.files)

  abbrev pub Fine : Derived → Store → Type 0
  Fine d t = (d.has_failed ≡ false) × IsFine t

  new-Fine :
      Returns IsFine (attempt {F = StoreError} new_staged) (λ r t. OkAnd (λ n t. IsFine t) r t)
  new-Fine = record {
    at = λ s h.
        OkAnd-weaken (λ n t. IsCalm t × IsStaged n s t) (λ n t. IsFine t) (new_staged s).0
          (new_staged s).1 (λ n t k. (k.0, k.1.files ∙ h.1))
          (OkAnd-both (λ n t. IsCalm t) (λ n t. IsStaged n s t) (new_staged s).0 (new_staged s).1
            (new_staged-IsCalm.at s h.0) ((new_staged-IsStaged s).at s (Same-refl s)));
  }

  module _ (v : Variant) (long quality : ℕ) (is_blurred : Bool) (c : Text)
      (made : vips.resize pic long quality is_blurred ≡ some c) where
    render_at-Fine :
        (d : Derived)
        → d.has_failed ≡ false
        → (r : Result StoreError ℕ)
        → Returns
            (λ t. OkAnd (λ n t. IsFine t) r t)
            (render_at vips src new v long quality is_blurred d r)
            Fine
    render_at-Fine d ok_yet (err e) = record { at = λ t h. absurd h }
    render_at-Fine d ok_yet (ok n) = record { at = λ t h. rw (source t h.1, made) (ok_yet, h) }

    render-Fine :
        (d : Derived)
        → d.has_failed ≡ false
        → Returns IsFine (render vips src new v long quality is_blurred d) Fine
    unfolding render
    render-Fine d ok_yet =
        Returns-bind (λ r t. OkAnd (λ n t. IsFine t) r t) (attempt new_staged)
          (render_at vips src new v long quality is_blurred d) new-Fine (render_at-Fine d ok_yet)

  derive_one-Fine :
      (v : Variant) (d : Derived)
      → same_variant v original ≡ false
      → IsMakeable vips pic side v
      → d.has_failed ≡ false
      → Returns IsFine (derive_one vips src new side v d) Fine
  unfolding derive_one rendered find text_dec
  derive_one-Fine original d e k ok_yet = absurd (ground (arith, e))
  derive_one-Fine large d e k ok_yet = elim (Bool-cases (leb side 2560)) [
    | inl e' ↦ rw e' (record { at = λ t h. (ok_yet, h) })
    | inr e' ↦
        let c = k (ground (arith, e')) in rw e' (render-Fine large 2560 85 false c.0 c.1 d ok_yet)
  ]
  derive_one-Fine medium d e k ok_yet =
      let c = k refl in render-Fine medium 1600 85 false c.0 c.1 d ok_yet
  derive_one-Fine small d e k ok_yet =
      let c = k refl in render-Fine small 800 80 false c.0 c.1 d ok_yet
  derive_one-Fine thumb d e k ok_yet =
      let c = k refl in render-Fine thumb 400 80 false c.0 c.1 d ok_yet
  derive_one-Fine blur d e k ok_yet =
      let c = k refl in render-Fine blur blur_long blur_quality true c.0 c.1 d ok_yet

  derive_loop-Fine :
      (want : List Variant) (d : Derived)
      → All (λ v. (same_variant v original ≡ false) × IsMakeable vips pic side v) want
      → d.has_failed ≡ false
      → Returns IsFine (derive_loop vips src new side want d) Fine
  unfolding derive_loop
  derive_loop-Fine [] d k ok_yet = record { at = λ t h. (ok_yet, h) }
  derive_loop-Fine (v ∷ want) d k ok_yet =
      Returns-bind Fine (derive_one vips src new side v d) _
        (derive_one-Fine v d k.0.0 k.0.1 ok_yet)
        λ d'.
          Returns-if d'.has_failed (pure d') (derive_loop vips src new side want d')
            (λ e. record { at = λ t h. absurd (ground (arith, e, h.0)) })
            λ e. record { at = λ t h. (derive_loop-Fine want d' k.1 e).at t h.1 }

module _ (vips : Vips) (pic : Text) (base : Store) (src : Store → Option Text)
    (source : (t : Store) → t.files ≡ base.files → src t ≡ some pic) (width height : ℕ)
    (makeable : (v : Variant)
      → any (same_variant v) deferred ≡ true
      → IsMakeable vips pic (max width height) v) where
  pub derive-Fine :
      Returns
        (λ t. IsCalm t × (t.files ≡ base.files))
        (derive vips src (λ v. new_staged) width height deferred)
        (Fine vips pic base src source (max width height))
  unfolding derive text_dec any
  derive-Fine =
      derive_loop-Fine vips pic base src source (max width height) deferred derived_none
        (
          (refl, makeable thumb refl),
          (
            (refl, makeable large refl),
            (
              (refl, makeable medium refl),
              ((refl, makeable small refl), ((refl, makeable blur refl), tt)),
            ),
          ),
        )
        refl
