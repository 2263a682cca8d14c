-- ===== src/Image/Derives.antt =====
-- What `Derive` leaves in the incoming directory when it succeeds, with a new staged file for each
-- variant.
use photogallery.Prelude.{
  ℕ, ◌≡◌, refl, ◌∙◌, Bool, true, false, ◌&&◌, ◌||◌, Option, none, some, List, [], ◌∷◌, ◌++◌, arith,
  eqb, leb, any, any-append, find, if◌then◌else◌, Bool-cases, inl, inr,
}
use photogallery.Prelude.Text.{Text, text_dec}
use photogallery.Exec.{Result, ok, err, pure, attempt}
use photogallery.Exec.Yields.{Yields-if, OkThen, Yields, Yields-bind, Yields-pure, Yields-attempt}
use photogallery.Storage.{
  Variant, original, large, medium, small, thumb, blur, same_variant, Store, StoreError, Disk,
}
use photogallery.Storage.Staging.{new_staged, fill_staged, staged_contents}
use photogallery.Storage.Staging.Laws.{
  Same-refl, IsStaged, new_staged-IsStaged, fill_staged_lem, same_variant-eq,
}
use photogallery.Image.{
  Vips, Derived, derived_none, max, written, render_at, render, derive_one, derive_loop, derive,
  blur_long, blur_quality,
}
use photogallery.Image.Held.{rendered, is_wanted, Held, Held-temps, Held-later}

module _ (vips : Vips) (pic : Text) (base : Store) (src : Store → Option Text)
    (source : (t : Store) → t.files ≡ base.files → src t ≡ some pic) (side : ℕ) where
  abbrev new : Variant → Disk ℕ
  new v = new_staged

  -- What is staged for the variants that are done, unless the derivation has failed.
  pub record IsMade (done : Variant → Bool) (d : Derived) (t : Store) : Type 0 where
    pub files : t.files ≡ base.files
    pub held : Held vips pic t d.staged
    pub kinds :
        (w : Variant) → any (λ x. same_variant x.0 w) d.staged ≡ any (same_variant w) d.produced
    pub produced : (w : Variant) → any (same_variant w) d.produced ≡ (done w && is_wanted side w)

  abbrev pub Made : (Variant → Bool) → Derived → Store → Type 0
  Made done d t = d.has_failed ≡ false → IsMade done d t

  failed-Made :
      (done : Variant → Bool) (d : Derived) (t : Store)
      → Made done (record d { has_failed = true }) t
  failed-Made done d t e = absurd (ground (arith, e))

  abbrev and_also : (Variant → Bool) → Variant → Variant → Bool
  and_also done v w = done w || same_variant w v

  module _ (done : Variant → Bool) (v : Variant) (long quality : ℕ) (is_blurred : Bool)
      (rendering : rendered vips pic v ≡ vips.resize pic long quality is_blurred)
      (wanted : (w : Variant) → same_variant w v ≡ true → is_wanted side w ≡ true) where
    filled-IsMade :
        (n : ℕ) (out : Text) (d : Derived) (s t : Store)
        → d.has_failed ≡ false
        → IsMade done d s
        → IsStaged n s t
        → vips.resize pic long quality is_blurred ≡ some out
        → IsMade
            (and_also done v)
            (record d { staged = (v, n) ∷ d.staged; produced = d.produced ++ v ∷ [] })
            (fill_staged n out t)
    unfolding any
    filled-IsMade n out d s t ok_yet h made e = record {
      files = made.files ∙ h.files;
      held = (
        (out, rendering ∙ e, ground (arith, filled n)),
        omega (arith, made.name, made.temps),
        rw made.name (Held-temps vips pic s d.staged h.held),
        Held-later vips pic s.temps s (fill_staged n out t) d.staged (omega (arith, made.temps))
            (λ m below. ground (arith, below, made.name, filled m, made.staged m))
            (Held-temps vips pic s d.staged h.held) h.held,
      );
      kinds = λ w. ground (arith, h.kinds w, any-append (same_variant w) d.produced (v ∷ []));
      produced = λ w.
          ground (arith, h.produced w, wanted w, any-append (same_variant w) d.produced (v ∷ []));
    }
      where
        empty : staged_contents n t ≡ some []
        empty = ground (arith, made.staged n)

        filled :
            (m : ℕ)
            → staged_contents m (fill_staged n out t)
              ≡ (if eqb n m then some out else staged_contents m t)
        filled m = fill_staged_lem n m out [] t empty

    thumbnail-Made :
        (n : ℕ) (o : Option Text) (d : Derived) (s t : Store)
        → d.has_failed ≡ false
        → IsMade done d s
        → IsStaged n s t
        → vips.resize pic long quality is_blurred ≡ o
        → OkThen
            (Made (and_also done v))
            (written vips src new v n (record d { staged = (v, n) ∷ d.staged }) o t).0
            (written vips src new v n (record d { staged = (v, n) ∷ d.staged }) o t).1
    thumbnail-Made n none d s t ok_yet h made e =
        failed-Made (and_also done v) (record d { staged = (v, n) ∷ d.staged }) t
    thumbnail-Made n (some out) d s t ok_yet h made e =
        λ still. filled-IsMade n out d s t ok_yet h made e

    path-Made :
        (d : Derived) (s : Store)
        → d.has_failed ≡ false
        → IsMade done d s
        → (r : Result StoreError ℕ)
        → Yields
            (λ t. OkThen (λ n t. IsStaged n s t) r t)
            (render_at vips src new v long quality is_blurred d r)
            (Made (and_also done v))
    path-Made d s ok_yet h (err e) = Yields-pure _ λ t made. failed-Made (and_also done v) d t
    path-Made d s ok_yet h (ok n) = record {
      at = λ t made.
          rw (source t (made.files ∙ h.files))
            (thumbnail-Made n (vips.resize pic long quality is_blurred) d s t ok_yet h made refl);
    }

    render-Made :
        (d : Derived)
        → d.has_failed ≡ false
        → Yields
            (IsMade done d)
            (render vips src new v long quality is_blurred d)
            (Made (and_also done v))
    unfolding render
    render-Made d ok_yet = record {
      at = λ s h.
          (Yields-bind (λ r t. OkThen (λ n t. IsStaged n s t) r t) (attempt new_staged)
              (render_at vips src new v long quality is_blurred d)
              (Yields-attempt new_staged (new_staged-IsStaged s)) (path-Made d s ok_yet h)).at
            s (Same-refl s);
    }

  wanted_unless_large :
      (v w : Variant)
      → same_variant v large ≡ false
      → same_variant w v ≡ true
      → is_wanted side w ≡ true
  wanted_unless_large v w k e = rw (same_variant-eq w v e) (ground (arith, k))

  wanted_large :
      (w : Variant) → leb side 2560 ≡ false → same_variant w large ≡ true → is_wanted side w ≡ true
  wanted_large w k e = ground (arith, k, e)

  skipped-Made :
      (done : Variant → Bool) (d : Derived)
      → leb side 2560 ≡ true
      → Yields (IsMade done d) (pure {E = StoreError} d) (Made (and_also done large))
  skipped-Made done d k = Yields-pure d λ s h still. record {
    files = h.files;
    held = h.held;
    kinds = h.kinds;
    produced = λ w. ground (arith, h.produced w, k);
  }

  derive_one-Made :
      (done : Variant → Bool) (v : Variant) (d : Derived)
      → d.has_failed ≡ false
      → Yields (IsMade done d) (derive_one vips src new side v d) (Made (and_also done v))
  unfolding derive_one rendered find text_dec
  derive_one-Made done original d ok_yet =
      Yields-pure _ λ t h. failed-Made (and_also done original) d t
  derive_one-Made done large d ok_yet = elim (Bool-cases (leb side 2560)) [
    | inl e ↦ rw e (skipped-Made done d e)
    | inr e ↦ rw e (render-Made done large 2560 85 false refl (λ w. wanted_large w e) d ok_yet)
  ]
  derive_one-Made done medium d ok_yet =
      render-Made done medium 1600 85 false refl (λ w. wanted_unless_large medium w refl) d ok_yet
  derive_one-Made done small d ok_yet =
      render-Made done small 800 80 false refl (λ w. wanted_unless_large small w refl) d ok_yet
  derive_one-Made done thumb d ok_yet =
      render-Made done thumb 400 80 false refl (λ w. wanted_unless_large thumb w refl) d ok_yet
  derive_one-Made done blur d ok_yet =
      render-Made done blur blur_long blur_quality true refl (λ w. wanted_unless_large blur w refl)
        d ok_yet

  abbrev pub done_after : (Variant → Bool) → List Variant → Variant → Bool
  done_after done [] = done
  done_after done (v ∷ want) = done_after (and_also done v) want

  derive_loop-Made :
      (want : List Variant) (done : Variant → Bool) (d : Derived)
      → d.has_failed ≡ false
      → Yields (IsMade done d) (derive_loop vips src new side want d) (Made (done_after done want))
  unfolding derive_loop
  derive_loop-Made [] done d ok_yet = Yields-pure d λ t h still. h
  derive_loop-Made (v ∷ want) done d ok_yet =
      Yields-bind (Made (and_also done v)) (derive_one vips src new side v d) _
        (derive_one-Made done v d ok_yet)
        λ d'.
          Yields-if d'.has_failed (pure d') (derive_loop vips src new side want d')
            (λ e. Yields-pure d' λ t h still. absurd (ground (arith, e, still)))
            λ e. record { at = λ t h. (derive_loop-Made want (and_also done v) d' e).at t (h e) }

module _ (vips : Vips) (pic : Text) (base : Store) (src : Store → Option Text)
    (source : (t : Store) → t.files ≡ base.files → src t ≡ some pic) (width height : ℕ) where
  pub derive-Made :
      (want : List Variant)
      → Yields
          (λ t. t.files ≡ base.files)
          (derive vips src (λ v. new_staged) width height want)
          (λ d t.
            Made vips pic base src source
              (max width height)
              (done_after vips pic base src source (max width height) (λ w. false) want)
              d
              t)
  unfolding derive any
  derive-Made want = record {
    at = λ t h.
        (derive_loop-Made vips pic base src source (max width height) want (λ w. false) derived_none
            refl).at
          t (record { files = h; held = tt; kinds = λ w. refl; produced = λ w. refl });
  }
