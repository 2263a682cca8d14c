-- ===== src/Api/Variants/Renders.antt =====
-- What lies at the paths of a photo, and what its row says, after `generate`.
use photogallery.Prelude.{
  ℕ, ◌≡◌, refl, sym, ◌∙◌, true, false, ◌&&◌, not, Option, some, List, [], ◌∷◌, any,
}
use photogallery.Prelude.Text.{Text, text_dec}
use photogallery.Exec.{Result, ok, err, ◌>>=◌, finally}
use photogallery.Exec.Yields.{OkThen, Yields, Yields-if, Yields-guard}
use photogallery.Db.{Photo}
use photogallery.Db.Photos.{has_original}
use photogallery.Storage.{
  Variant, original, large, medium, small, thumb, blur, same_variant, Store, invalid_id,
  contents_at,
}
use photogallery.Storage.Staging.{abort_staged}
use photogallery.Image.{Vips, Derived, max, deferred}
use photogallery.Image.Derives.{Made, done_after, derive-Made}
use photogallery.Api.{Env, Server}
use photogallery.Api.Variants.{
  Broken, original_of, unless_gone, photo_gone, abort_all, clean_up, publish, derive_photo,
  generate,
}
use photogallery.Api.Variants.Commits.{at_path}
use photogallery.Api.Variants.Publishes.{IsRendered, disk_then, Ready, gone-Ready, placed-Ready}

abort_all-files : (staged : List (Variant × ℕ)) (s : Store) → (abort_all staged s).files ≡ s.files
unfolding abort_all abort_staged
abort_all-files [] s = refl
abort_all-files ((v, n) ∷ staged) s = abort_all-files staged (abort_staged n s)

-- The whole of `deferred` is derived.
done_deferred :
    (vips : Vips) (pic : Text) (base : Store) (src : Store → Option Text)
    (source : (t : Store) → t.files ≡ base.files → src t ≡ some pic) (side : ℕ) (w : Variant)
    → done_after vips pic base src source side (λ w. false) deferred w
      ≡ any (same_variant w) deferred
unfolding any text_dec
done_deferred vips pic base src source side original = refl
done_deferred vips pic base src source side large = refl
done_deferred vips pic base src source side medium = refl
done_deferred vips pic base src source side small = refl
done_deferred vips pic base src source side thumb = refl
done_deferred vips pic base src source side blur = refl

at_path-files :
    (env : Env) (p : Photo) (w : Variant) (s t : Store)
    → t.files ≡ s.files
    → at_path env p w t ≡ at_path env p w s
unfolding contents_at
at_path-files env p w s t e = rw e refl

module _ (env : Env) (p : Photo) (pic : Text) (s : Server)
    (lies : at_path env p original s.store ≡ some pic)
    (present : any (has_original p.album_id p.id p.content_hash) s.db.tables.photos ≡ true) where
  pub source_at : (t : Store) → t.files ≡ s.store.files → original_of p.album_id p.id t ≡ some pic
  source_at t e = at_path-files env p original s.store t e ∙ lies

  abbrev side : ℕ
  side = max p.width p.height

  abbrev pub Derives : Derived → Store → Type 0
  Derives d t =
      Made env.vips pic s.store (original_of p.album_id p.id) source_at side
        (done_after env.vips pic s.store (original_of p.album_id p.id) source_at side (λ w. false)
          deferred)
        d t

  pub derive_photo-Derives : Yields (λ t. t.files ≡ s.store.files) (derive_photo env p) Derives
  unfolding derive_photo
  derive_photo-Derives =
      Yields-guard (not (env.uuid_canonical p.album_id && env.uuid_canonical p.id)) invalid_id _
        λ k.
          derive-Made env.vips pic s.store (original_of p.album_id p.id) source_at p.width p.height
            deferred

  publish-Ready :
      (d : Derived)
      → Yields (λ t. Derives d t.store × (t.db ≡ s.db)) (publish env p d) (Ready env p pic)
  unfolding publish
  publish-Ready d =
      Yields-if d.has_failed (photo_gone p >>= unless_gone) _
        (λ e. record { at = λ t h. (gone-Ready env p pic s.db present).at t h.1 })
        λ e. record {
          at = λ t h.
              let made = h.0 e in
              (placed-Ready env p pic s.db present d made.kinds (λ w.
                  rw
                    (sym (
                      done_deferred env.vips pic s.store (original_of p.album_id p.id) source_at
                        side w))
                    (made.produced w))).at
                t ((made.held, source_at t.store made.files), h.1);
        }

  cleaned :
      (d : Derived) (r : Result Broken (Unit {0})) (t : Server)
      → OkThen (Ready env p pic) r t
      → OkThen (Ready env p pic) r (clean_up d t)
  cleaned d (ok u) t h = record {
    source = at_path-files env p original t.store _ (abort_all-files d.staged t.store) ∙ h.source;
    files = λ w e e'.
        let c = h.files w e e' in
        (c.0, c.1, at_path-files env p w t.store _ (abort_all-files d.staged t.store) ∙ c.2);
    others = λ w e e'.
        at_path-files env p w t.store _ (abort_all-files d.staged t.store) ∙ h.others w e e';
    row = h.row;
  }
  cleaned d (err x) t h = tt

  generate_go :
      Yields
        (λ t. (t.store.files ≡ s.store.files) × (t.db ≡ s.db))
        (generate env p)
        (Ready env p pic)
  unfolding generate
  generate_go =
      disk_then Derives (Ready env p pic) s.db (derive_photo env p)
        (λ d. finally (clean_up d) (publish env p d)) derive_photo-Derives
        λ d. record {
          at = λ t h.
              cleaned d (publish env p d t).0 (publish env p d t).1 ((publish-Ready d).at t h);
        }

  -- When the original of a photo lies at its path, and a row still has the hash of that photo, then
  -- after a `generate` that returns without an error each display variant that is wanted for the size
  -- of the photo lies at its path and is what libvips makes of that original; no `large` lies there
  -- when the longer side is at most 2560; the original is unchanged; and every row with that hash is
  -- ready.
  pub generate-IsRendered :
      OkThen (λ u t. IsRendered env p pic t) (generate env p s).0 (generate env p s).1
  generate-IsRendered = generate_go.at s (refl, refl)
