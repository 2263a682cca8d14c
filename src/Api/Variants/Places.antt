-- ===== src/Api/Variants/Places.antt =====
-- What lies at the paths of a photo after `generate` has committed and dropped its files.
use photogallery.Prelude.{◌≡◌, ◌∙◌, true, false, ◌&&◌, none, some, arith, any}
use photogallery.Prelude.Text.{Text, text_dec}
use photogallery.Exec.Yields.{Yields, OkThen-weaken}
use photogallery.Db.{Photo}
use photogallery.Storage.{Variant, original, same_variant, Store}
use photogallery.Image.{Derived, max, deferred}
use photogallery.Image.Held.{rendered, is_wanted, Held, Held-made}
use photogallery.Api.{Env}
use photogallery.Api.Variants.{commit_all, drop_others}
use photogallery.Api.Variants.Commits.{at_path, Holds, commit_all-Holds, Drops, drop_others-Drops}

-- What lies at the paths when `generate` marks the row.
pub record Lies (env : Env) (p : Photo) (pic : Text) (t : Store) : Type 0 where
  pub source : at_path env p original t ≡ some pic
  pub files :
      (w : Variant)
      → any (same_variant w) deferred ≡ true
      → is_wanted (max p.width p.height) w ≡ true
      → (c : Text) × (rendered env.vips pic w ≡ some c) × (at_path env p w t ≡ some c)
  pub others :
      (w : Variant)
      → any (same_variant w) deferred ≡ true
      → is_wanted (max p.width p.height) w ≡ false
      → at_path env p w t ≡ none

module _ (env : Env) (p : Photo) (pic : Text) (d : Derived)
    (kinds : (w : Variant)
      → any (λ x. same_variant x.0 w) d.staged ≡ any (same_variant w) d.produced)
    (produced : (w : Variant)
      → any (same_variant w) d.produced
        ≡ (any (same_variant w) deferred && is_wanted (max p.width p.height) w)) where
  -- The made files lie at their paths, beside the original.
  pub record Placed (t : Store) : Type 0 where
    pub source : at_path env p original t ≡ some pic
    pub made :
        (w : Variant)
        → any (same_variant w) d.produced ≡ true
        → (c : Text) × (rendered env.vips pic w ≡ some c) × (at_path env p w t ≡ some c)

  dropped-Lies : (t u : Store) → Placed t → Drops env p d.produced deferred t u → Lies env p pic u
  unfolding any text_dec
  dropped-Lies t u h k = record {
    source = k original ∙ h.source;
    files = λ w e e'.
        let c = h.made w (ground (arith, produced w, e, e')) in
        (c.0, c.1, ground (arith, k w, produced w, c.2, e, e'));
    others = λ w e e'. ground (arith, k w, produced w, e, e');
  }

  commits-Placed :
      (s t : Store)
      → Held env.vips pic s d.staged
      → at_path env p original s ≡ some pic
      → Holds env p pic d.staged s t
      → Placed t
  unfolding any text_dec
  commits-Placed s t held source k = record {
    source = ground (arith, k original, kinds original, produced original, source);
    made = λ w e.
        let c = Held-made env.vips pic w s d.staged held (ground (arith, kinds w, e)) in
        (c.0, c.1, ground (arith, k w, kinds w, c.1, e));
  }

  pub commit_all-Placed :
      Yields
        (λ t. Held env.vips pic t d.staged × (at_path env p original t ≡ some pic))
        (commit_all env p d.staged)
        (λ u t. Placed t)
  commit_all-Placed = record {
    at = λ t h.
        OkThen-weaken (commit_all env p d.staged t).0 (commit_all env p d.staged t).1
          (λ a u k. commits-Placed t u h.0 h.1 k) (commit_all-Holds env p pic d.staged t h.0);
  }

  pub drop_others-Lies :
      Yields Placed (drop_others env p d.produced deferred) (λ u t. Lies env p pic t)
  drop_others-Lies = record {
    at = λ t h.
        OkThen-weaken (drop_others env p d.produced deferred t).0
          (drop_others env p d.produced deferred t).1 (λ a u k. dropped-Lies t u h k)
          (drop_others-Drops env p d.produced deferred t);
  }
