-- ===== src/Api/Variants/Commits.antt =====
-- What lies at the paths of a photo after the loops of `generate` that commit the staged files and
-- drop the other variants.
use photogallery.Prelude.{
  ℕ, ◌≡◌, refl, Bool, ◌&&◌, not, Option, none, some, List, [], ◌∷◌, arith, any, if◌then◌else◌,
  Bool-cases, inl, inr,
}
use photogallery.Prelude.Text.{Text}
use photogallery.Exec.{skip}
use photogallery.Exec.Yields.{OkThen, Yields, Yields-bind, Yields-if, Yields-pure, OkThen-weaken}
use photogallery.Db.{Photo}
use photogallery.Storage.{Variant, same_variant, Store, contents_at, remove}
use photogallery.Storage.Staging.{staged_contents, commit}
use photogallery.Storage.Staging.Laws.{Same, Same-refl, same_variant-eq}
use photogallery.Storage.Staging.Commits.{IsCommitted, commit-IsCommitted, remove-IsRemoved}
use photogallery.Image.Held.{rendered, Held, Held-later}
use photogallery.Api.{Env}
use photogallery.Api.Variants.{commit_all, drop_others}

abbrev pub is_among : List (Variant × ℕ) → Variant → Bool
is_among staged w = any (λ x. same_variant x.0 w) staged

same_variant-sym : (v w : Variant) → same_variant w v ≡ same_variant v w
same_variant-sym v w = ground (arith, same_variant-eq w v, same_variant-eq v w)

module _ (env : Env) (p : Photo) where
  abbrev pub at_path : Variant → Store → Option Text
  at_path w t = contents_at p.album_id p.id w t

  module _ (pic : Text) where
    abbrev pub Holds : List (Variant × ℕ) → Store → Store → Type 0
    Holds staged s t =
        (w : Variant)
        → at_path w t ≡ (if is_among staged w then rendered env.vips pic w else at_path w s)

    first_Holds :
        (v : Variant) (n : ℕ) (c : Text) (rest : List (Variant × ℕ)) (s t u : Store)
        → rendered env.vips pic v ≡ some c
        → staged_contents n s ≡ some c
        → IsCommitted p.album_id p.id n v s t
        → Holds rest t u
        → Holds ((v, n) ∷ rest) s u
    unfolding any
    first_Holds v n c rest s t u e f h k w = elim (Bool-cases (same_variant v w)) [
      | inl same ↦ ground (arith, k w, h.contents w, e, f, same, same_variant-eq v w same)
      | inr other ↦ ground (arith, k w, h.contents w, other)
    ]

    -- The staged files lie at their paths then, and nothing else has changed there.
    pub commit_all-Holds :
        (staged : List (Variant × ℕ)) (s : Store)
        → Held env.vips pic s staged
        → OkThen
            (λ u t. Holds staged s t)
            (commit_all env p staged s).0
            (commit_all env p staged s).1
    unfolding commit_all any
    commit_all-Holds [] s h = λ w. refl
    commit_all-Holds ((v, n) ∷ rest) s h =
        (Yields-bind (λ u t. IsCommitted p.album_id p.id n v s t)
            (commit env.uuid_canonical n p.album_id p.id v) (λ u. commit_all env p rest)
            (commit-IsCommitted env.uuid_canonical p.album_id p.id h.0.0 n v s h.0.2)
            λ u. record {
              at = λ t c.
                  OkThen-weaken (commit_all env p rest t).0 (commit_all env p rest t).1
                    (λ u' t' k. first_Holds v n h.0.0 rest s t t' h.0.1 h.0.2 c k)
                    (commit_all-Holds rest t (
                      Held-later env.vips pic n s t rest (omega (arith, c.temps))
                        (λ m below. c.staged m (ground (arith, below))) h.2 h.3));
            }).at
          s (Same-refl s)

  module _ (produced : List Variant) where
    abbrev pub is_dropped : List Variant → Variant → Bool
    is_dropped vs w = any (same_variant w) vs && not (any (same_variant w) produced)

    abbrev pub Drops : List Variant → Store → Store → Type 0
    Drops vs s t = (w : Variant) → at_path w t ≡ (if is_dropped vs w then none else at_path w s)

    -- The same for one variant.
    abbrev DropsOne : Variant → Store → Store → Type 0
    DropsOne v s t =
        (w : Variant)
        → at_path w t
          ≡ (if same_variant v w && not (any (same_variant v) produced) then none else at_path w s)

    first_Drops :
        (v : Variant) (vs : List Variant) (s t u : Store)
        → DropsOne v s t
        → Drops vs t u
        → Drops (v ∷ vs) s u
    unfolding any
    first_Drops v vs s t u h k w = elim (Bool-cases (same_variant v w)) [
      | inl same ↦ ground (arith, k w, h w, same, same_variant-eq v w same)
      | inr other ↦ ground (arith, k w, h w, other, same_variant-sym v w)
    ]

    drop_one-DropsOne :
        (v : Variant) (s : Store)
        → Yields
            (Same s)
            (if any (same_variant v) produced
              then skip
              else remove env.uuid_canonical p.album_id p.id v)
            (λ u t. DropsOne v s t)
    unfolding contents_at
    drop_one-DropsOne v s =
        Yields-if (any (same_variant v) produced) skip (remove env.uuid_canonical p.album_id p.id v)
          (λ e. Yields-pure tt λ t h w. ground (arith, e, h.files))
          λ e. record {
            at = λ t h.
                OkThen-weaken (remove env.uuid_canonical p.album_id p.id v t).0
                  (remove env.uuid_canonical p.album_id p.id v t).1
                  (λ a u r w. ground (arith, r.contents w, e))
                  ((remove-IsRemoved env.uuid_canonical p.album_id p.id v s).at t h);
          }

    -- Nothing lies at the paths of these variants then, but for those that were made.
    pub drop_others-Drops :
        (vs : List Variant) (s : Store)
        → OkThen
            (λ u t. Drops vs s t)
            (drop_others env p produced vs s).0
            (drop_others env p produced vs s).1
    unfolding drop_others any
    drop_others-Drops [] s = λ w. refl
    drop_others-Drops (v ∷ vs) s =
        (Yields-bind (λ u t. DropsOne v s t) _ (λ u. drop_others env p produced vs)
            (drop_one-DropsOne v s)
            λ u. record {
              at = λ t c.
                  OkThen-weaken (drop_others env p produced vs t).0
                    (drop_others env p produced vs t).1 (λ u' t' k. first_Drops v vs s t t' c k)
                    (drop_others-Drops vs t);
            }).at
          s (Same-refl s)
