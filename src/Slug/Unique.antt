-- ===== src/Slug/Unique.antt =====
-- The retry loop of `withUniqueSlug`, for any `create`.
use photogallery.Prelude.{
  ℕ, zero, suc, ◌+◌, ◌≤◌, ◌≡◌, ◌≢◌, refl, ◌⊎◌, inl, inr, Bool, true, List, ◌∷◌, ◌++◌, arith,
  Option-cases,
}
use photogallery.Prelude.Text.{Text}
use photogallery.Slug.{
  Rand, dash, Created, created, slug_taken, rand_failed, failed, Outcome, slugify, valid_slug,
  slug_suffix, slug_retries, retry_slug, with_unique_slug,
}
use photogallery.Slug.Valid.{valid_slug-slugify, valid_slug-suffix}

-- The state was left by a call of `create` with the slug that was set last, a valid one, and an
-- answer other than the failure of the random source is the answer of that call.
pub record IsLastCall {E S : Type 0} (create : Text → S → Created E × S) (o : Outcome E S)
    : Type 0 where
  pub valid : valid_slug o.slug ≡ true
  pub before : S
  pub state : (create o.slug before).1 ≡ o.state
  pub result : (o.result ≡ rand_failed) ⊎ ((create o.slug before).0 ≡ o.result)

module _ {E S : Type 0} (create : Text → S → Created E × S) (P : S → Type 0)
    (keep : (slug : Text) (s : S) → valid_slug slug ≡ true → P s → P (create slug s).1)
    (nfkd : Text → List ℕ) (mark : ℕ → Bool) (name : Text) where
  abbrev Holds : Outcome E S → Type 0
  Holds o = P o.state × IsLastCall create o

  ends-Holds :
      (slug : Text) (s : S) (o : Outcome E S)
      → valid_slug slug ≡ true
      → P s
      → o.slug ≡ slug
      → o.state ≡ (create slug s).1
      → (o.result ≡ rand_failed) ⊎ ((create slug s).0 ≡ o.result)
      → Holds o
  ends-Holds slug s o v h es et er = (
    rw et (keep slug s v h),
    record { valid = rw es v; before = s; state = cc; result = rw es er },
  )

  suffixed-Holds :
      (left : ℕ) (slug : Text) (s : S) (rand : Rand)
      → valid_slug slug ≡ true
      → P s
      → (create slug s).0 ≡ slug_taken
      → ((slug' : Text) (s' : S) (rand' : Rand)
          → valid_slug slug' ≡ true
          → P s'
          → Holds (retry_slug create left (slugify nfkd mark name) slug' s' rand'))
      → Holds (retry_slug create (suc left) (slugify nfkd mark name) slug s rand)
  suffixed-Holds left slug s rand v h e again = elim (Option-cases (slug_suffix rand 4)) [
    | inl dry ↦
        unfold retry_slug in rw (e, dry, retry_slug) (ends-Holds slug s _ v h refl refl (inl refl))
    | inr ((suffix, rand'), drawn) ↦
        unfold retry_slug in
        rw (e, drawn, retry_slug)
          (again _ (create slug s).1 rand'
            (valid_slug-suffix nfkd mark name suffix rand rand' drawn) (keep slug s v h))
  ]

  retry_slug-Holds :
      (left : ℕ) (slug : Text) (s : S) (rand : Rand)
      → valid_slug slug ≡ true
      → P s
      → Holds (retry_slug create left (slugify nfkd mark name) slug s rand)
  unfolding retry_slug
  retry_slug-Holds zero slug s rand v h = ends-Holds slug s _ v h refl refl (inr refl)
  retry_slug-Holds (suc left) slug s rand v h = go (create slug s).0 refl (retry_slug-Holds left)
    where
      go :
          (r : Created E)
          → (create slug s).0 ≡ r
          → ((slug' : Text) (s' : S) (rand' : Rand)
              → valid_slug slug' ≡ true
              → P s'
              → Holds (retry_slug create left (slugify nfkd mark name) slug' s' rand'))
          → Holds (retry_slug create (suc left) (slugify nfkd mark name) slug s rand)
      go created e again = rw (e, retry_slug) (ends-Holds slug s _ v h refl refl (inr e))
      go rand_failed e again = rw (e, retry_slug) (ends-Holds slug s _ v h refl refl (inr e))
      go (failed x) e again = rw (e, retry_slug) (ends-Holds slug s _ v h refl refl (inr e))
      go slug_taken e again = suffixed-Holds left slug s rand v h e again

  -- Where every call of `create` with a valid slug keeps P, so does `withUniqueSlug`: it calls
  -- `create` with valid slugs only, the slug that it leaves set is valid and is the one of the last
  -- call, and its answer is the answer of that call unless the random source fails.
  pub with_unique_slug-Keeps :
      (rand : Rand) (s : S)
      → P s
      → P (with_unique_slug create nfkd mark rand name s).state
        × IsLastCall create (with_unique_slug create nfkd mark rand name s)
  unfolding with_unique_slug
  with_unique_slug-Keeps rand s h =
      retry_slug-Holds slug_retries (slugify nfkd mark name) s rand
        (valid_slug-slugify nfkd mark name).0 h

-- `create` beside a counter of its calls.
abbrev pub counted :
    {E S : Type 0} → (Text → S → Created E × S) → Text → S × ℕ → Created E × (S × ℕ)
counted create slug (s, calls) = let (r, s') = create slug s in (r, (s', calls + 1))

module _ {E S : Type 0} (create : Text → S → Created E × S) where
  abbrev pub CallsWithin : ℕ → Outcome E (S × ℕ) → Type 0
  CallsWithin most o = (o.state.1 ≤ most) × ((o.result ≢ slug_taken) ⊎ (o.state.1 ≡ most))

  retry_slug-Calls :
      (left : ℕ) (base slug : Text) (s : S) (calls : ℕ) (rand : Rand)
      → CallsWithin (calls + left + 1) (retry_slug (counted create) left base slug (s, calls) rand)
  unfolding retry_slug
  retry_slug-Calls zero base slug s calls rand = (omega arith, inr (omega arith))
  retry_slug-Calls (suc left) base slug s calls rand =
      go (create slug s).0 refl (retry_slug-Calls left)
    where
      go :
          (r : Created E)
          → (create slug s).0 ≡ r
          → ((base slug : Text) (s : S) (calls : ℕ) (rand : Rand)
              → CallsWithin
                  (calls + left + 1)
                  (retry_slug (counted create) left base slug (s, calls) rand))
          → CallsWithin
              (calls + suc left + 1)
              (retry_slug (counted create) (suc left) base slug (s, calls) rand)
      go created e again = rw (e, retry_slug) (omega arith, inl (λ x. cc))
      go rand_failed e again = rw (e, retry_slug) (omega arith, inl (λ x. cc))
      go (failed x) e again = rw (e, retry_slug) (omega arith, inl (λ x. cc))
      go slug_taken e again = elim (Option-cases (slug_suffix rand 4)) [
        | inl dry ↦ rw (e, dry, retry_slug) (omega arith, inl (λ x. cc))
        | inr ((suffix, rand'), drawn) ↦
            let (most, all) =
              again base (base ++ (dash ∷ suffix)) (create slug s).1 (calls + 1) rand' in
            rw (e, drawn, retry_slug) (omega arith, ground arith)
      ]

  -- `withUniqueSlug` returns after at most eleven calls of `create`, and the answer that the slug
  -- is taken comes back only after the eleventh.
  pub with_unique_slug-Calls :
      (nfkd : Text → List ℕ) (mark : ℕ → Bool) (name : Text) (rand : Rand) (s : S)
      → CallsWithin 11 (with_unique_slug (counted create) nfkd mark rand name (s, 0))
  unfolding with_unique_slug
  with_unique_slug-Calls nfkd mark name rand s =
      retry_slug-Calls slug_retries (slugify nfkd mark name) (slugify nfkd mark name) s 0 rand
