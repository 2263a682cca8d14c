-- ===== src/Api/Visitor/Download/Names.antt =====
-- The names that `uniqueZipName` returns, one after the other.
use photogallery.Prelude.{
  ℕ, zero, suc, ◌+◌, ◌≡◌, refl, ap, Bool, true, false, not, Option, none, some, List, [], ◌∷◌, ◌++◌,
  arith, eqb, any, all, distinct, distinct-append_one, all-append_one, all_mono, Bool-cases, inl,
  inr, length,
}
use photogallery.Prelude.Text.{Text, text_dec, ◌==◌}
use photogallery.Api.Visitor.Download.{
  Seen, count, extension, without_extension, candidate, or_photo, find_free, unique_zip_name,
}

module _ (lower : Text → Text) where
  -- A name that is new to `before`, and known to `after` beside the names that were.
  pub record IsNew (before : Seen) (name : Text) (after : Seen) : Type 0 where
    pub is_new : count (lower name) before ≡ 0
    pub is_known : eqb (count (lower name) after) 0 ≡ false
    pub keeps : (key : Text) → eqb (count key before) 0 ≡ false → eqb (count key after) 0 ≡ false

  abbrev pub IfNamed : Seen → Option (Text × Seen) → Type 0
  IfNamed before none = Unit
  IfNamed before (some r) = IsNew before r.0 r.1

  counted-IsNew :
      (before : Seen) (name : Text) (n : ℕ)
      → count (lower name) before ≡ 0
      → IsNew before name ((lower name, n + 1) ∷ before)
  unfolding count
  counted-IsNew before name n e = record {
    is_new = e;
    is_known = ground arith;
    keeps = λ key k. ground (arith, k);
  }

  find_free-IsNew :
      (fuel : ℕ) (base ext : Text) (i : ℕ) (seen : Seen)
      → IfNamed seen (find_free lower fuel base ext i seen)
  unfolding find_free
  find_free-IsNew zero base ext i seen = tt
  find_free-IsNew (suc fuel) base ext i seen =
      elim (Bool-cases (eqb (count (lower (candidate base ext i)) seen) 0)) [
        | inl e ↦ rw e (counted-IsNew seen (candidate base ext i) 0 (ground (arith, e)))
        | inr e ↦ rw e (find_free-IsNew fuel base ext (i + 1) seen)
      ]

  -- What is new beside a name that was counted once more.
  above-IsNew :
      (before : Seen) (key name : Text) (n : ℕ) (after : Seen)
      → IsNew ((key, n + 1) ∷ before) name after
      → IsNew before name after
  unfolding count
  above-IsNew before key name n after h = record {
    is_new = ground (arith, h.is_new);
    is_known = h.is_known;
    keeps = λ k e. h.keeps k (ground (arith, e));
  }

  above-IfNamed :
      (before : Seen) (key : Text) (n : ℕ) (o : Option (Text × Seen))
      → IfNamed ((key, n + 1) ∷ before) o
      → IfNamed before o
  above-IfNamed before key n none h = tt
  above-IfNamed before key n (some r) h = above-IsNew before key r.0 n r.1 h

  pub unique_zip_name-IsNew :
      (seen : Seen) (asked : Text) → IfNamed seen (unique_zip_name lower seen asked)
  unfolding unique_zip_name
  unique_zip_name-IsNew seen asked =
      elim (Bool-cases (eqb (count (lower (or_photo asked)) seen) 0)) [
        | inl e ↦ rw e (
            counted-IsNew seen (or_photo asked) (count (lower (or_photo asked)) seen)
              (ground (arith, e)))
        | inr e ↦ rw e (
            above-IfNamed seen (lower (or_photo asked)) (count (lower (or_photo asked)) seen) _ (
              find_free-IsNew (suc (length seen) + 1) (without_extension (or_photo asked))
                (extension (or_photo asked)) (count (lower (or_photo asked)) seen + 1)
                ((lower (or_photo asked), count (lower (or_photo asked)) seen + 1) ∷ seen)))
      ]

  abbrev pub same_name : (Text × Text) → (Text × Text) → Bool
  same_name a b = lower a.0 == lower b.0

  -- The entries have distinct names, which are all known.
  pub record AreNamed (seen : Seen) (entries : List (Text × Text)) : Type 0 where
    pub are_distinct : distinct same_name entries ≡ true
    pub are_known : all (λ e. not (eqb (count (lower e.0) seen) 0)) entries ≡ true

  no_clash :
      (name contents : Text) (seen : Seen) (entries : List (Text × Text))
      → count (lower name) seen ≡ 0
      → all (λ e. not (eqb (count (lower e.0) seen) 0)) entries ≡ true
      → any (same_name (name, contents)) entries ≡ false
  unfolding any all
  no_clash name contents seen [] e k = refl
  no_clash name contents seen (x ∷ xs) e k = elim (text_dec (lower name) (lower x.0)) [
    | yes same ↦ absurd (ground (arith, e, k, ap (λ t. count t seen) same))
    | no other ↦ ground (arith, other, k, no_clash name contents seen xs e)
  ]

  pub grown-AreNamed :
      (before after : Seen) (name contents : Text) (entries : List (Text × Text))
      → IsNew before name after
      → AreNamed before entries
      → AreNamed after (entries ++ (name, contents) ∷ [])
  grown-AreNamed before after name contents entries n h = record {
    are_distinct =
        distinct-append_one same_name (name, contents) entries (λ x y. ground arith) h.are_distinct
          (no_clash name contents before entries n.is_new h.are_known);
    are_known =
        all-append_one (λ e. not (eqb (count (lower e.0) after) 0)) (name, contents) entries
          (all_mono (λ e. not (eqb (count (lower e.0) before) 0))
            (λ e. not (eqb (count (lower e.0) after) 0)) entries
            (λ e k. ground (arith, k, n.keeps (lower e.0))) h.are_known)
          (ground (arith, n.is_known));
  }
