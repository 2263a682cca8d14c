-- ===== src/Api/Visitor/Download/Enough.antt =====
-- The fuel of the loop of `uniqueZipName` is enough.
use mathlib.Core.List.{append_assoc, append_cancel_left, append_cancel_right, tail-eq_of_cons-eq}
use photogallery.Prelude.{
  ℕ, zero, suc, ◌+◌, ◌/◌, ◌%◌, ◌<◌, ◌≤◌, ◌≡◌, ◌≢◌, refl, ap, sym, ◌∙◌, Bool, true, false, not,
  Option, none, some, [], ◌∷◌, ◌++◌, arith, ltb, eqb, filter, length, length-filter-le, Bool-cases,
  inl, inr,
}
use photogallery.Prelude.Decimal.{decimal, decimal_on, decimal-inj}
use photogallery.Prelude.Text.{Text, ◌==◌}
use photogallery.Api.Visitor.Download.{
  Seen, count, extension, without_extension, candidate, or_photo, find_free, unique_zip_name,
}

abbrev has_name : Option (Text × Seen) → Bool
has_name none = false
has_name (some r) = true

abbrev without : Text → Seen → Seen
without key seen = filter (λ e. not (e.0 == key)) seen

count-without : (key k : Text) (seen : Seen) → k ≢ key → count k (without key seen) ≡ count k seen
unfolding count filter
count-without key k [] n = refl
count-without key k (e ∷ seen) n = ground (arith, n, count-without key k seen n)

length-without-lt :
    (key : Text) (seen : Seen)
    → eqb (count key seen) 0 ≡ false
    → length (without key seen) < length seen
unfolding count filter
length-without-lt key [] h = absurd (ground (arith, h))
length-without-lt key (e ∷ seen) h =
    ground (arith, h, length-without-lt key seen, length-filter-le (λ e. not (e.0 == key)) seen)

module _ (lower : Text → Text)
    (keeps_dash : (s t : Text) → lower (s ++ b'-' ∷ t) ≡ lower s ++ b'-' ∷ lower t)
    (keeps_digit : (d : ℕ) (t : Text) → d < 10 → lower ((48 + d) ∷ t) ≡ (48 + d) ∷ lower t) where
  lower-decimal_on :
      (k n : ℕ) (ext : Text) → lower (decimal_on k n ++ ext) ≡ decimal_on k n ++ lower ext
  unfolding decimal_on
  lower-decimal_on zero n ext = refl
  lower-decimal_on (suc k) n ext = elim (Bool-cases (ltb n 10)) [
    | inl e ↦ rw e (keeps_digit n ext (ground (arith, e)))
    | inr e ↦
        rw
          (
            e,
            append_assoc (decimal_on k (n / 10)) ((48 + n % 10) ∷ []) ext,
            append_assoc (decimal_on k (n / 10)) ((48 + n % 10) ∷ []) (lower ext),
          )
          (lower-decimal_on k (n / 10) ((48 + n % 10) ∷ ext)
            ∙ ap (λ t. decimal_on k (n / 10) ++ t) (keeps_digit (n % 10) ext (omega arith)))
  ]

  lower-candidate :
      (base ext : Text) (i : ℕ)
      → lower (candidate base ext i) ≡ lower base ++ (b'-' ∷ (decimal i ++ lower ext))
  unfolding decimal
  lower-candidate base ext i =
      keeps_dash base (decimal i ++ ext)
      ∙ ap (λ t. lower base ++ b'-' ∷ t) (lower-decimal_on (i + 1) i ext)

  -- The candidates of different numbers do not clash.
  candidate-inj :
      (base ext : Text) (i j : ℕ)
      → lower (candidate base ext i) ≡ lower (candidate base ext j)
      → i ≡ j
  candidate-inj base ext i j e = decimal-inj i j (
      append_cancel_right (decimal i) (decimal j) (lower ext) (
        tail-eq_of_cons-eq (
          append_cancel_left (lower base) _ _
            (sym (lower-candidate base ext i) ∙ (e ∙ lower-candidate base ext j)))))

  has_name-cong :
      (fuel : ℕ) (base ext : Text) (i : ℕ) (seen seen' : Seen)
      → ((j : ℕ)
          → i ≤ j
          → count (lower (candidate base ext j)) seen' ≡ count (lower (candidate base ext j)) seen)
      → has_name (find_free lower fuel base ext i seen')
        ≡ has_name (find_free lower fuel base ext i seen)
  unfolding find_free
  has_name-cong zero base ext i seen seen' k = refl
  has_name-cong (suc fuel) base ext i seen seen' k =
      elim (Bool-cases (eqb (count (lower (candidate base ext i)) seen) 0)) [
        | inl e ↦ rw (k i (omega arith), e) refl
        | inr e ↦
            rw (k i (omega arith), e)
              (has_name-cong fuel base ext (i + 1) seen seen' (λ j h. k j (omega (arith, h))))
      ]

  find_free-has_name :
      (fuel : ℕ) (base ext : Text) (i : ℕ) (seen : Seen)
      → length seen < fuel
      → has_name (find_free lower fuel base ext i seen) ≡ true
  unfolding find_free
  find_free-has_name zero base ext i seen h = absurd (omega (arith, h))
  find_free-has_name (suc fuel) base ext i seen h =
      elim (Bool-cases (eqb (count (lower (candidate base ext i)) seen) 0)) [
        | inl e ↦ rw e refl
        | inr e ↦ rw e (
            sym (
              has_name-cong fuel base ext (i + 1) seen (without (lower (candidate base ext i)) seen)
                (λ j above.
                  count-without (lower (candidate base ext i)) (lower (candidate base ext j)) seen
                    (λ same. absurd (omega (arith, above, candidate-inj base ext j i same)))))
            ∙ find_free-has_name fuel base ext (i + 1) (without (lower (candidate base ext i)) seen)
                (omega (arith, h, length-without-lt (lower (candidate base ext i)) seen e)))
      ]

  has_name-some : (o : Option (Text × Seen)) → has_name o ≡ true → (r : Text × Seen) × (o ≡ some r)
  has_name-some none h = absurd (ground (arith, h))
  has_name-some (some r) h = (r, refl)

  -- When lowering leaves a dash and the digits as they are, and what stands around a dash or after a
  -- digit is lowered by itself, `uniqueZipName` finds a name for every file, whatever names it has
  -- seen: its fuel is enough.
  pub unique_zip_name-returns :
      (seen : Seen) (asked : Text) → (r : Text × Seen) × (unique_zip_name lower seen asked ≡ some r)
  unfolding unique_zip_name
  unique_zip_name-returns seen asked =
      has_name-some (unique_zip_name lower seen asked)
        elim (Bool-cases (eqb (count (lower (or_photo asked)) seen) 0)) [
          | inl e ↦ rw e refl
          | inr e ↦ rw e (
              find_free-has_name (suc (length seen) + 1) (without_extension (or_photo asked))
                (extension (or_photo asked)) (count (lower (or_photo asked)) seen + 1)
                ((lower (or_photo asked), count (lower (or_photo asked)) seen + 1) ∷ seen)
                (omega arith))
        ]
