-- ===== src/Oracle/Filter.antt =====
-- The outlier filter of src/services/oracle-aggregation.ts.
use stellar_kraal_backend.Prelude.{
  Bool-cases, length, count, filter, ◌%◌, ◌≤◌, ◌<◌, ◌≡◌, refl, inl, inr, Bool, true, false, not,
  ◌&&◌, some, List, [], ◌∷◌, arith,
}
use stellar_kraal_backend.Number.{Arith, Laws, whole}
use stellar_kraal_backend.Oracle.{
  is_outlier, reject_outliers, validate_quality, deviation_pct, median,
}
use stellar_kraal_backend.Oracle.Median.{median_odd, median_defined}

count-filter-le {ℓ} :
    {A : Type ℓ} (p q r : A → Bool)
    → ((a : A) → p a ≡ true → q a ≡ true)
    → (xs : List A) → count r (filter p xs) ≤ count r (filter q xs)
count-filter-le p q r h [] = omega arith
count-filter-le p q r h (x ∷ xs) = ground (arith, h x, count-filter-le p q r h xs)

count-filter {ℓ} :
    {A : Type ℓ} (test keep : A → Bool) (xs : List A)
    → count test (filter keep xs) ≡ count (λ x. keep x && test x) xs
count-filter test keep [] = refl
count-filter test keep (x ∷ xs) = ground (arith, count-filter test keep xs)

module _ {A : Type 0} ⦃n : Arith A⦄ (laws : Laws n) where
  -- A value that passes under a threshold passes under every larger one.
  validate_quality_mono :
      (v ref strict loose : A)
      → n.le strict loose ≡ true
      → validate_quality v ref strict ≡ true
      → validate_quality v ref loose ≡ true
  unfolding validate_quality
  validate_quality_mono v ref strict loose h k =
      let d = deviation_pct v ref in
      ground (arith, laws.lt_not_le strict d, laws.lt_not_le loose d, laws.le_trans d strict loose)

  -- `rejectOutliers` never throws, and a looser threshold keeps all that a stricter one keeps: no
  -- test holds of more of the values kept by the stricter one.
  pub reject_outliers_mono :
      (values : List A) (strict loose : A)
      → n.le strict loose ≡ true
      → (kept : List A) × (more : List A) × (reject_outliers values strict ≡ some kept)
        × (reject_outliers values loose ≡ some more)
        × ((test : A → Bool) → count test kept ≤ count test more)
  unfolding reject_outliers validate_quality
  reject_outliers_mono [] strict loose h = ([], [], refl, refl, λ test. omega arith)
  reject_outliers_mono (v ∷ vs) strict loose h =
      let (p, e) = median_defined v vs in
      (
        filter (λ w. not (is_outlier w p strict)) (v ∷ vs),
        filter (λ w. not (is_outlier w p loose)) (v ∷ vs),
        rw e,
        rw e,
        λ test.
            count-filter-le (λ w. validate_quality w p strict) (λ w. validate_quality w p loose)
              test (λ w. validate_quality_mono w p strict loose h) (v ∷ vs),
      )

  deviation_self : (v : A) → n.eq v (n.hundredths 0) ≡ false → deviation_pct v v ≡ n.hundredths 0
  deviation_self v nz =
      cc (laws.sub_self v, laws.abs_zero, laws.zero_div v nz, laws.zero_mul (whole 100))

  -- The median itself is never an outlier.
  pub is_outlier_self : (v d : A) → n.le (n.hundredths 0) d ≡ true → is_outlier v v d ≡ false
  unfolding is_outlier
  is_outlier_self v d h = elim (Bool-cases (n.eq v (n.hundredths 0))) [
    | inl z ↦ rw z
    | inr nz ↦ rw (nz, deviation_self v nz) (ground (arith, laws.lt_not_le d (n.hundredths 0)))
  ]

  -- Of an odd number of values the filter keeps the median: it returns a list, and a test that the
  -- median passes holds of some value that is kept. The threshold is at least 0.
  pub reject_outliers-median :
      (values : List A) (d : A)
      → length values % 2 ≡ 1
      → n.le (n.hundredths 0) d ≡ true
      → (p : A) × (kept : List A) × (median values ≡ some p)
        × (reject_outliers values d ≡ some kept)
        × ((test : A → Bool) → test p ≡ true → 0 < count test kept)
  unfolding reject_outliers
  reject_outliers-median [] d h nonneg = absurd (omega arith)
  reject_outliers-median (v ∷ vs) d h nonneg =
      let (p, e, among) = median_odd (v ∷ vs) h in
      let keep : A → Bool = λ w. not (is_outlier w p d) in
      (
        p,
        filter keep (v ∷ vs),
        e,
        rw e,
        λ test t.
            rw (count-filter test keep (v ∷ vs))
              (among (λ w. keep w && test w) (rw (is_outlier_self p d nonneg) t)),
      )
