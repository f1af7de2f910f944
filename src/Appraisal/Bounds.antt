-- ===== src/Appraisal/Bounds.antt =====
-- What bounds an appraisal: its prices, its multipliers and the loan-to-value haircut.
use stellar_kraal_backend.Prelude.{
  Option-cases, length, count, filter, All, ℕ, ◌≤◌, String, ◌≡◌, refl, inl, inr, Bool, true, false,
  not, some, List, [], ◌∷◌, arith,
}
use stellar_kraal_backend.Number.{Arith, Laws}
use stellar_kraal_backend.Oracle.{median, is_outlier, reject_outliers}
use stellar_kraal_backend.Oracle.Median.{within, median-within, median_defined}
use stellar_kraal_backend.Appraisal.{
  AnimalType, HealthStatus, health_multiplier, ltv_ratio, age_multiplier, LivestockMetadata,
  AppraisalResult, ok, OracleAdapter, table_price, responding, aggregated, aggregated_price_per_kg,
  valuation, appraise_livestock,
}

module _ {A : Type 0} ⦃n : Arith A⦄ (laws : Laws n) where
  open n use {hundredths, mul, le, lt}

  -- A factor from 0 to 1.
  abbrev IsFraction : A → Type 0
  IsFraction r = (le (hundredths 0) r ≡ true) × (le r (hundredths 100) ≡ true)

  fraction : (k : ℕ) → k ≤ 100 → IsFraction (hundredths k)
  fraction k h = (laws.hundredths_mono 0 k (omega arith), laws.hundredths_mono k 100 h)

  age_multiplier-IsFraction : (t : AnimalType) (age : A) → IsFraction (age_multiplier t age)
  unfolding age_multiplier
  age_multiplier-IsFraction t age =
      ground (arith, fraction 60, fraction 80, fraction 100, fraction 85, fraction 65)

  health_multiplier-le : (h : HealthStatus) → health_multiplier h ≤ 100
  unfolding health_multiplier
  health_multiplier-le h = ground arith

  ltv_ratio-le : (h : HealthStatus) → ltv_ratio h ≤ 100
  unfolding ltv_ratio
  ltv_ratio-le h = ground arith

  -- With every price in a range, what the filter leaves has its median there too.
  count-within-filter :
      (lo hi : A) (keep : A → Bool) (xs : List A)
      → All (λ x. within lo hi x ≡ true) xs
      → count (within lo hi) (filter keep xs) ≡ length (filter keep xs)
  count-within-filter lo hi keep [] h = refl
  count-within-filter lo hi keep (x ∷ xs) (e, h) =
      ground (arith, count-within-filter lo hi keep xs h)

  median-within_all :
      (lo hi : A) (xs : List A) (p : A)
      → count (within lo hi) xs ≡ length xs
      → median xs ≡ some p
      → within lo hi p ≡ true
  unfolding median
  median-within_all lo hi [] p h e = cc
  median-within_all lo hi (x ∷ xs) p h e =
      let (q, f, inside) = median-within laws lo hi (x ∷ xs) (omega arith) in
      let same : q ≡ p = cc in rw (← same) inside

  aggregated-within :
      (lo hi fallback d : A) (ps : List A) (p : A)
      → within lo hi fallback ≡ true
      → All (λ x. within lo hi x ≡ true) ps
      → aggregated fallback d ps ≡ some p
      → within lo hi p ≡ true
  unfolding reject_outliers
  aggregated-within lo hi fallback d [] p f h e = let same : fallback ≡ p = cc in rw (← same) f
  aggregated-within lo hi fallback d (x ∷ xs) p f h e =
      let (ref, k) = median_defined x xs in
      let keep : A → Bool = λ v. not (is_outlier v ref d) in
      median-within_all lo hi (filter keep (x ∷ xs)) p (count-within-filter lo hi keep (x ∷ xs) h)
        (rw k at e)

  -- The aggregated price per kilogram lies in every range that holds the table price and the price
  -- of each oracle that responds, whichever of them are rejected as outliers.
  pub aggregated_price-within :
      (to_lower : String → String) (os : List (OracleAdapter A)) (d lo hi : A) (t : AnimalType)
      (breed : String) (p : A)
      → within lo hi (table_price to_lower t breed) ≡ true
      → All (λ x. within lo hi x ≡ true) (responding os t breed)
      → aggregated_price_per_kg to_lower os d t breed ≡ some p
      → within lo hi p ≡ true
  unfolding aggregated_price_per_kg
  aggregated_price-within to_lower os d lo hi t breed p f h e =
      aggregated-within lo hi (table_price to_lower t breed) d (responding os t breed) p f h e

  -- The market value is at most the gross price, and the collateral value at most the market value.
  valuation_bounds :
      (os : List (OracleAdapter A)) (m : LivestockMetadata A) (p : A)
      → le (hundredths 0) (mul p m.weight_kg) ≡ true
      → let r = valuation os m p in
        (le r.market_value r.breakdown.base_price ≡ true)
        × (le r.collateral_value r.market_value ≡ true)
        × (le (hundredths 0) r.collateral_value ≡ true)
  unfolding valuation
  valuation_bounds os m p h =
      let base = mul p m.weight_kg in
      let age = age_multiplier m.type m.age_months in
      let health = hundredths (health_multiplier m.health_status) in
      let ltv = hundredths (ltv_ratio m.health_status) in
      let (age_lo, age_hi) = age_multiplier-IsFraction m.type m.age_months in
      let (h_lo, h_hi) = fraction _ (health_multiplier-le m.health_status) in
      let (l_lo, l_hi) = fraction _ (ltv_ratio-le m.health_status) in
      let (pos₁, le₁) = laws.mul_shrinks base age h age_lo age_hi in
      let (pos₂, le₂) = laws.mul_shrinks (mul base age) health pos₁ h_lo h_hi in
      let gross = mul (mul base age) health in
      let zero_fixed = laws.to_fixed2_hundredths 0 in
      let market_pos : le (hundredths 0) (n.to_fixed2 gross) ≡ true =
        rw zero_fixed at (laws.to_fixed2_mono (hundredths 0) gross pos₂) in
      let (pos₃, le₃) = laws.mul_shrinks (n.to_fixed2 gross) ltv market_pos l_lo l_hi in
      (
        laws.to_fixed2_mono gross base (laws.le_trans gross (mul base age) base le₂ le₁),
        rw (laws.to_fixed2_idem gross) at (laws.to_fixed2_mono _ (n.to_fixed2 gross) le₃),
        rw zero_fixed at (laws.to_fixed2_mono (hundredths 0) _ pos₃),
      )

  appraise-eq-ok :
      (to_lower : String → String) (os : List (OracleAdapter A)) (d : A) (m : LivestockMetadata A)
      (r : AppraisalResult A)
      → appraise_livestock to_lower os d m ≡ ok r
      → (le m.weight_kg (hundredths 0) ≡ false)
        × (lt m.age_months (hundredths 0) ≡ false)
        × ((p : A) × (aggregated_price_per_kg to_lower os d m.type m.breed ≡ some p)
            × (valuation os m p ≡ r))
  unfolding appraise_livestock
  appraise-eq-ok to_lower os d m r e =
      elim (Option-cases (aggregated_price_per_kg to_lower os d m.type m.breed)) [
        | inl none_left ↦ ground arith
        | inr (p, k) ↦ (ground arith, ground arith, (p, k, ground arith))
      ]

  -- A successful appraisal passed the two input checks. Where the table price and the price of
  -- every responding oracle lie between some `lo ≥ 0` and `hi`, the collateral value, at least 0,
  -- is at most the market value, which is at most the gross price of the animal.
  pub appraise_bounds :
      (to_lower : String → String) (os : List (OracleAdapter A)) (d lo hi : A)
      (m : LivestockMetadata A) (r : AppraisalResult A)
      → le (hundredths 0) lo ≡ true
      → within lo hi (table_price to_lower m.type m.breed) ≡ true
      → All (λ x. within lo hi x ≡ true) (responding os m.type m.breed)
      → appraise_livestock to_lower os d m ≡ ok r
      → (le m.weight_kg (hundredths 0) ≡ false)
        × (lt m.age_months (hundredths 0) ≡ false)
        × (le r.market_value r.breakdown.base_price ≡ true)
        × (le r.collateral_value r.market_value ≡ true)
        × (le (hundredths 0) r.collateral_value ≡ true)
  appraise_bounds to_lower os d lo hi m r pos f h e =
      let (heavy, born, (p, k, same)) = appraise-eq-ok to_lower os d m r e in
      let inside = aggregated_price-within to_lower os d lo hi m.type m.breed p f h k in
      let p_pos : le (hundredths 0) p ≡ true =
        ground (arith, laws.le_trans (hundredths 0) lo p pos) in
      let w_pos : le (hundredths 0) m.weight_kg ≡ true =
        ground (arith, laws.le_total m.weight_kg (hundredths 0)) in
      let (a, b, c) = valuation_bounds os m p (laws.mul_nonneg p m.weight_kg p_pos w_pos) in
      rw (← same) (heavy, born, a, b, c)
