-- ===== src/Appraisal/Shipped.antt =====
-- The oracles as shipped: the internal table answers and the market feed does not.
use stellar_kraal_backend.Prelude.{
  String, ◌≡◌, refl, ap, ◌∙◌, true, false, none, some, List, [], ◌∷◌,
}
use stellar_kraal_backend.Number.{Arith, whole, Laws}
use stellar_kraal_backend.Oracle.{median, reject_outliers, is_outlier, keep_near}
use stellar_kraal_backend.Appraisal.{
  LivestockMetadata, no_median, thrown, OracleAdapter, table_price, responding, aggregated,
  appraised, appraise_livestock, ok, oracles, valuation, AnimalType, median_of,
  aggregated_price_per_kg,
}
use stellar_kraal_backend.Oracle.Filter.{is_outlier_self}

module _ {A : Type 0} ⦃n : Arith A⦄ where
  open n use {hundredths, le, lt, to_fixed2, div, add}

  -- One price is its own median.
  median_one : (p : A) → median (p ∷ []) ≡ some p
  unfolding median
  median_one p = refl

  median_two : (p q : A) → le p q ≡ true → median (p ∷ q ∷ []) ≡ some (div (add p q) (whole 2))
  unfolding median
  median_two p q order = rw order

  reject_two :
      (p q d : A) → reject_outliers (p ∷ q ∷ []) d ≡ keep_near (p ∷ q ∷ []) d (median (p ∷ q ∷ []))
  unfolding reject_outliers
  reject_two p q d = refl

  two_apart :
      (p q d fallback : A)
      → le p q ≡ true
      → is_outlier p (div (add p q) (whole 2)) d ≡ true
      → is_outlier q (div (add p q) (whole 2)) d ≡ true
      → aggregated fallback d (p ∷ q ∷ []) ≡ none
  unfolding median
  two_apart p q d fallback order out_p out_q =
      rw (reject_two p q d) (rw (median_two p q order) (rw (out_p, out_q)))

  -- Two responding oracles that both deviate from their average by more than the threshold are
  -- both rejected; the median of nothing is taken, and the appraisal throws.
  pub appraise_two_apart :
      (to_lower : String → String) (os : List (OracleAdapter A)) (d : A) (m : LivestockMetadata A)
      (p q : A)
      → responding os m.type m.breed ≡ p ∷ q ∷ []
      → le p q ≡ true
      → is_outlier p (div (add p q) (whole 2)) d ≡ true
      → is_outlier q (div (add p q) (whole 2)) d ≡ true
      → le m.weight_kg (whole 0) ≡ false
      → lt m.age_months (whole 0) ≡ false
      → appraise_livestock to_lower os d m ≡ thrown no_median
  unfolding appraise_livestock
  appraise_two_apart to_lower os d m p q both order out_p out_q heavy born =
      rw (heavy, born, both)
        (ap (appraised os m)
          (two_apart p q d (table_price to_lower m.type m.breed) order out_p out_q))

module _ {A : Type 0} ⦃n : Arith A⦄ (laws : Laws n) where
  reject_one :
      (p d : A) → n.le (n.hundredths 0) d ≡ true → reject_outliers (p ∷ []) d ≡ some (p ∷ [])
  unfolding reject_outliers
  reject_one p d h = rw (is_outlier_self laws p d h)

  price_shipped :
      (to_lower : String → String) (d : A) (t : AnimalType) (breed : String)
      → n.le (n.hundredths 0) d ≡ true
      → aggregated_price_per_kg to_lower (oracles to_lower) d t breed
        ≡ some (table_price to_lower t breed)
  unfolding aggregated_price_per_kg oracles
  price_shipped to_lower d t breed h =
      ap median_of (reject_one (table_price to_lower t breed) d h)
      ∙ median_one (table_price to_lower t breed)

  -- As shipped, and with a threshold of at least 0, an appraisal of an animal that passes the input
  -- checks succeeds: it is the valuation at the price of the internal table, and one oracle of two
  -- has responded.
  pub appraise_shipped :
      (to_lower : String → String) (d : A) (m : LivestockMetadata A)
      → n.le (n.hundredths 0) d ≡ true
      → n.le m.weight_kg (whole 0) ≡ false
      → n.lt m.age_months (whole 0) ≡ false
      → (appraise_livestock to_lower (oracles to_lower) d m
          ≡ ok (valuation (oracles to_lower) m (table_price to_lower m.type m.breed)))
        × ((valuation (oracles to_lower) m (table_price to_lower m.type m.breed)).confidence
            ≡ n.to_fixed2 (n.div (whole 1) (whole 2)))
  unfolding appraise_livestock oracles valuation
  appraise_shipped to_lower d m h heavy born = (
    rw (heavy, born)
        (ap (appraised (oracles to_lower) m) (price_shipped to_lower d m.type m.breed h)),
    refl,
  )
