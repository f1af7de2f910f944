-- ===== src/Tests/Appraisal.antt =====
-- Appraisals of concrete animals.
use stellar_kraal_backend.Prelude.{ltb, leb, ℕ, String, ◌≡◌, refl, true, false, some, [], ◌∷◌}
use stellar_kraal_backend.Number.Cents.{cents, cents-Laws}
use stellar_kraal_backend.Oracle.{is_outlier, reject_outliers}
use stellar_kraal_backend.Appraisal.{
  cattle, good, LivestockMetadata, AppraisalResult, oracles, responding, table_price, valuation,
  appraise_livestock, aggregated_price_per_kg, base_price_per_kg, premium_of, age_multiplier,
  health_multiplier, ltv_ratio, no_median, ok, thrown, fulfilled, OracleAdapter, internal_oracle,
}
use stellar_kraal_backend.Appraisal.Bounds.{appraise_bounds}
use stellar_kraal_backend.Appraisal.Shipped.{appraise_two_apart}

run : Unit {0}
unfolding appraise_livestock aggregated_price_per_kg oracles table_price valuation base_price_per_kg
    premium_of age_multiplier health_multiplier ltv_ratio responding is_outlier reject_outliers
run = tt

abbrev same : String → String
same s = s

-- 400 kg, 3 years.
abbrev bull : LivestockMetadata ℕ
bull = record {
  type = cattle;
  breed = "angus";
  weight_kg = 40000;
  age_months = 3600;
  health_status = good;
}

abbrev bull_value : AppraisalResult ℕ
bull_value = record {
  market_value = 121320;
  collateral_value = 84924;
  ltv_ratio = 70;
  confidence = 50;
  breakdown = record {
    base_price = 134800;
    weight_adjustment = 0;
    age_multiplier = 100;
    health_multiplier = 90;
  };
}

bull_test : appraise_livestock same (oracles same) 1500 bull ≡ ok bull_value
unfolding run
bull_test = refl

appraise_bounds_example :
    (leb 40000 0 ≡ false)
    × (ltb 3600 0 ≡ false)
    × (leb 121320 134800 ≡ true)
    × (leb 84924 121320 ≡ true)
    × (leb 0 84924 ≡ true)
unfolding run
appraise_bounds_example =
    appraise_bounds cents-Laws same (oracles same) 1500 300 400 bull bull_value refl refl (refl, tt)
      bull_test

abbrev doubled : OracleAdapter ℕ
doubled = record { name = "regional"; get_price_per_kg = λ t breed. fulfilled (some 700) }

appraise_two_apart_example :
    appraise_livestock same (internal_oracle same ∷ doubled ∷ []) 1500 bull ≡ thrown no_median
unfolding run internal_oracle
appraise_two_apart_example =
    appraise_two_apart same (internal_oracle same ∷ doubled ∷ []) 1500 bull 337 700 refl refl refl
      refl refl refl
