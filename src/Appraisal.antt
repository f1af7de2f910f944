-- ===== src/Appraisal.antt =====
-- src/services/appraisal.service.ts: the pricing model of a livestock asset.
-- `String.prototype.toLowerCase` is the argument `to_lower`. An oracle is asked twice by
-- `appraiseLivestock`; its answer is a function of the animal, so both rounds agree.
pub mod Bounds
pub mod Shipped
use stellar_kraal_backend.Prelude.{
  if◌then◌else◌, length, ℕ, String, Option, none, some, List, [], ◌∷◌, str_eq,
}
use stellar_kraal_backend.Number.{Arith, whole}
use stellar_kraal_backend.Oracle.{median, reject_outliers, prices}

pub data AnimalType : Type 0 where
  cattle goat sheep pig donkey : AnimalType

pub data HealthStatus : Type 0 where
  excellent good fair poor : HealthStatus

pub record LivestockMetadata (A : Type 0) : Type 0 where
  pub type : AnimalType
  pub breed : String
  pub weight_kg : A
  pub age_months : A
  pub health_status : HealthStatus

pub record Breakdown (A : Type 0) : Type 0 where
  pub base_price : A
  pub weight_adjustment : A
  pub age_multiplier : A
  pub health_multiplier : A

pub record AppraisalResult (A : Type 0) : Type 0 where
  pub market_value : A
  pub collateral_value : A
  pub ltv_ratio : A
  pub confidence : A
  pub breakdown : Breakdown A

pub data AppraisalError : Type 0 where
  weight_not_positive age_negative no_median : AppraisalError

pub data Appraised (A : Type 0) : Type 0 where
  ok : AppraisalResult A → Appraised A
  thrown : AppraisalError → Appraised A

-- An element of what `Promise.allSettled` returns: a price, `null`, or a rejection.
pub data Settled (A : Type 0) : Type 0 where
  fulfilled : Option A → Settled A
  rejected : Settled A

pub record OracleAdapter (A : Type 0) : Type 0 where
  pub name : String
  pub get_price_per_kg : AnimalType → String → Settled A

-- In hundredths of a dollar.
unfoldable pub base_price_per_kg : AnimalType → ℕ
base_price_per_kg cattle = 250
base_price_per_kg goat = 320
base_price_per_kg sheep = 280
base_price_per_kg pig = 190
base_price_per_kg donkey = 140

-- The entries of `BREED_PREMIUM` for one type, in hundredths.
abbrev pub breed_premium : AnimalType → List (String × ℕ)
breed_premium cattle = ("angus", 135) ∷ ("brahman", 120) ∷ ("hereford", 128) ∷ ("local", 100) ∷ []
breed_premium goat = ("boer", 140) ∷ ("kalahari", 130) ∷ ("local", 100) ∷ []
breed_premium sheep = ("dorper", 125) ∷ ("merino", 120) ∷ ("local", 100) ∷ []
breed_premium pig = ("large white", 115) ∷ ("local", 100) ∷ []
breed_premium donkey = ("local", 100) ∷ []

unfoldable pub premium_of : String → List (String × ℕ) → ℕ
premium_of breed [] = 100
premium_of breed ((b, p) ∷ rest) = if str_eq b breed then p else premium_of breed rest

unfoldable pub prime_range : AnimalType → ℕ × ℕ
prime_range cattle = (24, 84)
prime_range goat = (12, 60)
prime_range sheep = (12, 60)
prime_range pig = (6, 36)
prime_range donkey = (36, 120)

unfoldable pub health_multiplier : HealthStatus → ℕ
health_multiplier excellent = 100
health_multiplier good = 90
health_multiplier fair = 75
health_multiplier poor = 50

unfoldable pub ltv_ratio : HealthStatus → ℕ
ltv_ratio excellent = 75
ltv_ratio good = 70
ltv_ratio fair = 60
ltv_ratio poor = 45

module _ {A : Type 0} ⦃n : Arith A⦄ where
  open n use {hundredths, mul, div, lt, le, to_fixed2}

  -- Young, juvenile, prime, mature, old.
  unfoldable pub age_multiplier : AnimalType → A → A
  unfolding prime_range
  age_multiplier t age_months =
      let (prime_start, prime_end) = prime_range t in
      if lt age_months (mul (whole prime_start) (hundredths 50))
      then hundredths 60
      else if lt age_months (whole prime_start)
      then hundredths 80
      else if le age_months (whole prime_end)
      then hundredths 100
      else if le age_months (mul (whole prime_end) (hundredths 150))
      then hundredths 85
      else hundredths 65

  -- The price of the internal table, also the fallback of `aggregatedPricePerKg`.
  unfoldable pub table_price : (String → String) → AnimalType → String → A
  table_price to_lower t breed =
      mul (hundredths (base_price_per_kg t))
        (hundredths (premium_of (to_lower breed) (breed_premium t)))

  unfoldable pub internal_oracle : (String → String) → OracleAdapter A
  internal_oracle to_lower = record {
    name = "internal";
    get_price_per_kg = λ t breed. fulfilled (some (table_price to_lower t breed));
  }

  unfoldable pub market_feed_oracle : OracleAdapter A
  market_feed_oracle = record { name = "market-feed"; get_price_per_kg = λ t breed. fulfilled none }

  unfoldable pub oracles : (String → String) → List (OracleAdapter A)
  unfolding internal_oracle market_feed_oracle
  oracles to_lower = internal_oracle to_lower ∷ market_feed_oracle ∷ []

  abbrev pub push_price : Settled A → List A → List A
  push_price (fulfilled (some price)) prices = price ∷ prices
  push_price _ prices = prices

  unfoldable pub responding : List (OracleAdapter A) → AnimalType → String → List A
  responding [] t breed = []
  responding (o ∷ os) t breed = push_price (o.get_price_per_kg t breed) (responding os t breed)

  abbrev pub median_of : Option (List A) → Option A
  median_of none = none
  median_of (some filtered) = median filtered

  -- `none` is the throw of `median`, which happens when every price is rejected as an outlier.
  abbrev pub aggregated : A → A → List A → Option A
  aggregated fallback max_deviation_pct [] = some fallback
  aggregated fallback max_deviation_pct (p ∷ ps) =
      median_of (reject_outliers (p ∷ ps) max_deviation_pct)

  unfoldable pub aggregated_price_per_kg :
      (String → String) → List (OracleAdapter A) → A → AnimalType → String → Option A
  unfolding responding
  aggregated_price_per_kg to_lower os max_deviation_pct t breed =
      aggregated (table_price to_lower t breed) max_deviation_pct (responding os t breed)

  -- What `appraiseLivestock` computes from the price per kilogram.
  unfoldable pub valuation : List (OracleAdapter A) → LivestockMetadata A → A → AppraisalResult A
  valuation os m price_per_kg =
      let age_mult = age_multiplier m.type m.age_months in
      let health_mult = hundredths (health_multiplier m.health_status) in
      let ltv = hundredths (ltv_ratio m.health_status) in
      let base_price = mul price_per_kg m.weight_kg in
      let market_value = to_fixed2 (mul (mul base_price age_mult) health_mult) in
      record {
        market_value = market_value;
        collateral_value = to_fixed2 (mul market_value ltv);
        ltv_ratio = ltv;
        confidence =
            to_fixed2 (div (whole (length (responding os m.type m.breed))) (whole (length os)));
        breakdown = record {
          base_price = to_fixed2 base_price;
          weight_adjustment = whole 0;
          age_multiplier = age_mult;
          health_multiplier = health_mult;
        };
      }

  abbrev pub appraised : List (OracleAdapter A) → LivestockMetadata A → Option A → Appraised A
  appraised os m none = thrown no_median
  appraised os m (some price_per_kg) = ok (valuation os m price_per_kg)

  unfoldable pub appraise_livestock :
      (String → String) → List (OracleAdapter A) → A → LivestockMetadata A → Appraised A
  unfolding aggregated_price_per_kg
  appraise_livestock to_lower os max_deviation_pct m =
      if le m.weight_kg (whole 0)
      then thrown weight_not_positive
      else if lt m.age_months (whole 0)
      then thrown age_negative
      else appraised os m (aggregated_price_per_kg to_lower os max_deviation_pct m.type m.breed)
