-- ===== src/Tests/Oracle.antt =====
-- The oracle aggregation on concrete prices, in hundredths.
use stellar_kraal_backend.Prelude.{
  length, count, ℕ, ◌*◌, ◌<◌, String, ◌≡◌, refl, true, some, List, [], ◌∷◌, map, arith,
}
use stellar_kraal_backend.Number.Cents.{cents, cents-Laws}
use stellar_kraal_backend.Oracle.{
  OraclePriceSample, AggregationOptions, AggregationResult, median, reject_outliers, aggregate,
}
use stellar_kraal_backend.Oracle.Median.{within}
use stellar_kraal_backend.Oracle.Pipeline.{fresh, survivors, aggregate_total, aggregate-within}

abbrev quotes : List ℕ
quotes = 10000 ∷ 10200 ∷ 99900 ∷ 9900 ∷ 10100 ∷ []

median_test : median quotes ≡ some 10100
unfolding median
median_test = refl

reject_test : reject_outliers quotes 1500 ≡ some (10000 ∷ 10200 ∷ 9900 ∷ 10100 ∷ [])
unfolding reject_outliers
reject_test = refl

abbrev sample : String → ℕ → ℕ → OraclePriceSample ℕ
sample source price ledger = record { source = source; price = price; ledger = ledger }

abbrev samples : List (OraclePriceSample ℕ)
samples =
    sample "a" 10000 100
    ∷ sample "b" 10200 99
    ∷ sample "c" 99900 100
    ∷ sample "d" 10100 40
    ∷ sample "e" 10300 95
    ∷ sample "f" 9900 90
    ∷ []

abbrev opts : AggregationOptions ℕ
opts = record {
  current_ledger = 100;
  max_age_ledgers = 10;
  max_deviation_pct = 1500;
  min_sources = 2;
}

abbrev outcome : AggregationResult ℕ
outcome = record {
  price = some 10100;
  used_sources = "a" ∷ "b" ∷ "e" ∷ "f" ∷ [];
  rejected_stale = "d" ∷ [];
  rejected_outlier = "c" ∷ [];
}

aggregate_test : aggregate samples opts ≡ some outcome
unfolding aggregate
aggregate_test = refl

aggregate_total_example : (r : AggregationResult ℕ) × (aggregate samples opts ≡ some r)
aggregate_total_example = aggregate_total samples opts (omega arith)

aggregate-within_example :
    (reference : ℕ) × (within 9000 11000 reference ≡ true)
    × ((lo hi : ℕ)
        → length (survivors opts reference (fresh opts samples))
          < 2
            * count
                (within lo hi)
                (map (λ s. s.price) (survivors opts reference (fresh opts samples)))
        → within lo hi 10100 ≡ true)
unfolding aggregate
aggregate-within_example =
    aggregate-within cents-Laws samples opts outcome 10100 9000 11000 (omega arith) aggregate_test
      refl
