-- ===== src/Oracle.antt =====
-- src/services/oracle-aggregation.ts. Numbers are those of `Number`; ledger sequence numbers and
-- ages are natural numbers. `throw` is `none`.
pub mod Sorting
pub mod Median
pub mod Filter
pub mod Pipeline
use stellar_kraal_backend.Prelude.{
  ltb, ◌==◌, if◌then◌else◌, length, get_elem?, filter, ℕ, ◌-◌, ◌/◌, ◌%◌, String, Bool, not, Option,
  none, some, List, [], ◌∷◌, map,
}
use stellar_kraal_backend.Number.{Arith, whole}

pub record OraclePriceSample (A : Type 0) : Type 0 where
  pub source : String
  pub price : A
  pub ledger : ℕ

pub record AggregationOptions (A : Type 0) : Type 0 where
  pub current_ledger : ℕ
  pub max_age_ledgers : ℕ
  pub max_deviation_pct : A
  pub min_sources : ℕ

pub record AggregationResult (A : Type 0) : Type 0 where
  pub price : Option A
  pub used_sources : List String
  pub rejected_stale : List String
  pub rejected_outlier : List String

-- A sample older than `max_age_ledgers`; a sample of a later ledger has a negative age there and
-- age 0 here, and is fresh in both.
unfoldable pub is_stale : ℕ → ℕ → ℕ → Bool
is_stale current_ledger sample_ledger max_age_ledgers =
    ltb max_age_ledgers (current_ledger - sample_ledger)

module _ {A : Type 0} ⦃n : Arith A⦄ where
  open n use {hundredths, add, sub, mul, div, abs, lt, le, eq}

  -- `[...values].sort((a, b) => a - b)`, a stable sort.
  unfoldable pub insert : A → List A → List A
  insert a [] = a ∷ []
  insert a (b ∷ bs) = if le a b then a ∷ b ∷ bs else b ∷ insert a bs

  unfoldable pub sort : List A → List A
  unfolding insert
  sort [] = []
  sort (a ∷ rest) = insert a (sort rest)

  abbrev pub midpoint : Option A → Option A → Option A
  midpoint (some a) (some b) = some (div (add a b) (whole 2))
  midpoint _ _ = none

  abbrev pub middle : List A → Option A
  middle sorted =
      let mid = length sorted / 2 in
      if length sorted % 2 == 0
      then midpoint (get_elem? sorted (mid - 1)) (get_elem? sorted mid)
      else get_elem? sorted mid

  unfoldable pub median : List A → Option A
  unfolding sort
  median [] = none
  median (v ∷ vs) = middle (sort (v ∷ vs))

  abbrev pub deviation_pct : A → A → A
  deviation_pct value reference = mul (div (abs (sub value reference)) (abs reference)) (whole 100)

  unfoldable pub is_outlier : A → A → A → Bool
  is_outlier value reference_median max_deviation_pct =
      if eq reference_median (hundredths 0)
      then not (eq value (hundredths 0))
      else lt max_deviation_pct (deviation_pct value reference_median)

  -- The result of the filter, or the throw of `median` (which an empty list does not reach).
  abbrev pub keep_near : List A → A → Option A → Option (List A)
  keep_near values max_deviation_pct none = none
  keep_near values max_deviation_pct (some reference) =
      some (filter (λ v. not (is_outlier v reference max_deviation_pct)) values)

  unfoldable pub reject_outliers : List A → A → Option (List A)
  unfolding is_outlier median
  reject_outliers [] max_deviation_pct = some []
  reject_outliers (v ∷ vs) max_deviation_pct =
      keep_near (v ∷ vs) max_deviation_pct (median (v ∷ vs))

  unfoldable pub validate_quality : A → A → A → Bool
  unfolding is_outlier
  validate_quality value reference_median max_deviation_pct =
      not (is_outlier value reference_median max_deviation_pct)

  -- The two loops of `aggregate`: the sources of the samples that a test rejects, and the others.
  abbrev pub separate :
      (OraclePriceSample A → Bool)
      → List (OraclePriceSample A)
      → List String × List (OraclePriceSample A)
  separate test [] = ([], [])
  separate test (s ∷ ss) =
      let (rejected, kept) = separate test ss in
      if test s then (s.source ∷ rejected, kept) else (rejected, s ∷ kept)

  abbrev pub prices : List (OraclePriceSample A) → List A
  prices = map (λ s. s.price)

  abbrev pub sources : List (OraclePriceSample A) → List String
  sources = map (λ s. s.source)

  abbrev pub no_price : List String → List String → AggregationResult A
  no_price rejected_stale rejected_outlier = record {
    price = none;
    used_sources = [];
    rejected_stale = rejected_stale;
    rejected_outlier = rejected_outlier;
  }

  -- The last return; `none` for the price is the throw of `median`.
  abbrev pub priced :
      List String
      → List String
      → List (OraclePriceSample A)
      → Option A
      → Option (AggregationResult A)
  priced rejected_stale rejected_outlier surviving none = none
  priced rejected_stale rejected_outlier surviving (some p) = some (record {
    price = some p;
    used_sources = sources surviving;
    rejected_stale = rejected_stale;
    rejected_outlier = rejected_outlier;
  })

  -- What Follows the second loop.
  unfoldable pub conclude :
      AggregationOptions A
      → List String
      → List String × List (OraclePriceSample A)
      → Option (AggregationResult A)
  conclude opts rejected_stale (rejected_outlier, surviving) =
      if ltb (length surviving) opts.min_sources
      then some (no_price rejected_stale rejected_outlier)
      else priced rejected_stale rejected_outlier surviving (median (prices surviving))

  -- The loop over the fresh samples, against their median.
  abbrev pub drop_outliers :
      AggregationOptions A
      → List String
      → List (OraclePriceSample A)
      → Option A
      → Option (AggregationResult A)
  drop_outliers opts rejected_stale fresh none = none
  drop_outliers opts rejected_stale fresh (some reference) =
      conclude opts rejected_stale
        (separate (λ s. is_outlier s.price reference opts.max_deviation_pct) fresh)

  abbrev pub after_staleness :
      AggregationOptions A → List String × List (OraclePriceSample A) → Option (AggregationResult A)
  after_staleness opts (rejected_stale, []) = some (no_price rejected_stale [])
  after_staleness opts (rejected_stale, s ∷ ss) =
      drop_outliers opts rejected_stale (s ∷ ss) (median (prices (s ∷ ss)))

  abbrev pub stale_in : AggregationOptions A → OraclePriceSample A → Bool
  stale_in opts s = is_stale opts.current_ledger s.ledger opts.max_age_ledgers

  unfoldable pub aggregate :
      List (OraclePriceSample A) → AggregationOptions A → Option (AggregationResult A)
  unfolding median is_outlier is_stale conclude
  aggregate samples opts = after_staleness opts (separate (stale_in opts) samples)
