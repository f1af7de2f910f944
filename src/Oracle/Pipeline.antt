-- ===== src/Oracle/Pipeline.antt =====
-- `aggregate` of src/services/oracle-aggregation.ts, from the samples to the price.
use stellar_kraal_backend.Prelude.{
  ltb, Bool-cases, length, count, filter, length-map, suc, ◌+◌, ◌*◌, ◌≤◌, ◌<◌, String, ◌≡◌, refl,
  inl, inr, Bool, true, not, some, List, [], ◌∷◌, arith,
}
use stellar_kraal_backend.Number.{Arith, Laws}
use stellar_kraal_backend.Oracle.{
  OraclePriceSample, AggregationOptions, AggregationResult, is_outlier, median, separate, prices,
  sources, stale_in, conclude, drop_outliers, after_staleness, aggregate, no_price,
}
use stellar_kraal_backend.Oracle.Median.{median_defined, within, median-within}

module _ {A : Type 0} ⦃n : Arith A⦄ where
  abbrev pub fresh : AggregationOptions A → List (OraclePriceSample A) → List (OraclePriceSample A)
  fresh opts = filter (λ s. not (stale_in opts s))

  separate_lem :
      (test : OraclePriceSample A → Bool) (ss : List (OraclePriceSample A))
      → separate test ss ≡ (sources (filter test ss), filter (λ s. not (test s)) ss)
  separate_lem test [] = refl
  separate_lem test (s ∷ ss) = elim (Bool-cases (test s)) [
    | inl e ↦ rw (e, separate_lem test ss)
    | inr e ↦ rw (e, separate_lem test ss)
  ]

  count-separate :
      (q : String → Bool) (test : OraclePriceSample A → Bool) (ss : List (OraclePriceSample A))
      → count q (sources ss)
        ≡ count q (sources (filter test ss)) + count q (sources (filter (λ s. not (test s)) ss))
  count-separate q test [] = omega arith
  count-separate q test (s ∷ ss) = ground (arith, count-separate q test ss)

  abbrev pub survivors :
      AggregationOptions A → A → List (OraclePriceSample A) → List (OraclePriceSample A)
  survivors opts reference = filter (λ s. not (is_outlier s.price reference opts.max_deviation_pct))

  abbrev outliers :
      AggregationOptions A → A → List (OraclePriceSample A) → List (OraclePriceSample A)
  outliers opts reference = filter (λ s. is_outlier s.price reference opts.max_deviation_pct)

  -- What a priced result says of a run, over its stale sources and its fresh samples.
  record Priced (opts : AggregationOptions A) (stale_sources : List String)
      (fs : List (OraclePriceSample A)) (r : AggregationResult A) (p : A) : Type 0 where
    reference : A
    is_reference : median (prices fs) ≡ some reference
    enough : opts.min_sources ≤ length (survivors opts reference fs)
    is_price : median (prices (survivors opts reference fs)) ≡ some p
    used : r.used_sources ≡ sources (survivors opts reference fs)
    stale : r.rejected_stale ≡ stale_sources
    outlier : r.rejected_outlier ≡ sources (outliers opts reference fs)

  conclude-priced :
      (opts : AggregationOptions A) (stale out : List String) (surv : List (OraclePriceSample A))
      (r : AggregationResult A) (p : A)
      → conclude opts stale (out, surv) ≡ some r
      → r.price ≡ some p
      → (opts.min_sources ≤ length surv)
        × (median (prices surv) ≡ some p)
        × (r.used_sources ≡ sources surv)
        × (r.rejected_stale ≡ stale)
        × (r.rejected_outlier ≡ out)
  unfolding conclude
  conclude-priced opts stale out surv r p h k = ground arith

  after_staleness-Priced :
      (opts : AggregationOptions A) (stale : List String) (fs : List (OraclePriceSample A))
      (r : AggregationResult A) (p : A)
      → after_staleness opts (stale, fs) ≡ some r
      → r.price ≡ some p
      → Priced opts stale fs r p
  after_staleness-Priced opts stale [] r p h k = ground arith
  after_staleness-Priced opts stale (s ∷ ss) r p h k =
      let (ref, e) = median_defined s.price (prices ss) in
      let h₁ = rw (e, drop_outliers) at h in
      let h₂ =
        rw (separate_lem (λ t. is_outlier t.price ref opts.max_deviation_pct) (s ∷ ss)) at h₁ in
      let (enough, price, used, st, out) = conclude-priced opts stale _ _ r p h₂ k in
      record {
        reference = ref;
        is_reference = e;
        enough = enough;
        is_price = price;
        used = used;
        stale = st;
        outlier = out;
      }

  aggregate-Priced :
      (samples : List (OraclePriceSample A)) (opts : AggregationOptions A) (r : AggregationResult A)
      (p : A)
      → aggregate samples opts ≡ some r
      → r.price ≡ some p
      → Priced opts (sources (filter (stale_in opts) samples)) (fresh opts samples) r p
  unfolding aggregate
  aggregate-Priced samples opts r p h k =
      after_staleness-Priced opts _ _ r p (rw (separate_lem (stale_in opts) samples) at h) k

  -- When `aggregate` returns a price, at least `min_sources` samples are used, and every source is
  -- listed exactly once as used, stale or outlier: any test holds of as many sources of the input
  -- as of the three lists together.
  pub aggregate-sources :
      (samples : List (OraclePriceSample A)) (opts : AggregationOptions A) (r : AggregationResult A)
      (p : A)
      → aggregate samples opts ≡ some r
      → r.price ≡ some p
      → (opts.min_sources ≤ length r.used_sources)
        × ((test : String → Bool)
            → count test (sources samples)
              ≡ count test r.used_sources
                + count test r.rejected_stale
                + count test r.rejected_outlier)
  aggregate-sources samples opts r p h k =
      let c = aggregate-Priced samples opts r p h k in
      (
        rw c.used (
            omega (
              arith,
              c.enough,
              length-map (λ (s : OraclePriceSample A). s.source)
                  (survivors opts c.reference (fresh opts samples)),
            )),
        λ test.
            rw (c.used, c.stale, c.outlier)
              (omega (
                arith,
                count-separate test (stale_in opts) samples,
                count-separate test (λ s. is_outlier s.price c.reference opts.max_deviation_pct)
                    (fresh opts samples),
              )),
      )

  abbrev price_result :
      List String → List String → List (OraclePriceSample A) → A → AggregationResult A
  price_result stale out surv p = record {
    price = some p;
    used_sources = sources surv;
    rejected_stale = stale;
    rejected_outlier = out;
  }

  conclude_total :
      (opts : AggregationOptions A) (stale out : List String) (surv : List (OraclePriceSample A))
      → 0 < opts.min_sources
      → (r : AggregationResult A) × (conclude opts stale (out, surv) ≡ some r)
  unfolding conclude
  conclude_total opts stale out [] h = (no_price stale out, ground arith)
  conclude_total opts stale out (s ∷ ss) h =
      let (p, e) = median_defined s.price (prices ss) in
      elim (Bool-cases (ltb (suc (length ss)) opts.min_sources)) [
        | inl few ↦ (no_price stale out, rw few)
        | inr many ↦ (price_result stale out (s ∷ ss) p, rw (many, e))
      ]

  -- With `min_sources` at least 1, `aggregate` never throws.
  pub aggregate_total :
      (samples : List (OraclePriceSample A)) (opts : AggregationOptions A)
      → 0 < opts.min_sources
      → (r : AggregationResult A) × (aggregate samples opts ≡ some r)
  unfolding aggregate
  aggregate_total samples opts h = go (separate (stale_in opts) samples)
    where
      go :
          (parts : List String × List (OraclePriceSample A))
          → (r : AggregationResult A) × (after_staleness opts parts ≡ some r)
      go (stale, []) = (no_price stale [], refl)
      go (stale, s ∷ ss) =
          let (ref, e) = median_defined s.price (prices ss) in
          let rest = separate (λ t. is_outlier t.price ref opts.max_deviation_pct) (s ∷ ss) in
          let (r, k) = conclude_total opts stale rest.0 rest.1 h in (r, rw e k)

module _ {A : Type 0} ⦃n : Arith A⦄ (laws : Laws n) where
  -- If more than half of the fresh samples are priced within a range, then the reference that
  -- outliers are measured against lies in that range; and the price lies in every range that holds
  -- more than half of the samples that deviate from it by no more than the threshold.
  pub aggregate-within :
      (samples : List (OraclePriceSample A)) (opts : AggregationOptions A) (r : AggregationResult A)
      (p lo hi : A)
      → length (fresh opts samples) < 2 * count (within lo hi) (prices (fresh opts samples))
      → aggregate samples opts ≡ some r
      → r.price ≡ some p
      → (reference : A) × (within lo hi reference ≡ true)
        × ((lo' hi' : A)
            → length (survivors opts reference (fresh opts samples))
              < 2 * count (within lo' hi') (prices (survivors opts reference (fresh opts samples)))
            → within lo' hi' p ≡ true)
  aggregate-within samples opts r p lo hi honest h k =
      let c = aggregate-Priced samples opts r p h k in
      let price = λ (s : OraclePriceSample A). s.price in
      let fs = fresh opts samples in
      let (ref, e, inside) =
        median-within laws lo hi (prices fs) (omega (arith, length-map price fs)) in
      let same : ref ≡ c.reference = cc (e, c.is_reference) in
      (
        c.reference,
        rw (← same) inside,
        λ lo' hi' most.
            let surv = survivors opts c.reference fs in
            let (q, f, inside') =
              median-within laws lo' hi' (prices surv) (omega (arith, length-map price surv)) in
            let same' : q ≡ p = cc (f, c.is_price) in rw (← same') inside',
      )
