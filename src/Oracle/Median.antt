-- ===== src/Oracle/Median.antt =====
-- The median of src/services/oracle-aggregation.ts resists a minority of bad prices.
use stellar_kraal_backend.Prelude.{
  ◌==◌, Bool-cases, length, get_elem?, count, All, get_elem?-lt, ℕ, zero, suc, ◌+◌, ◌-◌, ◌*◌, ◌/◌,
  ◌%◌, ◌≤◌, ◌<◌, ◌≡◌, refl, subst, inl, inr, Bool, true, false, not, ◌&&◌, some, List, [], ◌∷◌,
  arith,
}
use stellar_kraal_backend.Number.{whole, Arith, Laws}
use stellar_kraal_backend.Oracle.{median, sort, middle}
use stellar_kraal_backend.Oracle.Sorting.{IsSorted, count-sort, length-sort, sort-IsSorted}

module _ {A : Type 0} ⦃n : Arith A⦄ where
  -- A price that lies in the closed range from `lo` to `hi`.
  abbrev pub within : A → A → A → Bool
  within lo hi v = n.le lo v && n.le v hi

  abbrev pub below : A → A → Bool
  below lo v = not (n.le lo v)

  abbrev pub above : A → A → Bool
  above hi v = not (n.le v hi)

  within-below :
      (lo hi : A) (xs : List A) → count (within lo hi) xs + count (below lo) xs ≤ length xs
  within-below lo hi [] = omega arith
  within-below lo hi (x ∷ xs) = ground (arith, within-below lo hi xs)

  within-above :
      (lo hi : A) (xs : List A) → count (within lo hi) xs + count (above hi) xs ≤ length xs
  within-above lo hi [] = omega arith
  within-above lo hi (x ∷ xs) = ground (arith, within-above lo hi xs)

  -- An index below the end holds one of the elements.
  All-get_elem? {κ} :
      (P : A → Type κ) (xs : List A) (i : ℕ) {x : A} → All P xs → get_elem? xs i ≡ some x → P x
  All-get_elem? P [] i h e = cc
  All-get_elem? P (y ∷ ys) zero {x} (p, h) e = subst P (cc) p
  All-get_elem? P (y ∷ ys) (suc i) (p, h) e = All-get_elem? P ys i h e

  count-get_elem? :
      (test : A → Bool) (xs : List A) (i : ℕ) {x : A}
      → get_elem? xs i ≡ some x
      → test x ≡ true
      → 0 < count test xs
  count-get_elem? test [] i e t = cc
  count-get_elem? test (y ∷ ys) zero e t = ground arith
  count-get_elem? test (y ∷ ys) (suc i) e t = ground (arith, count-get_elem? test ys i e t)

  middle_defined : (xs : List A) → 0 < length xs → (p : A) × (middle xs ≡ some p)
  middle_defined xs pos =
      let (a, e) = get_elem?-lt xs (length xs / 2 - 1) (omega arith) in
      let (b, f) = get_elem?-lt xs (length xs / 2) (omega arith) in
      elim (Bool-cases (length xs % 2 == 0)) [
        | inl even ↦ (n.div (n.add a b) (whole 2), rw (even, e, f))
        | inr odd ↦ (b, rw (odd, f))
      ]

  -- `median` throws on no other list than the empty one.
  pub median_defined : (v : A) (vs : List A) → (p : A) × (median (v ∷ vs) ≡ some p)
  unfolding median
  median_defined v vs = middle_defined (sort (v ∷ vs)) (omega (arith, length-sort (v ∷ vs)))

  -- Of an odd number of values the median is one: a test that it passes holds of some value.
  pub median_odd :
      (values : List A)
      → length values % 2 ≡ 1
      → (p : A) × (median values ≡ some p)
        × ((test : A → Bool) → test p ≡ true → 0 < count test values)
  unfolding median
  median_odd [] h = absurd (omega arith)
  median_odd (v ∷ vs) h =
      let sorted = sort (v ∷ vs) in
      let odd : (length sorted % 2 == 0) ≡ false = ground (arith, length-sort (v ∷ vs)) in
      let (p, e) = get_elem?-lt sorted (length sorted / 2) (omega (arith, length-sort (v ∷ vs))) in
      (
        p,
        rw (odd, e),
        λ test t. omega (arith, count-get_elem? test sorted _ e t, count-sort test (v ∷ vs)),
      )

module _ {A : Type 0} ⦃n : Arith A⦄ (laws : Laws n) where
  -- In a sorted list, an element under `lo` has only such elements before it.
  below-sorted :
      (lo : A) (xs : List A) (i : ℕ) {x : A}
      → IsSorted xs
      → get_elem? xs i ≡ some x
      → n.le lo x ≡ false
      → i < count (below lo) xs
  below-sorted lo [] i s e h = cc
  below-sorted lo (y ∷ ys) zero s e h = ground arith
  below-sorted lo (y ∷ ys) (suc i) {x} (least, s) e h =
      let y-le-x = All-get_elem? (λ b. n.le y b ≡ true) ys i least e in
      ground (arith, below-sorted lo ys i s e h, laws.le_trans lo y x)

  All-above :
      (hi y : A) (ys : List A)
      → n.le y hi ≡ false
      → All (λ b. n.le y b ≡ true) ys
      → count (above hi) ys ≡ length ys
  All-above hi y [] h least = refl
  All-above hi y (z ∷ zs) h (y-le-z, least) =
      ground (arith, laws.le_trans y z hi y-le-z, All-above hi y zs h least)

  -- And an element over `hi` has only such elements after it.
  above-sorted :
      (hi : A) (xs : List A) (i : ℕ) {x : A}
      → IsSorted xs
      → get_elem? xs i ≡ some x
      → n.le x hi ≡ false
      → length xs ≤ i + count (above hi) xs
  above-sorted hi [] i s e h = cc
  above-sorted hi (y ∷ ys) zero {x} (least, s) e h =
      let y-is-x : y ≡ x = cc in
      let y-over : n.le y hi ≡ false = rw y-is-x h in ground (arith, All-above hi y ys y-over least)
  above-sorted hi (y ∷ ys) (suc i) {x} (least, s) e h = ground (arith, above-sorted hi ys i s e h)

  -- An element of a sorted list, at an index past at most half of it and before at most half.
  central_within :
      (lo hi : A) (xs : List A) (i : ℕ) {x : A}
      → IsSorted xs
      → get_elem? xs i ≡ some x
      → length xs < 2 * count (within lo hi) xs
      → (length xs ≤ i + i + 2 → n.le lo x ≡ true) × (i + i ≤ length xs → n.le x hi ≡ true)
  central_within lo hi xs i {x} s e h = (
    λ late. elim (Bool-cases (n.le lo x)) [
      | inl fine ↦ fine
      | inr low ↦ absurd (omega (arith, below-sorted lo xs i s e low, within-below lo hi xs))
    ],
    λ early. elim (Bool-cases (n.le x hi)) [
      | inl fine ↦ fine
      | inr high ↦ absurd (omega (arith, above-sorted hi xs i s e high, within-above lo hi xs))
    ],
  )

  sorted-le :
      (xs : List A) (i : ℕ) {x y : A}
      → IsSorted xs
      → get_elem? xs i ≡ some x
      → get_elem? xs (suc i) ≡ some y
      → n.le x y ≡ true
  sorted-le [] i s e f = cc
  sorted-le (z ∷ zs) zero {x} {y} (least, s) e f =
      let z-is-x : z ≡ x = cc in
      rw (← z-is-x) (All-get_elem? (λ b. n.le z b ≡ true) zs zero least f)
  sorted-le (z ∷ zs) (suc i) (least, s) e f = sorted-le zs i s e f

  odd_middle :
      (lo hi : A) (xs : List A) {p : A}
      → IsSorted xs
      → length xs % 2 ≡ 1
      → get_elem? xs (length xs / 2) ≡ some p
      → length xs < 2 * count (within lo hi) xs
      → within lo hi p ≡ true
  odd_middle lo hi xs {p} s odd e h =
      let (low, high) = central_within lo hi xs (length xs / 2) s e h in
      ground (arith, low (omega arith), high (omega arith))

  even_middle :
      (lo hi : A) (xs : List A) (a b : A)
      → IsSorted xs
      → length xs % 2 ≡ 0
      → 0 < length xs
      → get_elem? xs (length xs / 2 - 1) ≡ some a
      → get_elem? xs (length xs / 2) ≡ some b
      → length xs < 2 * count (within lo hi) xs
      → within lo hi (n.div (n.add a b) (whole 2)) ≡ true
  even_middle lo hi xs a b s even pos e f h =
      let (low, _) = central_within lo hi xs (length xs / 2 - 1) s e h in
      let (_, high) = central_within lo hi xs (length xs / 2) s f h in
      let next : suc (length xs / 2 - 1) ≡ length xs / 2 = omega arith in
      let a-le-b = sorted-le xs (length xs / 2 - 1) s e (rw next f) in
      let (from, to) = laws.half_sum a b a-le-b in
      let mid = n.div (n.add a b) (whole 2) in
      ground (
        arith,
        laws.le_trans lo a mid (low (omega arith)) from,
        laws.le_trans mid b hi to (high (omega arith)),
      )

  middle-within :
      (lo hi : A) (xs : List A)
      → IsSorted xs
      → 0 < length xs
      → length xs < 2 * count (within lo hi) xs
      → (p : A) × (middle xs ≡ some p) × (within lo hi p ≡ true)
  middle-within lo hi xs s pos h = elim (Bool-cases (length xs % 2 == 0)) [
    | inl even ↦
        let is_even : length xs % 2 ≡ 0 = ground arith in
        let (a, e) = get_elem?-lt xs (length xs / 2 - 1) (omega arith) in
        let (b, f) = get_elem?-lt xs (length xs / 2) (omega arith) in
        (n.div (n.add a b) (whole 2), rw (even, e, f), even_middle lo hi xs a b s is_even pos e f h)
    | inr odd ↦
        let is_odd : length xs % 2 ≡ 1 = ground arith in
        let (p, e) = get_elem?-lt xs (length xs / 2) (omega arith) in
        (p, rw (odd, e), odd_middle lo hi xs s is_odd e h)
  ]

  -- If more than half of the values lie in a range, the median is defined and lies in that range,
  -- whatever the other values are.
  pub median-within :
      (lo hi : A) (values : List A)
      → length values < 2 * count (within lo hi) values
      → (p : A) × (median values ≡ some p) × (within lo hi p ≡ true)
  unfolding median
  median-within lo hi [] h = absurd (omega arith)
  median-within lo hi (v ∷ vs) h =
      middle-within lo hi (sort (v ∷ vs)) (sort-IsSorted laws (v ∷ vs))
        (omega (arith, length-sort (v ∷ vs)))
        (omega (arith, length-sort (v ∷ vs), count-sort (within lo hi) (v ∷ vs)))
