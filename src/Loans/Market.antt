-- ===== src/Loans/Market.antt =====
-- The pages of the market view of src/controllers/loans.controller.ts, taken together.
use stellar_kraal_backend.Prelude.{
  or_default, Option-cases, length, take, drop, count, filter, concat, take-append-drop, drop-drop,
  drop-all, length-take-le, length-map, Integer, parse_int, ℕ, zero, suc, ◌+◌, ◌-◌, ◌*◌, ◌≤◌,
  String, ◌≡◌, refl, sym, ap, ◌∙◌, inl, inr, Bool, Option, some, List, [], ◌∷◌, ◌++◌, map, arith,
  nan, negative, natural,
}
use mathlib.Core.List.{reverse_aux}
use native.Mathlib.Nat.{lt-div-mul-add, zero-mul}
use stellar_kraal_backend.Loans.{
  at_least_one, page_limit, pages_for, view, active_loans, market_page,
}
use stellar_kraal_backend.Database.{Database, is_active}

abbrev pub numbers : ℕ → ℕ → List ℕ
numbers k zero = []
numbers k (suc m) = k ∷ numbers (suc k) m

module _ {ℓ κ} {A : Type ℓ} {B : Type κ} (f : A → B) where
  -- What a skip and a take of `limit` read from a list, page by page.
  abbrev pub page_at : ℕ → List A → ℕ → List B
  page_at limit xs p = map f (take limit (drop ((p - 1) * limit) xs))

  map-append : (xs ys : List A) → map f (xs ++ ys) ≡ map f xs ++ map f ys
  map-append [] ys = refl
  map-append (x ∷ xs) ys = ap (λ zs. f x ∷ zs) (map-append xs ys)

  concat-pages :
      (limit k m : ℕ) (xs : List A)
      → length xs ≤ (k + m) * limit
      → concat (map (page_at limit xs) (numbers (suc k) m)) ≡ map f (drop (k * limit) xs)
  concat-pages limit k zero xs h = rw (drop-all (k * limit) xs (omega arith)) refl
  concat-pages limit k (suc m) xs h =
      let rest = concat-pages limit (suc k) m xs (omega arith) in
      let prev : suc k - 1 ≡ k = omega arith in
      let next : drop limit (drop (k * limit) xs) ≡ drop (suc k * limit) xs =
        drop-drop limit (k * limit) xs ∙ ap (λ j. drop j xs) (omega arith) in
      rw rest (
        rw prev (
          rw (← next) (
            sym (map-append (take limit (drop (k * limit) xs)) (drop limit (drop (k * limit) xs)))
            ∙ ap (map f) (take-append-drop limit (drop (k * limit) xs)))))

at_least_one-pos : (i : Integer) (j : ℕ) → at_least_one i ≡ some j → 1 ≤ j
at_least_one-pos nan j h = ground arith
at_least_one-pos (negative i) j h = ground arith
at_least_one-pos (natural i) j h = ground arith

abbrev pub WithinLimits : ℕ → Type 0
WithinLimits k = (1 ≤ k) × (k ≤ 100)

page_limit-range : (text : Option String) (k : ℕ) → page_limit text ≡ some k → WithinLimits k
unfolding page_limit
page_limit-range text k h = elim (Option-cases (at_least_one (parse_int (or_default text "20")))) [
  | inl e ↦ ground arith
  | inr (j, e) ↦ ground (arith, at_least_one-pos (parse_int (or_default text "20")) j e)
]

pages_for-enough : (total k : ℕ) → 1 ≤ k → total ≤ pages_for total k * k
pages_for-enough total k h =
    omega (arith, lt-div-mul-add {a = total + (k - 1)} {b = k} (omega arith))

module _ {ℓ} {A : Type ℓ} where
  count-eq-length : (p : A → Bool) (xs : List A) → count p xs ≡ length (filter p xs)
  count-eq-length p [] = refl
  count-eq-length p (x ∷ xs) = ground (arith, count-eq-length p xs)

  length-reverse_aux : (xs ys : List A) → length (reverse_aux xs ys) ≡ length xs + length ys
  length-reverse_aux [] ys = omega arith
  length-reverse_aux (x ∷ xs) ys = omega (arith, length-reverse_aux xs (x ∷ ys))

module _ {A : Type 0} where
  length-active_loans :
      (db : Database A) → length (active_loans db) ≡ count (λ l. is_active l.status) db.loans
  unfolding active_loans
  length-active_loans db =
      length-reverse_aux (filter (λ l. is_active l.status) db.loans) []
      ∙ omega (arith, count-eq-length (λ l. is_active l.status) db.loans)

  -- Whatever limit the market view accepts, it is from 1 to 100, no page has more loans, and the
  -- pages from the first to the reported last one are together the active loans, the newest first,
  -- none missing and none twice.
  pub market_pages_complete :
      (text : Option String) (k : ℕ) (db : Database A)
      → page_limit text ≡ some k
      → WithinLimits k
        × ((p : ℕ) → length (market_page p k db).loans ≤ k)
        × (concat
              (map (λ p. (market_page p k db).loans) (numbers 1 (market_page 1 k db).total_pages))
            ≡ map (view db) (active_loans db))
  unfolding market_page active_loans
  market_pages_complete text k db h =
      let (low, high) = page_limit-range text k h in
      (
        (low, high),
        (λ p. omega (
          arith,
          length-map (view db) (take k (drop ((p - 1) * k) (active_loans db))),
          length-take-le k (drop ((p - 1) * k) (active_loans db)),
        )),
        concat-pages (view db) k 0 (pages_for (count (λ l. is_active l.status) db.loans) k)
              (active_loans db)
              (omega (
                arith,
                length-active_loans db,
                pages_for-enough (count (λ l. is_active l.status) db.loans) k low,
              ))
            ∙ ap (λ j. map (view db) (drop j (active_loans db))) (zero-mul k),
      )
