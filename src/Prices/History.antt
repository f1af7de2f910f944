-- ===== src/Prices/History.antt =====
-- What `getPriceHistory` of src/services/price-events.service.ts reads from the table.
use stellar_kraal_backend.Prelude.{
  leb, Bool-cases, length, take, drop, count, filter, All, take-append-drop, All-imp, ℕ, zero, suc,
  min, ◌≤◌, String, ◌≡◌, refl, ap, ◌∙◌, inl, inr, Bool, some, List, [], ◌∷◌, ◌++◌, arith,
}
use stellar_kraal_backend.Prices.{
  PriceEvent, is_of_credit, insert_event, by_timestamp, get_price_history,
}

module _ {A : Type 0} where
  abbrev pub IsAscending : List (PriceEvent A) → Type 0
  IsAscending [] = Unit
  IsAscending (e ∷ es) = All (λ x. e.timestamp ≤ x.timestamp) es × IsAscending es

  length-take-min : (n : ℕ) (xs : List (PriceEvent A)) → length (take n xs) ≡ min n (length xs)
  length-take-min zero xs = omega arith
  length-take-min (suc n) [] = omega arith
  length-take-min (suc n) (x ∷ xs) = omega (arith, length-take-min n xs)

  count-insert_event :
      (p : PriceEvent A → Bool) (e : PriceEvent A) (xs : List (PriceEvent A))
      → count p (insert_event e xs) ≡ count p (e ∷ xs)
  count-insert_event p e [] = refl
  count-insert_event p e (x ∷ xs) = ground (arith, count-insert_event p e xs)

  count-by_timestamp :
      (p : PriceEvent A → Bool) (xs : List (PriceEvent A)) → count p (by_timestamp xs) ≡ count p xs
  unfolding by_timestamp
  count-by_timestamp p [] = refl
  count-by_timestamp p (x ∷ xs) =
      ground (arith, count-insert_event p x (by_timestamp xs), count-by_timestamp p xs)

  length-insert_event :
      (e : PriceEvent A) (xs : List (PriceEvent A)) → length (insert_event e xs) ≡ suc (length xs)
  length-insert_event e [] = refl
  length-insert_event e (x ∷ xs) = ground (arith, length-insert_event e xs)

  length-by_timestamp : (xs : List (PriceEvent A)) → length (by_timestamp xs) ≡ length xs
  unfolding by_timestamp
  length-by_timestamp [] = refl
  length-by_timestamp (x ∷ xs) =
      ground (arith, length-insert_event x (by_timestamp xs), length-by_timestamp xs)

  All-insert_event :
      (t : ℕ) (e : PriceEvent A) (xs : List (PriceEvent A))
      → t ≤ e.timestamp
      → All (λ x. t ≤ x.timestamp) xs
      → All (λ x. t ≤ x.timestamp) (insert_event e xs)
  All-insert_event t e [] h k = (h, tt)
  All-insert_event t e (x ∷ xs) h (k, ks) = elim (Bool-cases (leb e.timestamp x.timestamp)) [
    | inl b ↦ rw b (h, (k, ks))
    | inr b ↦ rw b (k, All-insert_event t e xs h ks)
  ]

  insert_event-IsAscending :
      (e : PriceEvent A) (xs : List (PriceEvent A))
      → IsAscending xs
      → IsAscending (insert_event e xs)
  insert_event-IsAscending e [] h = (tt, tt)
  insert_event-IsAscending e (x ∷ xs) (k, ks) = elim (Bool-cases (leb e.timestamp x.timestamp)) [
    | inl b ↦
        let le : e.timestamp ≤ x.timestamp = ground arith in
        rw b ((le, All-imp (λ y j. omega arith) xs k), (k, ks))
    | inr b ↦
        let le : x.timestamp ≤ e.timestamp = ground arith in
        rw b (All-insert_event x.timestamp e xs le k, insert_event-IsAscending e xs ks)
  ]

  by_timestamp-IsAscending : (xs : List (PriceEvent A)) → IsAscending (by_timestamp xs)
  unfolding by_timestamp
  by_timestamp-IsAscending [] = tt
  by_timestamp-IsAscending (x ∷ xs) =
      insert_event-IsAscending x (by_timestamp xs) (by_timestamp-IsAscending xs)

  -- A price history is the start of the credit's events in ascending order of time: with the events
  -- that the limit leaves out after it, it is ascending and holds the events of the credit in the
  -- table, each as often as there; and it is as long as the limit if there are more, which keeps the
  -- oldest ones and leaves out the newest.
  pub get_price_history_oldest :
      (credit : String) (limit : ℕ) (table : List (PriceEvent A))
      → (omitted : List (PriceEvent A)) × IsAscending
          (get_price_history credit limit (some table) ++ omitted)
        × ((p : PriceEvent A → Bool)
            → count p (get_price_history credit limit (some table) ++ omitted)
              ≡ count p (filter (is_of_credit credit) table))
        × (length (get_price_history credit limit (some table))
            ≡ min limit (length (filter (is_of_credit credit) table)))
  unfolding get_price_history
  get_price_history_oldest credit limit table =
      let rows = filter (is_of_credit credit) table in
      let whole : take limit (by_timestamp rows) ++ drop limit (by_timestamp rows)
          ≡ by_timestamp rows =
        take-append-drop limit (by_timestamp rows) in
      (
        drop limit (by_timestamp rows),
        rw whole (by_timestamp-IsAscending rows),
        (λ p. rw whole (count-by_timestamp p rows)),
        length-take-min limit (by_timestamp rows) ∙ ap (min limit) (length-by_timestamp rows),
      )
