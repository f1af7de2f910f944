-- ===== src/Prices/Latest.antt =====
-- What `getLatestOraclePrice` of src/services/price-events.service.ts reads from the table, and the
-- answer of `getOraclePrice` of src/controllers/price-events.controller.ts.
use stellar_kraal_backend.Prelude.{
  ltb, Bool-cases, Option-cases, filter, All, filter-append, is_blank, ℕ, ◌-◌, ◌≤◌, ◌<◌, String,
  ◌≡◌, refl, sym, ap, ◌∙◌, subst, ◌≢◌, ◌⊎◌, inl, inr, Bool, true, false, Option, none, some, List,
  [], ◌∷◌, ◌++◌, arith, eq_iff, eq_refl,
}
use stellar_kraal_backend.Prices.{
  PriceEvent, PriceEventData, PriceEventType, SseClient, oracle_update, trade, retirement,
  is_oracle_update, is_oracle_price, get_latest_oracle_price,
}
use stellar_kraal_backend.Prices.Streams.{publish_price_event}
use stellar_kraal_backend.Prices.Charts.{get_oracle_price}

is_oracle_update-eq : (t : PriceEventType) → is_oracle_update t ≡ true → t ≡ oracle_update
is_oracle_update-eq oracle_update h = refl
is_oracle_update-eq trade h = absurd (ground arith)
is_oracle_update-eq retirement h = absurd (ground arith)

module _ {A : Type 0} where
  abbrev pub IsAmong : PriceEvent A → List (PriceEvent A) → Type 0
  IsAmong e [] = ⊥
  IsAmong e (x ∷ xs) = (e ≡ x) ⊎ IsAmong e xs

  -- What is documented of `findFirst` with the latest row first: it finds a row if there is one, and
  -- no row is later than the one it finds. Which one, of several with the same time, is not said.
  pub record FindsLatest (latest : List (PriceEvent A) → Option (PriceEvent A)) : Type 0 where
    pub finds : (e : PriceEvent A) (xs : List (PriceEvent A)) → IsAmong e xs → latest xs ≢ none
    pub found :
        (e : PriceEvent A) (xs : List (PriceEvent A))
        → latest xs ≡ some e
        → IsAmong e xs × All (λ x. x.timestamp ≤ e.timestamp) xs

  IsAmong-last : (e : PriceEvent A) (xs : List (PriceEvent A)) → IsAmong e (xs ++ e ∷ [])
  IsAmong-last e [] = inl refl
  IsAmong-last e (x ∷ xs) = inr (IsAmong-last e xs)

  IsAmong-append :
      (e : PriceEvent A) (xs ys : List (PriceEvent A))
      → IsAmong e (xs ++ ys)
      → IsAmong e xs ⊎ IsAmong e ys
  IsAmong-append e [] ys h = inr h
  IsAmong-append e (x ∷ xs) ys (inl h) = inl (inl h)
  IsAmong-append e (x ∷ xs) ys (inr h) = elim (IsAmong-append e xs ys h) [
    | inl k ↦ inl (inr k)
    | inr k ↦ inr k
  ]

  All-IsAmong :
      (P : PriceEvent A → Type 0) (e : PriceEvent A) (xs : List (PriceEvent A))
      → All P xs
      → IsAmong e xs
      → P e
  All-IsAmong P e [] h k = absurd k
  All-IsAmong P e (x ∷ xs) (h, hs) (inl k) = subst P (sym k) h
  All-IsAmong P e (x ∷ xs) (h, hs) (inr k) = All-IsAmong P e xs hs k

  -- The oracle prices of a credit.
  abbrev pub IsOraclePriceOf : String → PriceEvent A → Type 0
  IsOraclePriceOf credit e = (e.event.credit_id ≡ credit) × (e.event.type ≡ oracle_update)

  is_oracle_price-IsOraclePriceOf :
      (credit : String) (e : PriceEvent A)
      → is_oracle_price credit e ≡ true
      → IsOraclePriceOf credit e
  is_oracle_price-IsOraclePriceOf credit e h =
      let same : e.event.credit_id ≡ credit = ground (arith, eq_iff e.event.credit_id credit) in
      let oracle : is_oracle_update e.event.type ≡ true = ground arith in
      (same, is_oracle_update-eq e.event.type oracle)

  -- The rows that match and come before a time.
  oracle_rows-before :
      (credit : String) (now : ℕ) (table : List (PriceEvent A))
      → All (λ x. IsOraclePriceOf credit x → x.timestamp < now) table
      → All (λ x. x.timestamp < now) (filter (is_oracle_price credit) table)
  oracle_rows-before credit now [] h = tt
  oracle_rows-before credit now (x ∷ xs) (h, hs) = elim (Bool-cases (is_oracle_price credit x)) [
    | inl e ↦
        rw e (h (is_oracle_price-IsOraclePriceOf credit x e), oracle_rows-before credit now xs hs)
    | inr e ↦ rw e (oracle_rows-before credit now xs hs)
  ]

  latest_last :
      (latest : List (PriceEvent A) → Option (PriceEvent A)) (e : PriceEvent A)
      (rows : List (PriceEvent A))
      → FindsLatest latest
      → All (λ x. x.timestamp < e.timestamp) rows
      → latest (rows ++ e ∷ []) ≡ some e
  latest_last latest e rows law before = elim (Option-cases (latest (rows ++ e ∷ []))) [
    | inl k ↦ absurd (law.finds e (rows ++ e ∷ []) (IsAmong-last e rows) k)
    | inr (f, k) ↦
        let (among, newest) = law.found f (rows ++ e ∷ []) k in
        let late : e.timestamp ≤ f.timestamp =
          All-IsAmong (λ x. x.timestamp ≤ f.timestamp) e (rows ++ e ∷ []) newest
            (IsAmong-last e rows) in
        elim (IsAmong-append f rows (e ∷ []) among) [
          | inl old ↦
              let early = All-IsAmong (λ x. x.timestamp < e.timestamp) f rows before old in
              absurd (omega arith)
          | inr (inl same) ↦ k ∙ ap some same
          | inr (inr no_more) ↦ absurd no_more
        ]
  ]

  -- An oracle price that is published and stored at time `now`, where the table has no oracle price
  -- of its credit from that time or later (but maybe other events of the credit, and events of other
  -- credits), is the one that the endpoint answers from then on until another event is stored: its
  -- price with its time, as stale exactly if more than an hour has passed.
  pub publish-get_oracle_price :
      (latest : List (PriceEvent A) → Option (PriceEvent A)) (show : ℕ → String) (now later t : ℕ)
      (id : String) (writable : String → Bool) (d : PriceEventData A) (table : List (PriceEvent A))
      (clients : List (SseClient A))
      → FindsLatest latest
      → d.type ≡ oracle_update
      → is_blank d.credit_id ≡ false
      → All (λ x. IsOraclePriceOf d.credit_id x → x.timestamp < now) table
      → get_oracle_price latest t d.credit_id
          (some (publish_price_event show now later (some id) writable d table clients).1)
        ≡ some (record {
          oracle_price = some (record { price = d.price; timestamp = now });
          stale = ltb 3600000 (t - now);
          unavailable = false;
        })
  unfolding get_oracle_price get_latest_oracle_price publish_price_event
  publish-get_oracle_price latest show now later t id writable d table clients law oracle named h =
      let e : PriceEvent A = record { id = id; event = d; timestamp = now } in
      let is : is_oracle_price d.credit_id e ≡ true = rw (eq_refl d.credit_id) (rw oracle refl) in
      let rows = filter (is_oracle_price d.credit_id) table in
      let split : filter (is_oracle_price d.credit_id) (table ++ e ∷ []) ≡ rows ++ e ∷ [] =
        filter-append (is_oracle_price d.credit_id) table (e ∷ []) ∙ rw is refl in
      let first = latest_last latest e rows law (oracle_rows-before d.credit_id now table h) in
      rw named (rw split (rw first refl))
