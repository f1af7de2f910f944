-- ===== src/Tests/Prices.antt =====
-- A stream of one credit, and the chart and the oracle price of it.
use stellar_kraal_backend.Prelude.{
  leb, if◌then◌else◌, Bool-cases, Option-cases, length, count, filter, All, All-imp, find, is_blank,
  ℕ, min, ◌+◌, ◌≤◌, ◌<◌, String, ◌≡◌, refl, sym, ap, ◌∙◌, subst, ◌≢◌, inl, inr, Bool, true, false,
  Option, none, some, List, [], ◌∷◌, ◌++◌, map, arith, str_eq, eq_iff,
}
use stellar_kraal_backend.Number.Cents.{cents}
use stellar_kraal_backend.Prices.{
  PriceEvent, PriceEventData, SseClient, trade, oracle_update, is_of_credit, by_timestamp,
  get_price_history,
}
use stellar_kraal_backend.Prices.Streams.{
  emit, is_client, unregister, publish_price_event, register_sse_client,
}
use stellar_kraal_backend.Prices.Charts.{get_oracle_price}
use stellar_kraal_backend.Prices.Delivery.{
  StreamCall, publishes, connects, leaves, serve_streams, register-serve_streams,
}
use stellar_kraal_backend.Prices.Latest.{
  FindsLatest, IsAmong, IsOraclePriceOf, publish-get_oracle_price,
}
use stellar_kraal_backend.Prices.History.{IsAscending, get_price_history_oldest}

run : Unit {0}
unfolding serve_streams publish_price_event emit register_sse_client unregister find
    get_price_history by_timestamp is_blank
run = tt

abbrev in_decimals : ℕ → String
in_decimals n = "7"

abbrev sale : String → ℕ → PriceEventData ℕ
sale credit price = record {
  credit_id = credit;
  type = trade;
  price = price;
  volume = none;
  tx_hash = none;
  ledger = none;
}

abbrev quote : PriceEventData ℕ
quote = record {
  credit_id = "c1";
  type = oracle_update;
  price = 1250;
  volume = none;
  tx_hash = none;
  ledger = none;
}

abbrev stored_at : ℕ → PriceEventData ℕ → PriceEvent ℕ
stored_at t d = record { id = "e"; event = d; timestamp = t }

abbrev call_at : ℕ → Option String → (String → Bool) → PriceEventData ℕ → StreamCall ℕ
call_at t created writable d =
    publishes (record { now = t; later = t + 4; created = created; writable = writable; event = d })

-- The second event is not stored; the third finds the other stream closed, and one opens and closes.
abbrev calls : List (StreamCall ℕ)
calls =
    call_at 1 (some "e1") (λ id. true) (sale "c1" 10)
    ∷ connects "d" "c1"
    ∷ call_at 3 none (λ id. true) (sale "c1" 11)
    ∷ leaves "d"
    ∷ call_at 8 (some "e3") (str_eq "b") (sale "c2" 12)
    ∷ []

abbrev others : List (SseClient ℕ)
others = record { client_id = "a"; subscribed_to = "c2"; sent = [] } ∷ []

abbrev SameClient : String → String → Type 0
SameClient a b = a ≡ b

d-ne-b : SameClient "d" "b" → ⊥
d-ne-b e = ground (arith, eq_iff "d" "b")

register-serve_streams_example :
    let (events, _, clients') =
      serve_streams in_decimals calls [] (register_sse_client "b" "c1" others) in
    (map (λ (e : PriceEvent ℕ). e.event) events ≡ sale "c1" 10 ∷ sale "c1" 11 ∷ sale "c2" 12 ∷ [])
    × (find (is_client "b") clients'
        ≡ some (record {
          client_id = "b";
          subscribed_to = "c1";
          sent = filter (λ (e : PriceEvent ℕ). str_eq e.event.credit_id "c1") events;
        }))
unfolding run
register-serve_streams_example =
    register-serve_streams in_decimals calls [] others "b" "c1"
      (refl, (d-ne-b, (refl, (d-ne-b, (refl, tt))))) refl

abbrev table : List (PriceEvent ℕ)
table = stored_at 30 (sale "c1" 3) ∷ stored_at 10 (sale "c1" 1) ∷ stored_at 20 (sale "c2" 2) ∷ []

get_price_history_oldest_example :
    (omitted : List (PriceEvent ℕ)) × IsAscending (get_price_history "c1" 1 (some table) ++ omitted)
    × ((p : PriceEvent ℕ → Bool)
        → count p (get_price_history "c1" 1 (some table) ++ omitted)
          ≡ count p (filter (is_of_credit "c1") table))
    × (length (get_price_history "c1" 1 (some table))
        ≡ min 1 (length (filter (is_of_credit "c1") table)))
get_price_history_oldest_example = get_price_history_oldest "c1" 1 table

oldest_test : get_price_history "c1" 1 (some table) ≡ stored_at 10 (sale "c1" 1) ∷ []
unfolding run
oldest_test = refl

-- The database, with the last of the rows that have the latest time.
abbrev later_of : PriceEvent ℕ → Option (PriceEvent ℕ) → Option (PriceEvent ℕ)
later_of e none = some e
later_of e (some f) = if leb e.timestamp f.timestamp then some f else some e

abbrev newest : List (PriceEvent ℕ) → Option (PriceEvent ℕ)
newest [] = none
newest (e ∷ es) = later_of e (newest es)

later_of-some : (e : PriceEvent ℕ) (o : Option (PriceEvent ℕ)) → later_of e o ≢ none
later_of-some e none h = absurd (ground arith)
later_of-some e (some f) h = elim (Bool-cases (leb e.timestamp f.timestamp)) [
  | inl k ↦ absurd (ground arith)
  | inr k ↦ absurd (ground arith)
]

newest-none : (es : List (PriceEvent ℕ)) → newest es ≡ none → es ≡ []
newest-none [] h = refl
newest-none (e ∷ es) h = absurd (later_of-some e (newest es) h)

newest-found :
    (e : PriceEvent ℕ) (es : List (PriceEvent ℕ))
    → newest es ≡ some e
    → IsAmong e es × All (λ x. x.timestamp ≤ e.timestamp) es
newest-found e [] h = absurd (ground arith)
newest-found e (x ∷ es) h = elim (Option-cases (newest es)) [
  | inl k ↦
      let same : x ≡ e = some-injective (sym (ap (later_of x) k) ∙ h) in
      (
        inl (sym same),
        subst (λ xs. All (λ y. y.timestamp ≤ e.timestamp) (x ∷ xs)) (sym (newest-none es k))
            (subst (λ y. x.timestamp ≤ y.timestamp) same (omega arith), tt),
      )
  | inr (f, k) ↦
      let (among, newer) = newest-found f es k in
      let chosen : later_of x (some f) ≡ some e = sym (ap (later_of x) k) ∙ h in
      elim (Bool-cases (leb x.timestamp f.timestamp)) [
        | inl b ↦
            let same : f ≡ e = some-injective (rw b at chosen) in
            let le : x.timestamp ≤ f.timestamp = ground arith in
            subst (λ y. IsAmong y (x ∷ es) × All (λ z. z.timestamp ≤ y.timestamp) (x ∷ es)) same
              (inr among, (le, newer))
        | inr b ↦
            let same : x ≡ e = some-injective (rw b at chosen) in
            let gt : f.timestamp ≤ x.timestamp = ground arith in
            subst (λ y. IsAmong y (x ∷ es) × All (λ z. z.timestamp ≤ y.timestamp) (x ∷ es)) same
              (inl refl, (omega arith, All-imp (λ z j. omega arith) es newer))
      ]
]
  where
    some-injective :
        {a b : PriceEvent ℕ} → ◌≡◌ {A = Option (PriceEvent ℕ)} (some a) (some b) → a ≡ b
    some-injective h = cc

newest-FindsLatest : FindsLatest newest
newest-FindsLatest = record { finds = finds_one; found = newest-found }
  where
    finds_one : (e : PriceEvent ℕ) (xs : List (PriceEvent ℕ)) → IsAmong e xs → newest xs ≢ none
    finds_one e [] h k = h
    finds_one e (x ∷ xs) h k = later_of-some x (newest xs) k

-- A later trade of the credit, a later oracle price of another one, and an earlier one of this one.
abbrev quoted : List (PriceEvent ℕ)
quoted =
    stored_at 90 (sale "c1" 3)
    ∷ stored_at 80 (record quote { credit_id = "c2" })
    ∷ stored_at 30 (record quote { price = 900 })
    ∷ []

quoted-before : All (λ x. IsOraclePriceOf "c1" x → x.timestamp < 40) quoted
quoted-before = (
  (λ (_, t). absurd (trade-ne-oracle t)),
  ((λ (c, _). absurd (ground (arith, eq_iff "c2" "c1"))), ((λ _. omega arith), tt)),
)
  where
    trade-ne-oracle : trade ≡ oracle_update → ⊥
    trade-ne-oracle e = cc

publish-get_oracle_price_example :
    get_oracle_price newest 3600041 "c1"
      (some (publish_price_event in_decimals 40 41 (some "e9") (λ id. true) quote quoted others).1)
    ≡ some (record {
      oracle_price = some (record { price = 1250; timestamp = 40 });
      stale = true;
      unavailable = false;
    })
unfolding run
publish-get_oracle_price_example =
    publish-get_oracle_price newest in_decimals 40 41 3600041 "e9" (λ id. true) quote quoted others
      newest-FindsLatest refl refl quoted-before
