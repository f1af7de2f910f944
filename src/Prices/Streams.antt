-- ===== src/Prices/Streams.antt =====
-- The registry of the event streams and `publishPriceEvent`.
use stellar_kraal_backend.Prelude.{
  if◌then◌else◌, filter, is_blank, append, ℕ, String, Bool, not, Option, none, some, List, [], ◌∷◌,
  ◌++◌, str_eq,
}
use stellar_kraal_backend.Prices.{
  OraclePrice, PriceEventData, PriceEvent, SseClient, is_of_credit, get_latest_oracle_price,
}

abbrev pub temp_id : (ℕ → String) → ℕ → String
temp_id show now = append "temp-" (show now)

module _ {A : Type 0} where
  abbrev pub is_client : String → SseClient A → Bool
  is_client id c = str_eq c.client_id id

  -- A new stream, after the handlers of the bus that are there already. Identifiers are fresh
  -- (`randomUUID`), so that the map and the handlers of the bus have the same clients.
  unfoldable pub register_sse_client : String → String → List (SseClient A) → List (SseClient A)
  register_sse_client id credit clients =
      clients ++ record { client_id = id; subscribed_to = credit; sent = [] } ∷ []

  -- The cleanup function of a registration.
  unfoldable pub unregister : String → List (SseClient A) → List (SseClient A)
  unregister id clients = filter (λ c. not (is_client id c)) clients

  abbrev pub send : PriceEvent A → SseClient A → SseClient A
  send e c = record c { sent = c.sent ++ e ∷ [] }

  -- `emit` on the channel of a credit: a stream that can be written gets the event, one that cannot
  -- is unregistered.
  unfoldable pub emit : (String → Bool) → PriceEvent A → List (SseClient A) → List (SseClient A)
  emit writable e [] = []
  emit writable e (c ∷ cs) =
      let rest = emit writable e cs in
      if is_of_credit c.subscribed_to e
      then (if writable c.client_id then send e c ∷ rest else rest)
      else c ∷ rest

  -- `created` is the identifier of the new row, or `none` for an error of the database; `later` is the
  -- clock after the answer, and `show` writes a number in decimals.
  unfoldable pub publish_price_event :
      (ℕ → String)
      → ℕ
      → ℕ
      → Option String
      → (String → Bool)
      → PriceEventData A
      → List (PriceEvent A)
      → List (SseClient A)
      → PriceEvent A × List (PriceEvent A) × List (SseClient A)
  unfolding emit append
  publish_price_event show now later (some id) writable d table clients =
      let e : PriceEvent A = record { id = id; event = d; timestamp = now } in
      (e, table ++ e ∷ [], emit writable e clients)
  publish_price_event show now later none writable d table clients =
      let e : PriceEvent A = record { id = temp_id show later; event = d; timestamp = now } in
      (e, table, emit writable e clients)

  -- `streamPriceEvents`: the 400 for a blank credit, or the price that the first message shows and
  -- the registration. The pings and the end of a stream after half an hour are left out.
  unfoldable pub stream_price_events :
      (List (PriceEvent A) → Option (PriceEvent A))
      → String
      → String
      → Option (List (PriceEvent A))
      → List (SseClient A)
      → Option (Option (OraclePrice A) × List (SseClient A))
  unfolding register_sse_client get_latest_oracle_price is_blank
  stream_price_events latest id credit table clients =
      if is_blank credit
      then none
      else some (get_latest_oracle_price latest credit table, register_sse_client id credit clients)
