-- ===== src/Prices/Delivery.antt =====
-- What the stream of a client of src/services/price-events.service.ts receives.
use stellar_kraal_backend.Prelude.{
  if◌then◌else◌, Bool-cases, Option-cases, filter, All, find, find-append_none, find-append_some, ℕ,
  String, ◌≡◌, refl, ap, ◌∙◌, ◌≢◌, inl, inr, Bool, true, false, Option, none, some, List, [], ◌∷◌,
  ◌++◌, map, arith, str_eq, eq_iff, eq_refl,
}
use stellar_kraal_backend.Prices.{PriceEvent, PriceEventData, SseClient, is_of_credit}
use stellar_kraal_backend.Prices.Streams.{
  emit, send, is_client, publish_price_event, register_sse_client, unregister,
}

-- A call of `publishPriceEvent`, with what the clock, the database and the streams answer.
pub record Publication (A : Type 0) : Type 0 where
  pub now : ℕ
  pub later : ℕ
  pub created : Option String
  pub writable : String → Bool
  pub event : PriceEventData A

-- What happens to the streams: an event is published, a stream is opened, or it is closed.
pub data StreamCall (A : Type 0) : Type 0 where
  publishes : Publication A → StreamCall A
  connects : (client credit : String) → StreamCall A
  leaves : (client : String) → StreamCall A

-- The events that calls publish.
abbrev pub publications : {A : Type 0} → List (StreamCall A) → List (PriceEventData A)
publications [] = []
publications (publishes p ∷ calls) = p.event ∷ publications calls
publications (connects client credit ∷ calls) = publications calls
publications (leaves client ∷ calls) = publications calls

-- The stream of an identifier stays open and can be written.
abbrev pub Spares : {A : Type 0} → String → StreamCall A → Type 0
Spares id (publishes p) = p.writable id ≡ true
Spares id (connects client credit) = client ≢ id
Spares id (leaves client) = client ≢ id

module _ {A : Type 0} (show : ℕ → String) where
  -- The events returned, the table and the streams after calls one after the other.
  abbrev pub followed_by :
      PriceEvent A
      → List (PriceEvent A) × List (PriceEvent A) × List (SseClient A)
      → List (PriceEvent A) × List (PriceEvent A) × List (SseClient A)
  followed_by e (es, table, clients) = (e ∷ es, table, clients)

  unfoldable pub serve_streams :
      List (StreamCall A)
      → List (PriceEvent A)
      → List (SseClient A)
      → List (PriceEvent A) × List (PriceEvent A) × List (SseClient A)
  unfolding publish_price_event register_sse_client unregister
  serve_streams [] table clients = ([], table, clients)
  serve_streams (publishes p ∷ calls) table clients =
      let (e, table', clients') =
        publish_price_event show p.now p.later p.created p.writable p.event table clients in
      followed_by e (serve_streams calls table' clients')
  serve_streams (connects client credit ∷ calls) table clients =
      serve_streams calls table (register_sse_client client credit clients)
  serve_streams (leaves client ∷ calls) table clients =
      serve_streams calls table (unregister client clients)

module _ {B : Type 0} where
  append-nil : (xs : List B) → xs ++ [] ≡ xs
  append-nil [] = refl
  append-nil (x ∷ xs) = ap (λ ys. x ∷ ys) (append-nil xs)

  append-snoc : (xs : List B) (x : B) (ys : List B) → (xs ++ x ∷ []) ++ ys ≡ xs ++ x ∷ ys
  append-snoc [] x ys = refl
  append-snoc (z ∷ xs) x ys = ap (λ r. z ∷ r) (append-snoc xs x ys)

module _ {A : Type 0} where
  abbrev received : PriceEvent A → SseClient A → SseClient A
  received e c = if is_of_credit c.subscribed_to e then send e c else c

  find-emit :
      (writable : String → Bool) (e : PriceEvent A) (id : String) (cs : List (SseClient A))
      (c : SseClient A)
      → writable id ≡ true
      → find (is_client id) cs ≡ some c
      → find (is_client id) (emit writable e cs) ≡ some (received e c)
  unfolding find emit
  find-emit writable e id [] c w h = ground arith
  find-emit writable e id (x ∷ xs) c w h = elim (Bool-cases (is_client id x)) [
    | inl k ↦
        let same : x.client_id ≡ id = (eq_iff _ _).0 k in
        let can : writable x.client_id ≡ true = ap writable same ∙ w in ground arith
    | inr k ↦ ground (arith, find-emit writable e id xs c w)
  ]

  emitted :
      (show : ℕ → String) (p : Publication A) (table : List (PriceEvent A))
      (clients : List (SseClient A))
      → (publish_price_event show p.now p.later p.created p.writable p.event table clients).2
        ≡ emit p.writable
            (publish_price_event show p.now p.later p.created p.writable p.event table clients).0
            clients
  unfolding publish_price_event
  emitted show p table clients = elim (Option-cases p.created) [
    | inl e ↦ rw e refl
    | inr (id, e) ↦ rw e refl
  ]

  -- A client with more events of its credit.
  abbrev pub with_events : SseClient A → List (PriceEvent A) → SseClient A
  with_events c es = record c { sent = c.sent ++ filter (is_of_credit c.subscribed_to) es }

  received-with_events :
      (e : PriceEvent A) (es : List (PriceEvent A)) (c : SseClient A)
      → with_events (received e c) es ≡ with_events c (e ∷ es)
  received-with_events e es c = elim (Bool-cases (is_of_credit c.subscribed_to e)) [
    | inl k ↦ rw k (
        ap (λ sent. record c { sent = sent })
          (append-snoc c.sent e (filter (is_of_credit c.subscribed_to) es)))
    | inr k ↦ rw k refl
  ]

  find-unregister :
      (id client : String) (cs : List (SseClient A))
      → client ≢ id
      → find (is_client id) (unregister client cs) ≡ find (is_client id) cs
  unfolding find unregister
  find-unregister id client [] ne = refl
  find-unregister id client (x ∷ xs) ne = elim (Bool-cases (is_client client x)) [
    | inl e ↦
        let other : is_client id x ≡ false =
          ground (arith, eq_iff x.client_id id, eq_iff x.client_id client) in
        rw e (rw other (find-unregister id client xs ne))
    | inr e ↦ elim (Bool-cases (is_client id x)) [
      | inl k ↦ rw e (rw k refl)
      | inr k ↦ rw e (rw k (find-unregister id client xs ne))
    ]
  ]

  serve_streams-with_events :
      (show : ℕ → String) (calls : List (StreamCall A)) (table : List (PriceEvent A))
      (clients : List (SseClient A)) (id : String) (c : SseClient A)
      → All (Spares id) calls
      → find (is_client id) clients ≡ some c
      → find (is_client id) (serve_streams show calls table clients).2
        ≡ some (with_events c (serve_streams show calls table clients).0)
  unfolding serve_streams register_sse_client
  serve_streams-with_events show [] table clients id c w h = h ∙ rw (append-nil c.sent) refl
  serve_streams-with_events show (publishes p ∷ calls) table clients id c (w, ws) h =
      let out = publish_price_event show p.now p.later p.created p.writable p.event table clients in
      let found : find (is_client id) out.2 ≡ some (received out.0 c) =
        ap (find (is_client id)) (emitted show p table clients)
        ∙ find-emit p.writable out.0 id clients c w h in
      serve_streams-with_events show calls out.1 out.2 id (received out.0 c) ws found
      ∙ ap some (received-with_events out.0 (serve_streams show calls out.1 out.2).0 c)
  serve_streams-with_events show (connects client credit ∷ calls) table clients id c (w, ws) h =
      serve_streams-with_events show calls table (register_sse_client client credit clients) id c ws
        (find-append_some (is_client id) clients _ c h)
  serve_streams-with_events show (leaves client ∷ calls) table clients id c (w, ws) h =
      serve_streams-with_events show calls table (unregister client clients) id c ws
        (find-unregister id client clients w ∙ h)

  published_event :
      (show : ℕ → String) (p : Publication A) (table : List (PriceEvent A))
      (clients : List (SseClient A))
      → (publish_price_event show p.now p.later p.created p.writable p.event table clients).0.event
        ≡ p.event
  unfolding publish_price_event
  published_event show p table clients = elim (Option-cases p.created) [
    | inl e ↦ rw e refl
    | inr (id, e) ↦ rw e refl
  ]

  serve_streams-publications :
      (show : ℕ → String) (calls : List (StreamCall A)) (table : List (PriceEvent A))
      (clients : List (SseClient A))
      → map (λ (e : PriceEvent A). e.event) (serve_streams show calls table clients).0
        ≡ publications calls
  unfolding serve_streams
  serve_streams-publications show [] table clients = refl
  serve_streams-publications show (publishes p ∷ calls) table clients =
      let out = publish_price_event show p.now p.later p.created p.writable p.event table clients in
      ap (λ d. d ∷ map (λ (e : PriceEvent A). e.event) (serve_streams show calls out.1 out.2).0)
        (published_event show p table clients)
      ∙ ap (λ ds. p.event ∷ ds) (serve_streams-publications show calls out.1 out.2)
  serve_streams-publications show (connects client credit ∷ calls) table clients =
      serve_streams-publications show calls table (register_sse_client client credit clients)
  serve_streams-publications show (leaves client ∷ calls) table clients =
      serve_streams-publications show calls table (unregister client clients)

  -- A client that connects under a fresh identifier, and whose stream stays open and can be written,
  -- receives exactly the events of its credit among those that are published after it connects, each
  -- once and in the order of publication, also those that the database fails to store; whatever
  -- streams of other identifiers are opened, closed, or found closed in between.
  pub register-serve_streams :
      (show : ℕ → String) (calls : List (StreamCall A)) (table : List (PriceEvent A))
      (clients : List (SseClient A)) (id credit : String)
      → All (Spares id) calls
      → find (is_client id) clients ≡ none
      → let (events, _, clients') =
          serve_streams show calls table (register_sse_client id credit clients) in
        (map (λ (e : PriceEvent A). e.event) events ≡ publications calls)
        × (find (is_client id) clients'
            ≡ some (record {
              client_id = id;
              subscribed_to = credit;
              sent = filter (λ (e : PriceEvent A). str_eq e.event.credit_id credit) events;
            }))
  unfolding register_sse_client find
  register-serve_streams show calls table clients id credit w h = (
    serve_streams-publications show calls table (register_sse_client id credit clients),
    serve_streams-with_events show calls table (register_sse_client id credit clients) id
        (record { client_id = id; subscribed_to = credit; sent = [] }) w
        (find-append_none (is_client id) clients _ h ∙ rw (eq_refl id) refl),
  )
