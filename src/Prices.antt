-- ===== src/Prices.antt =====
-- src/services/price-events.service.ts: the table of price events, the clients of the event streams
-- and the events that reach them. A time is in milliseconds. A client is its identifier, its credit
-- and what it was sent; whether its stream can still be written is an argument.
pub mod Streams
pub mod Charts
pub mod Delivery
pub mod History
pub mod Latest
use stellar_kraal_backend.Prelude.{
  leb, if◌then◌else◌, take, filter, ℕ, String, Bool, true, false, ◌&&◌, Option, none, some, List,
  [], ◌∷◌, str_eq,
}

pub data PriceEventType : Type 0 where
  trade oracle_update retirement : PriceEventType

-- An event without its identifier and its time.
pub record PriceEventData (A : Type 0) : Type 0 where
  pub credit_id : String
  pub type : PriceEventType
  pub price : A
  pub volume : Option A
  pub tx_hash : Option String
  pub ledger : Option ℕ

pub record PriceEvent (A : Type 0) : Type 0 where
  pub id : String
  pub event : PriceEventData A
  pub timestamp : ℕ

-- The two fields that `getLatestOraclePrice` selects.
pub record OraclePrice (A : Type 0) : Type 0 where
  pub price : A
  pub timestamp : ℕ

pub record SseClient (A : Type 0) : Type 0 where
  pub client_id : String
  pub subscribed_to : String
  pub sent : List (PriceEvent A)

abbrev pub is_oracle_update : PriceEventType → Bool
is_oracle_update oracle_update = true
is_oracle_update _ = false

module _ {A : Type 0} where
  abbrev pub is_of_credit : String → PriceEvent A → Bool
  is_of_credit credit e = str_eq e.event.credit_id credit

  -- `orderBy: { timestamp: 'asc' }`, which keeps the order of equal times.
  abbrev pub insert_event : PriceEvent A → List (PriceEvent A) → List (PriceEvent A)
  insert_event e [] = e ∷ []
  insert_event e (x ∷ xs) =
      let rest = insert_event e xs in if leb e.timestamp x.timestamp then e ∷ x ∷ xs else x ∷ rest

  unfoldable pub by_timestamp : List (PriceEvent A) → List (PriceEvent A)
  by_timestamp [] = []
  by_timestamp (x ∷ xs) = insert_event x (by_timestamp xs)

  -- The table, or `none` for an error of the database, which is answered with no points.
  unfoldable pub get_price_history : String → ℕ → Option (List (PriceEvent A)) → List (PriceEvent A)
  unfolding by_timestamp
  get_price_history credit limit none = []
  get_price_history credit limit (some table) =
      take limit (by_timestamp (filter (is_of_credit credit) table))

  abbrev pub is_oracle_price : String → PriceEvent A → Bool
  is_oracle_price credit e = is_of_credit credit e && is_oracle_update e.event.type

  abbrev pub oracle_price_of : PriceEvent A → OraclePrice A
  oracle_price_of e = record { price = e.event.price; timestamp = e.timestamp }

  abbrev pub selected : Option (PriceEvent A) → Option (OraclePrice A)
  selected none = none
  selected (some e) = some (oracle_price_of e)

  -- `latest` is the row that the database finds first, ordered by time with the latest before, among
  -- the rows that match.
  unfoldable pub get_latest_oracle_price :
      (latest : List (PriceEvent A) → Option (PriceEvent A))
      → String
      → Option (List (PriceEvent A))
      → Option (OraclePrice A)
  get_latest_oracle_price latest credit none = none
  get_latest_oracle_price latest credit (some table) =
      selected (latest (filter (is_oracle_price credit) table))
