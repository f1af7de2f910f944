-- ===== src/Prices/Charts.antt =====
-- The answers of src/controllers/price-events.controller.ts that are read from the table.
use stellar_kraal_backend.Prelude.{
  ltb, if◌then◌else◌, or_default, is_some, length, is_blank, parse_int, ℕ, ◌-◌, String, Bool, true,
  false, not, Option, none, some, List, [], ◌∷◌,
}
use stellar_kraal_backend.Loans.{at_most, at_least_one}
use stellar_kraal_backend.Prices.{
  OraclePrice, PriceEvent, get_price_history, get_latest_oracle_price,
}

pub record ChartData (A : Type 0) : Type 0 where
  pub oracle_price : Option (OraclePrice A)
  pub history : List (PriceEvent A)
  pub data_available : Bool
  pub last_updated : Option ℕ
  pub limit : ℕ
  pub count : ℕ

-- `nan_limit` is a `take` of `NaN` given to the database, whose error the service answers with no
-- points; it is kept apart.
pub data ChartResponse (A : Type 0) : Type 0 where
  credit_id_required nan_limit : ChartResponse A
  chart : ChartData A → ChartResponse A

pub record OracleResponse (A : Type 0) : Type 0 where
  pub oracle_price : Option (OraclePrice A)
  pub stale : Bool
  pub unavailable : Bool

unfoldable pub chart_limit : Option String → Option ℕ
unfolding parse_int
chart_limit limit = at_most 1000 (at_least_one (parse_int (or_default limit "200")))

abbrev pub stale_threshold : ℕ
stale_threshold = 3600000

module _ {A : Type 0} where
  abbrev pub last_timestamp : List (PriceEvent A) → Option ℕ
  last_timestamp [] = none
  last_timestamp (e ∷ []) = some e.timestamp
  last_timestamp (e ∷ x ∷ xs) = last_timestamp (x ∷ xs)

  abbrev pub has_events : List (PriceEvent A) → Bool
  has_events [] = false
  has_events (e ∷ es) = true

  abbrev pub is_stale_price : ℕ → Option (OraclePrice A) → Bool
  is_stale_price now none = false
  is_stale_price now (some o) = ltb stale_threshold (now - o.timestamp)

module _ {A : Type 0} (latest : List (PriceEvent A) → Option (PriceEvent A)) where
  unfoldable pub chart_of : String → ℕ → Option (List (PriceEvent A)) → ChartData A
  unfolding get_price_history get_latest_oracle_price
  chart_of credit limit table =
      let history = get_price_history credit limit table in
      record {
        oracle_price = get_latest_oracle_price latest credit table;
        history = history;
        data_available = has_events history;
        last_updated = last_timestamp history;
        limit = limit;
        count = length history;
      }

  abbrev pub charted : String → Option (List (PriceEvent A)) → Option ℕ → ChartResponse A
  charted credit table none = nan_limit
  charted credit table (some limit) = chart (chart_of credit limit table)

  unfoldable pub get_price_chart_data :
      String → Option String → Option (List (PriceEvent A)) → ChartResponse A
  unfolding chart_limit chart_of is_blank
  get_price_chart_data credit limit table =
      if is_blank credit then credit_id_required else charted credit table (chart_limit limit)

  unfoldable pub get_oracle_price :
      ℕ → String → Option (List (PriceEvent A)) → Option (OracleResponse A)
  unfolding get_latest_oracle_price is_blank
  get_oracle_price now credit table =
      if is_blank credit
      then none
      else some (record {
        oracle_price = get_latest_oracle_price latest credit table;
        stale = is_stale_price now (get_latest_oracle_price latest credit table);
        unavailable = not (is_some (get_latest_oracle_price latest credit table));
      })
