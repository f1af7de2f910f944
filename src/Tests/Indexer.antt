-- ===== src/Tests/Indexer.antt =====
-- A short chain history, indexed.
use stellar_kraal_backend.Prelude.{
  find, update, ℕ, String, ◌≡◌, refl, ◌≢◌, none, some, List, [], ◌∷◌, arith, str_eq,
}
use stellar_kraal_backend.Number.Cents.{cents}
use stellar_kraal_backend.Database.{
  farmer, appraised, Database, User, Livestock, Loan, Environment, repaid, find_loan, verified,
  liquidated,
}
use stellar_kraal_backend.Indexer.{
  Payload, named, SorobanEvent, Indexer, process_event, poll_events, created_loan, create_from,
  change_status,
}
use stellar_kraal_backend.Indexer.Handlers.{Advances}
use stellar_kraal_backend.Indexer.History.{poll_events-Advances}
use stellar_kraal_backend.Indexer.Replay.{process_event_idempotent}
use stellar_kraal_backend.Indexer.Effects.{liquidation-effect}

run : Unit {0}
unfolding poll_events process_event create_from change_status find update
run = tt

abbrev at_time : ℕ → Environment
at_time t = record { now = t; cuid = "loan-1" }

abbrev terms : Payload ℕ
terms = record {
  loan_id = "L1";
  borrower = "GA";
  principal = 50000000000;
  interest_rate_bps = 500;
  duration_days = 90;
  collateral_id = "TAG-7";
}

abbrev event : String → ℕ → SorobanEvent ℕ
event name ledger = record { ledger = ledger; topic = named name; value = some terms }

abbrev owner : User
owner = record { id = "u1"; public_key = "GA"; role = farmer }

abbrev cow : Livestock ℕ
cow = record {
  id = "a1";
  animal_id = "TAG-7";
  owner_id = "u1";
  metadata = "{}";
  appraised_value = some 84924;
  appraisal_tx_hash = none;
  verification_status = appraised;
}

abbrev empty : Database ℕ
empty = record { users = owner ∷ []; livestock = cow ∷ []; loans = [] }

abbrev start : Indexer ℕ
start = record { database = empty; current_start_ledger = 0 }

abbrev loan : Loan ℕ
loan = created_loan (at_time 1000) 12 terms owner cow

abbrev lent : Database ℕ
lent = record { users = owner ∷ []; livestock = cow ∷ []; loans = loan ∷ [] }

abbrev history : List (Environment × SorobanEvent ℕ)
history =
    (at_time 1000, event "LoanCreated" 12)
    ∷ (at_time 1001, event "Unknown" 12)
    ∷ (at_time 2000, event "LoanRepaid" 30)
    ∷ (at_time 2001, event "LoanCreated" 12)
    ∷ []

history_test :
    find_loan "L1" (poll_events history start).database
    ≡ some (record loan {
      status = repaid;
      repaid_at = some 2000;
      last_synced_at = some 2000;
      last_event_ledger = some 30;
    })
unfolding run
history_test = refl

poll_events-Advances_example :
    (l' : Loan ℕ) × (find_loan "L1"
        (poll_events history (record { database = lent; current_start_ledger = 5 })).database
      ≡ some l')
    × Advances loan l'
unfolding run
poll_events-Advances_example =
    poll_events-Advances history (record { database = lent; current_start_ledger = 5 }) "L1" loan
      refl

process_event_idempotent_example :
    process_event
      (at_time 9)
      (event "LoanCreated" 12)
      (process_event (at_time 1) (event "LoanCreated" 12) empty)
    ≡ process_event (at_time 1) (event "LoanCreated" 12) empty
process_event_idempotent_example =
    process_event_idempotent (at_time 1) (at_time 9) (event "LoanCreated" 12) empty

liquidation-effect_example :
    let db = process_event (at_time 5000) (event "AssetLiquidated" 40) lent in
    (find_loan "L1" db
      ≡ some (record loan {
        status = liquidated;
        last_synced_at = some 5000;
        last_event_ledger = some 40;
        liquidated_at = some 5000;
      }))
    × (find (λ (l : Livestock ℕ). str_eq l.id "a1") db.livestock
        ≡ some (record cow { verification_status = verified }))
    × ((c : String) → "L1" ≢ c → find_loan c db ≡ find_loan c lent)
    × ((i : String)
        → "a1" ≢ i
        → find (λ (l : Livestock ℕ). str_eq l.id i) db.livestock
          ≡ find (λ (l : Livestock ℕ). str_eq l.id i) lent.livestock)
    × (db.users ≡ lent.users)
unfolding run
liquidation-effect_example =
    liquidation-effect (at_time 5000) (event "AssetLiquidated" 40) terms lent loan cow refl refl
      refl (omega arith) refl
