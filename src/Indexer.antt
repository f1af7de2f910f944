-- ===== src/Indexer.antt =====
-- The event indexer of src/services/soroban.service.ts: what a poll does to the database. A value
-- that `scValToNative` decodes is given decoded, and `none` where it throws. The database fails
-- only as the schema makes it fail (an update of a row that is not there); the handlers catch that.
pub mod Handlers
pub mod History
pub mod Replay
pub mod Cursor
pub mod Effects
use stellar_kraal_backend.Prelude.{
  leb, if◌then◌else◌, find, update, ℕ, max, ◌+◌, String, Bool, true, false, ◌||◌, Option, none,
  some, List, [], ◌∷◌, ◌++◌, str_eq,
}
use stellar_kraal_backend.Number.{Arith, whole}
use stellar_kraal_backend.Database.{
  Database, Loan, Livestock, User, Environment, LoanStatus, active, repaid, liquidated, verified,
  find_loan, has_public_key, has_contract_loan_id, has_animal_id, has_livestock_id,
}

pub record Payload (A : Type 0) : Type 0 where
  pub loan_id : String
  pub borrower : String
  pub principal : A
  pub interest_rate_bps : ℕ
  pub duration_days : ℕ
  pub collateral_id : String

-- The first topic: absent, not decodable, or the event's name.
pub data Topic : Type 0 where
  absent undecodable : Topic
  named : String → Topic

pub record SorobanEvent (A : Type 0) : Type 0 where
  pub ledger : ℕ
  pub topic : Topic
  pub value : Option (Payload A)

pub data StatusChange : Type 0 where
  to_repaid to_liquidated : StatusChange

pub record Indexer (A : Type 0) : Type 0 where
  pub database : Database A
  pub current_start_ledger : ℕ

-- The event is not newer than the last one that was processed for the loan.
abbrev pub is_replayed : ℕ → Option ℕ → Bool
is_replayed ledger none = false
is_replayed ledger (some last) = leb ledger last

abbrev pub is_terminal : LoanStatus → Bool
is_terminal active = false
is_terminal _ = true

module _ {A : Type 0} ⦃n : Arith A⦄ where
  abbrev pub touch : Environment → ℕ → Loan A → Loan A
  touch env ledger l = record l {
    status = active;
    last_synced_at = some env.now;
    last_event_ledger = some ledger;
  }

  abbrev pub created_loan : Environment → ℕ → Payload A → User → Livestock A → Loan A
  created_loan env ledger d borrower livestock = record {
    id = env.cuid;
    contract_loan_id = d.loan_id;
    borrower_id = borrower.id;
    livestock_id = livestock.id;
    principal = n.div d.principal (whole 10000000);
    interest_rate_bps = d.interest_rate_bps;
    duration_days = d.duration_days;
    status = active;
    created_on_chain_at = some env.now;
    repaid_at = none;
    liquidated_at = none;
    last_synced_at = some env.now;
    last_event_ledger = some ledger;
  }

  -- `prisma.loan.upsert`
  abbrev pub upsert_loan :
      Environment → ℕ → Payload A → User → Livestock A → Option (Loan A) → Database A → Database A
  upsert_loan env ledger d borrower livestock none db = record db {
    loans = db.loans ++ created_loan env ledger d borrower livestock ∷ [];
  }
  upsert_loan env ledger d borrower livestock (some _) db = record db {
    loans = update (has_contract_loan_id d.loan_id) (touch env ledger) db.loans;
  }

  -- The look-ups of the borrower and of the livestock; without either, nothing is written.
  abbrev pub with_parties :
      Environment
      → ℕ
      → Payload A
      → Option (Loan A)
      → Database A
      → Option User
      → Option (Livestock A)
      → Database A
  with_parties env ledger d existing db (some borrower) (some livestock) =
      upsert_loan env ledger d borrower livestock existing db
  with_parties env ledger d existing db _ _ = db

  abbrev pub blocks_creation : ℕ → Option (Loan A) → Bool
  blocks_creation ledger none = false
  blocks_creation ledger (some l) = is_replayed ledger l.last_event_ledger || is_terminal l.status

  unfoldable pub create_from : Environment → ℕ → Payload A → Database A → Database A
  create_from env ledger d db =
      if blocks_creation ledger (find_loan d.loan_id db)
      then db
      else with_parties env ledger d (find_loan d.loan_id db) db
          (find (has_public_key d.borrower) db.users)
          (find (has_animal_id d.collateral_id) db.livestock)

  abbrev pub handle_loan_created :
      Environment → SorobanEvent A → Option (Payload A) → Database A → Database A
  handle_loan_created env event none db = db
  handle_loan_created env event (some d) db = create_from env event.ledger d db

  abbrev pub changed : Environment → ℕ → StatusChange → Loan A → Loan A
  changed env ledger to_repaid l = record l {
    status = repaid;
    last_synced_at = some env.now;
    last_event_ledger = some ledger;
    repaid_at = some env.now;
  }
  changed env ledger to_liquidated l = record l {
    status = liquidated;
    last_synced_at = some env.now;
    last_event_ledger = some ledger;
    liquidated_at = some env.now;
  }

  abbrev pub mark_verified : Livestock A → Livestock A
  mark_verified l = record l { verification_status = verified }

  -- A liquidation marks the collateral as verified again.
  abbrev pub release_collateral : StatusChange → Loan A → List (Livestock A) → List (Livestock A)
  release_collateral to_repaid loan table = table
  release_collateral to_liquidated loan table =
      update (has_livestock_id loan.livestock_id) mark_verified table

  abbrev pub changed_table :
      Environment → ℕ → StatusChange → String → Loan A → Database A → Database A
  changed_table env ledger change id loan db = record db {
    loans = update (has_contract_loan_id id) (changed env ledger change) db.loans;
    livestock = release_collateral change loan db.livestock;
  }

  -- Without a loan `prisma.loan.update` throws, and the handler catches it.
  abbrev pub change_found :
      Environment → ℕ → StatusChange → String → Option (Loan A) → Database A → Database A
  change_found env ledger change id none db = db
  change_found env ledger change id (some loan) db =
      if is_replayed ledger loan.last_event_ledger then db else record db {
        loans = update (has_contract_loan_id id) (changed env ledger change) db.loans;
        livestock = release_collateral change loan db.livestock;
      }

  unfoldable pub change_status : Environment → ℕ → StatusChange → String → Database A → Database A
  change_status env ledger change id db = change_found env ledger change id (find_loan id db) db

  abbrev pub handle_loan_status_change :
      Environment → SorobanEvent A → StatusChange → Option (Payload A) → Database A → Database A
  handle_loan_status_change env event change none db = db
  handle_loan_status_change env event change (some d) db =
      change_status env event.ledger change d.loan_id db

  abbrev pub dispatch_event : Environment → SorobanEvent A → Topic → Database A → Database A
  dispatch_event env event absent db = db
  dispatch_event env event undecodable db = db
  dispatch_event env event (named name) db =
      if str_eq name "LoanCreated"
      then handle_loan_created env event event.value db
      else if str_eq name "LoanRepaid"
      then handle_loan_status_change env event to_repaid event.value db
      else if str_eq name "AssetLiquidated"
      then handle_loan_status_change env event to_liquidated event.value db
      else db

  unfoldable pub process_event : Environment → SorobanEvent A → Database A → Database A
  process_event env event db = dispatch_event env event event.topic db

  abbrev pub poll_one : Environment → SorobanEvent A → Indexer A → Indexer A
  poll_one env event s = record {
    database = process_event env event s.database;
    current_start_ledger = max s.current_start_ledger (event.ledger + 1);
  }

  -- The loop of `pollEvents` over a response of `getEvents`, each event at its own time.
  unfoldable pub poll_events : List (Environment × SorobanEvent A) → Indexer A → Indexer A
  poll_events [] s = s
  poll_events ((env, event) ∷ rest) s = poll_events rest (record {
    database = process_event env event s.database;
    current_start_ledger = max s.current_start_ledger (event.ledger + 1);
  })
