-- ===== src/Tests/Lending.antt =====
-- One animal, registered, minted and offered as collateral.
use stellar_kraal_backend.Prelude.{
  length, concat, find, ℕ, ◌+◌, ◌≤◌, String, ◌≡◌, refl, ◌≢◌, ◌↔◌, ◌⊎◌, none, some, List, [], ◌∷◌,
  map,
}
use stellar_kraal_backend.Number.Cents.{cents}
use stellar_kraal_backend.Database.{
  Database, Livestock, Loan, Environment, farmer, active, repaid, LoanStatus, verified, appraised,
  rejected, has_livestock_id,
}
use stellar_kraal_backend.Appraisal.{LivestockMetadata, AppraisalResult, Appraised, ok}
use stellar_kraal_backend.Auth.Login.{TokenPayload}
use stellar_kraal_backend.Livestock.{
  JsonText, RegisterBody, CheckedBody, UpdateBody, registered, animal_type, health_status_of, text,
}
use stellar_kraal_backend.Livestock.Registration.{
  register_livestock, checked_body, metadata_of, mint_settled,
}
use stellar_kraal_backend.Livestock.Outcome.{register_livestock-outcome, IsRefused, IsSettled}
use stellar_kraal_backend.Livestock.Checks.{IsChecked}
use stellar_kraal_backend.Indexer.{SorobanEvent, named}
use stellar_kraal_backend.Retirement.{Submission, confirmed}
use stellar_kraal_backend.Retirement.Handler.{Limits, array, text}
use stellar_kraal_backend.Loans.{market_page, view, active_loans, page_limit}
use stellar_kraal_backend.Loans.Market.{numbers, WithinLimits, market_pages_complete}
use stellar_kraal_backend.Loans.Request.{
  LoanRequest, LoanParams, request_loan, to_submit, not_yet_verified,
}
use stellar_kraal_backend.Loans.Acceptance.{Acceptable, request_loan-submit_iff}
use stellar_kraal_backend.Lifecycle.{
  Action, registers, mint_ends, edits, indexes, retires, run, any_vouches,
}
use stellar_kraal_backend.Lifecycle.Verification.{run-keeps_row, unvouched-refused}
use stellar_kraal_backend.Lifecycle.Lending.{register-request, request_of}

computed : Unit {0}
unfolding register_livestock checked_body metadata_of animal_type health_status_of request_loan find
    any_vouches page_limit
computed = tt

abbrev json : JsonText ℕ
json = record { stringify = λ fields. "{}"; parse_object = λ s. [] }

abbrev value : AppraisalResult ℕ
value = record {
  market_value = 121320;
  collateral_value = 84924;
  ltv_ratio = 70;
  confidence = 50;
  breakdown = record {
    base_price = 134800;
    weight_adjustment = 0;
    age_multiplier = 100;
    health_multiplier = 90;
  };
}

abbrev flat_price : LivestockMetadata ℕ → Appraised ℕ
flat_price m = ok value

abbrev keeper : TokenPayload
keeper = record { sub = "u1"; public_key = "GA"; role = farmer }

abbrev offered : RegisterBody ℕ
offered = record {
  animal_id = some "TAG-7";
  type = some "CATTLE";
  breed = some "angus";
  weight_kg = some 40000;
  age_months = some 3600;
  health_status = some "GOOD";
  image_url = none;
  location = some "";
}

abbrev env : Environment
env = record { now = 1000; cuid = "a1" }

abbrev empty : Database ℕ
empty = record { users = []; livestock = []; loans = [] }

abbrev row : Livestock ℕ
row = record {
  id = "a1";
  animal_id = "TAG-7";
  owner_id = "u1";
  metadata = "{}";
  appraised_value = some 84924;
  appraisal_tx_hash = none;
  verification_status = appraised;
}

abbrev kraal : Database ℕ
kraal = record { users = []; livestock = row ∷ []; loans = [] }

abbrev asked : LoanRequest ℕ
asked = request_of "a1" 50000 9000

register_livestock-outcome_example :
    IsRefused json flat_price env keeper offered empty
      (register_livestock json flat_price env keeper offered empty)
    ⊎ ((c : CheckedBody ℕ) × IsChecked offered c
        × IsSettled json flat_price env keeper offered empty c
            (register_livestock json flat_price env keeper offered empty))
register_livestock-outcome_example =
    register_livestock-outcome json flat_price env keeper offered empty

registered_test : register_livestock json flat_price env keeper offered empty ≡ (
  registered row value,
  kraal,
  some (record {
    livestock_id = "a1";
    animal_id = "TAG-7";
    owner_public_key = "GA";
    appraised_value = 84924;
  }),
)
unfolding computed
registered_test = refl

register-request_example :
    (request_loan keeper asked (register_livestock json flat_price env keeper offered empty).1
      ≡ not_yet_verified appraised)
    × (request_loan keeper asked
          (mint_settled "a1" none (register_livestock json flat_price env keeper offered empty).1)
        ≡ not_yet_verified rejected)
    × (request_loan keeper asked (
          mint_settled "a1"
            (some "tx")
            (register_livestock json flat_price env keeper offered empty).1)
        ≡ to_submit (record {
          borrower = "GA";
          collateral_id = "TAG-7";
          principal = 50000;
          duration_days = 9000;
        }))
unfolding computed
register-request_example =
    register-request json flat_price env keeper offered empty row value 50000 9000 "tx"
      (refl, refl, refl, refl, refl) refl refl refl

abbrev wanted : LoanParams ℕ
wanted = record {
  borrower = "GA";
  collateral_id = "TAG-7";
  principal = 50000;
  duration_days = 9000;
}

request_loan-submit_iff_example :
    (request_loan keeper asked kraal ≡ to_submit wanted) ↔ Acceptable keeper asked kraal wanted
request_loan-submit_iff_example = request_loan-submit_iff keeper asked kraal wanted

abbrev chain : List String → ℕ → Submission × ℕ
chain ids sent = (confirmed "tx", sent + 1)

abbrev limits : Limits
limits = record { max_batch_size = 50; max_ops_per_tx = 10 }

abbrev claimed : UpdateBody
claimed = record { image_url = none; location = some "Kano"; verification_status = some verified }

abbrev stray : SorobanEvent ℕ
stray = record { ledger = 12; topic = named "LoanCreated"; value = none }

abbrev history : List (Action ℕ ℕ)
history =
    edits keeper "a1" claimed
    ∷ mint_ends "a1" none
    ∷ mint_ends "a2" (some "tx")
    ∷ registers env keeper offered
    ∷ indexes env stray
    ∷ retires 2000 "u1" (array (text "l1" ∷ [])) 0
    ∷ []

run-keeps_row_example :
    (l' : Livestock ℕ) × (find
        (has_livestock_id "a1")
        (run json flat_price chain limits history kraal).livestock
      ≡ some l')
    × (l'.animal_id ≡ row.animal_id)
    × (l'.owner_id ≡ row.owner_id)
    × (l'.appraised_value ≡ row.appraised_value)
unfolding computed
run-keeps_row_example = run-keeps_row json flat_price chain limits history "a1" kraal row refl

unvouched-refused_example :
    request_loan keeper asked (run json flat_price chain limits history kraal) ≢ to_submit wanted
unfolding computed
unvouched-refused_example =
    unvouched-refused json flat_price chain limits history "a1" kraal row keeper asked wanted refl
      refl refl refl

abbrev loan : String → LoanStatus → Loan ℕ
loan id status = record {
  id = id;
  contract_loan_id = id;
  borrower_id = "u1";
  livestock_id = "a1";
  principal = 100;
  interest_rate_bps = 500;
  duration_days = 90;
  status = status;
  created_on_chain_at = none;
  repaid_at = none;
  liquidated_at = none;
  last_synced_at = none;
  last_event_ledger = none;
}

abbrev market : Database ℕ
market = record {
  users = [];
  livestock = row ∷ [];
  loans = loan "l1" active ∷ loan "l2" repaid ∷ loan "l3" active ∷ loan "l4" active ∷ [];
}

market_pages_complete_example :
    WithinLimits 2
    × ((p : ℕ) → length (market_page p 2 market).loans ≤ 2)
    × (concat (
          map
            (λ p. (market_page p 2 market).loans)
            (numbers 1 (market_page 1 2 market).total_pages))
        ≡ map (view market) (active_loans market))
unfolding computed
market_pages_complete_example = market_pages_complete (some "2x") 2 market refl
