-- ===== src/Tests/Retirement.antt =====
-- Bulk retirement requests over a chain that counts its transactions and refuses one loan.
use stellar_kraal_backend.Prelude.{
  if◌then◌else◌, find, update, is_blank, contains, has_duplicates, ℕ, ◌+◌, String, ◌≡◌, refl, ap,
  none, some, List, [], ◌∷◌, arith,
}
use stellar_kraal_backend.Database.{Database, Loan, LoanStatus, active, repaid, liquidated}
use stellar_kraal_backend.Retirement.{
  RetirementTarget, RetirementChunkResult, Submission, confirmed, thrown, retire_loans_on_chain,
  retire_chunks, chunk_array,
}
use stellar_kraal_backend.Retirement.OnChain.{IsSequential, all_loan_ids, retire_loans-IsSequential}
use stellar_kraal_backend.Retirement.Handler.{
  Item, text, array, Limits, done, invalid, not_active, bulk_retire_loans, validation_errors,
  targets_of, store_chunks, reports, strings, respond, was_retired, was_failed, was_skipped,
  RetirementResult,
}
use stellar_kraal_backend.Retirement.Outcome.{is_done}
use stellar_kraal_backend.Retirement.Guarantee.{
  IsExecuted, bulk_retire-rejected, bulk_retire-IsExecuted,
}

run : Unit {0}
unfolding bulk_retire_loans retire_loans_on_chain retire_chunks chunk_array validation_errors
    targets_of store_chunks reports strings respond find update contains has_duplicates is_blank
run = tt

chunk_test : chunk_array {A = ℕ} (1 ∷ 2 ∷ 3 ∷ []) 2 ≡ some ((1 ∷ 2 ∷ []) ∷ (3 ∷ []) ∷ [])
unfolding chunk_array
chunk_test = refl

-- The state of the chain is the number of transactions sent; one loan is refused by the contract.
abbrev submit : List String → ℕ → Submission × ℕ
submit ids sent =
    if contains "C2" ids then (thrown "rejected", sent + 1) else (confirmed "tx", sent + 1)

abbrev target : String → String → RetirementTarget
target id contract = record { id = id; contract_loan_id = contract }

abbrev targets : List RetirementTarget
targets = target "a" "C1" ∷ target "b" "C2" ∷ target "c" "C3" ∷ []

retire_loans-IsSequential_example :
    (results : List RetirementChunkResult) × (sent : ℕ) × (retire_loans_on_chain submit targets 1 0
      ≡ some (results, sent))
    × IsSequential results
    × (all_loan_ids results ≡ "a" ∷ "b" ∷ "c" ∷ [])
retire_loans-IsSequential_example = retire_loans-IsSequential submit targets 1 0 (omega arith)

abbrev loan : String → String → LoanStatus → Loan ℕ
loan id contract status = record {
  id = id;
  contract_loan_id = contract;
  borrower_id = "u1";
  livestock_id = "x";
  principal = 100;
  interest_rate_bps = 500;
  duration_days = 90;
  status = status;
  created_on_chain_at = none;
  repaid_at = none;
  liquidated_at = none;
  last_synced_at = none;
  last_event_ledger = none;
}

abbrev table : Database ℕ
table = record {
  users = [];
  livestock = [];
  loans =
      loan "a" "C1" active
      ∷ loan "b" "C2" active
      ∷ loan "c" "C3" active
      ∷ loan "d" "C4" liquidated
      ∷ [];
}

abbrev limits : Limits
limits = record { max_batch_size = 100; max_ops_per_tx = 1 }

abbrev asked : List Item
asked = text "a" ∷ text "b" ∷ text "c" ∷ []

abbrev results : List RetirementResult
results =
    record { loan_id = "a"; status = was_retired; reason = none; tx_hash = some "tx" }
    ∷ record { loan_id = "b"; status = was_failed; reason = some "rejected"; tx_hash = none }
    ∷ record {
      loan_id = "c";
      status = was_skipped;
      reason = some "Skipped: an earlier batch in this request failed on-chain";
      tx_hash = none;
    }
    ∷ []

abbrev after : Database ℕ
after = record {
  users = [];
  livestock = [];
  loans =
      record (loan "a" "C1" active) { status = repaid; repaid_at = some 9; last_synced_at = some 9 }
      ∷ loan "b" "C2" active
      ∷ loan "c" "C3" active
      ∷ loan "d" "C4" liquidated
      ∷ [];
}

bulk_test :
    bulk_retire_loans submit limits 9 "u1" (array asked) table 0
    ≡ (done 207 1 1 1 results, after, 2)
unfolding run
bulk_test = refl

bulk_retire-IsExecuted_example : IsExecuted limits 9 "u1" asked table after 207 1 1 1 results
bulk_retire-IsExecuted_example =
    bulk_retire-IsExecuted submit limits (omega arith) 9 "u1" asked table after 0 2 207 1 1 1
      results bulk_test

rejected_test :
    bulk_retire_loans submit limits 9 "u1" (array (text "a" ∷ text "d" ∷ [])) table 0
    ≡ (invalid (("d", not_active liquidated) ∷ []), table, 0)
unfolding run
rejected_test = refl

bulk_retire-rejected_example :
    ((bulk_retire_loans submit limits 9 "u1" (array (text "a" ∷ text "d" ∷ [])) table 0).1 ≡ table)
    × ((bulk_retire_loans submit limits 9 "u1" (array (text "a" ∷ text "d" ∷ [])) table 0).2 ≡ 0)
bulk_retire-rejected_example =
    bulk_retire-rejected submit limits 9 "u1" (array (text "a" ∷ text "d" ∷ [])) table 0
      (ap (λ t. is_done t.0) rejected_test)
