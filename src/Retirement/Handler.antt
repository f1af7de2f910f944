-- ===== src/Retirement/Handler.antt =====
-- `bulkRetireLoans` of src/controllers/retirements.controller.ts. `loanById`, a map of the rows that
-- `findMany` returns, is read as a search of the table by identifier. Dates of one request are one
-- clock value.
use stellar_kraal_backend.Prelude.{
  ltb, ◌==◌, if◌then◌else◌, length, count, cons_option, find, update, is_blank, contains,
  has_duplicates, ℕ, String, Bool, true, false, ◌&&◌, Option, none, some, List, [], ◌∷◌, ◌++◌, map,
  str_eq,
}
use stellar_kraal_backend.Database.{Database, Loan, LoanStatus, repaid, is_active}
use stellar_kraal_backend.Retirement.{
  RetirementTarget, RetirementChunkResult, Submission, retire_loans_on_chain, success, failed,
  skipped, RetirementChunkStatus,
}

-- An element of the JSON array `loanIds`.
pub data Item : Type 0 where
  text : String → Item
  other : Item

pub data LoanIds : Type 0 where
  not_array : LoanIds
  array : List Item → LoanIds

pub data Reason : Type 0 where
  not_found not_borrower : Reason
  not_active : LoanStatus → Reason

pub data RetirementOutcome : Type 0 where
  was_retired was_failed was_skipped : RetirementOutcome

pub record RetirementResult : Type 0 where
  pub loan_id : String
  pub status : RetirementOutcome
  pub reason : Option String
  pub tx_hash : Option String

pub record Limits : Type 0 where
  pub max_batch_size : ℕ
  pub max_ops_per_tx : ℕ

pub data Response : Type 0 where
  bad_request : Response
  too_large : ℕ → Response
  duplicates : Response
  invalid : List (String × Reason) → Response
  done : (status : ℕ) (retired failed skipped : ℕ) → List RetirementResult → Response
  -- The request does not return.
  diverged : Response

-- `loanIds.every((id) => typeof id === 'string' && id.trim().length > 0)`, with the strings.
unfoldable pub strings : List Item → Option (List String)
strings [] = some []
strings (other ∷ rest) = none
strings (text s ∷ rest) = if is_blank s then none else cons_option s (strings rest)

abbrev pub is_retired : RetirementOutcome → Bool
is_retired was_retired = true
is_retired _ = false

abbrev pub is_failed : RetirementOutcome → Bool
is_failed was_failed = true
is_failed _ = false

abbrev pub is_skipped : RetirementOutcome → Bool
is_skipped was_skipped = true
is_skipped _ = false

abbrev pub push_error : String → Option Reason → List (String × Reason) → List (String × Reason)
push_error id none errors = errors
push_error id (some reason) errors = (id, reason) ∷ errors

module _ {A : Type 0} where
  abbrev pub has_id : String → Loan A → Bool
  has_id id l = str_eq l.id id

  abbrev pub reason_for : String → Option (Loan A) → Option Reason
  reason_for user none = some not_found
  reason_for user (some l) =
      if str_eq l.borrower_id user
      then (if is_active l.status then none else some (not_active l.status))
      else some not_borrower

  unfoldable pub validation_errors : Database A → String → List String → List (String × Reason)
  validation_errors db user [] = []
  validation_errors db user (id ∷ ids) =
      push_error id (reason_for user (find (has_id id) db.loans)) (validation_errors db user ids)

  abbrev pub push_target : Option (Loan A) → List RetirementTarget → List RetirementTarget
  push_target none targets = targets
  push_target (some l) targets =
      record { id = l.id; contract_loan_id = l.contract_loan_id } ∷ targets

  unfoldable pub targets_of : Database A → List String → List RetirementTarget
  targets_of db [] = []
  targets_of db (id ∷ ids) = push_target (find (has_id id) db.loans) (targets_of db ids)

  abbrev pub retire : ℕ → Loan A → Loan A
  retire now l = record l { status = repaid; repaid_at = some now; last_synced_at = some now }

  -- The `updateMany` for a chunk, and the results that it reports.
  abbrev pub store_chunk : ℕ → RetirementChunkStatus → List String → Database A → Database A
  store_chunk now success ids db = record db {
    loans = update (λ l. contains l.id ids) (retire now) db.loans;
  }
  store_chunk now failed ids db = db
  store_chunk now skipped ids db = db

  unfoldable pub store_chunks : ℕ → List RetirementChunkResult → Database A → Database A
  store_chunks now [] db = db
  store_chunks now (r ∷ rs) db = store_chunks now rs (store_chunk now r.status r.loan_ids db)

abbrev pub report : RetirementChunkResult → RetirementChunkStatus → String → RetirementResult
report r success id = record {
  loan_id = id;
  status = was_retired;
  reason = none;
  tx_hash = r.tx_hash;
}
report r failed id = record { loan_id = id; status = was_failed; reason = r.error; tx_hash = none }
report r skipped id = record {
  loan_id = id;
  status = was_skipped;
  reason = r.error;
  tx_hash = none;
}

unfoldable pub reports : List RetirementChunkResult → List RetirementResult
reports [] = []
reports (r ∷ rs) = map (report r r.status) r.loan_ids ++ reports rs

-- The summary, and status 200 only if nothing failed and nothing was skipped.
unfoldable pub respond : List RetirementResult → Response
respond results =
    let retired = count (λ r. is_retired r.status) results in
    let failed = count (λ r. is_failed r.status) results in
    let skipped = count (λ r. is_skipped r.status) results in
    done (if failed == 0 && skipped == 0 then 200 else 207) retired failed skipped results

module _ {A W : Type 0} (submit : List String → W → Submission × W) (limits : Limits) where
  abbrev pub finish :
      ℕ → Database A → W → Option (List RetirementChunkResult × W) → Response × Database A × W
  finish now db w none = (diverged, db, w)
  finish now db w (some (chunks, w')) = (respond (reports chunks), store_chunks now chunks db, w')

  abbrev pub execute :
      ℕ → List String → Database A → W → List (String × Reason) → Response × Database A × W
  execute now ids db w (e ∷ es) = (invalid (e ∷ es), db, w)
  execute now ids db w [] =
      finish now db w (retire_loans_on_chain submit (targets_of db ids) limits.max_ops_per_tx w)

  unfoldable pub retire_strings :
      ℕ → String → List String → Database A → W → Response × Database A × W
  unfolding validation_errors targets_of
  retire_strings now user ids db w =
      if ltb limits.max_batch_size (length ids)
      then (too_large (length ids), db, w)
      else if has_duplicates ids
      then (duplicates, db, w)
      else execute now ids db w (validation_errors db user ids)

  abbrev pub retire_items :
      ℕ → String → Option (List String) → Database A → W → Response × Database A × W
  retire_items now user none db w = (bad_request, db, w)
  retire_items now user (some ids) db w = retire_strings now user ids db w

  unfoldable pub bulk_retire_loans :
      ℕ → String → LoanIds → Database A → W → Response × Database A × W
  unfolding retire_strings
  bulk_retire_loans now user not_array db w = (bad_request, db, w)
  bulk_retire_loans now user (array []) db w = (bad_request, db, w)
  bulk_retire_loans now user (array (i ∷ is)) db w = retire_items now user (strings (i ∷ is)) db w
