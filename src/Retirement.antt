-- ===== src/Retirement.antt =====
-- Bulk retirement: `retireLoansOnChain` and `chunkArray` of src/services/soroban.service.ts, and
-- the handler of src/controllers/retirements.controller.ts. Submitting one transaction is the
-- argument `submit`, over any type of states of the chain.
pub mod Chunks
pub mod OnChain
pub mod Outcome
pub mod Guarantee
pub mod Handler
use stellar_kraal_backend.Prelude.{
  ltb, if◌then◌else◌, length, take, drop, cons_option, ℕ, zero, suc, ◌+◌, String, Bool, true, false,
  Option, none, some, List, [], ◌∷◌, map,
}

-- One round of the loop for each unit of fuel; `none` means that the fuel ran out.
unfoldable pub chunk_from {ℓ} : {A : Type ℓ} → ℕ → List A → ℕ → ℕ → Option (List (List A))
chunk_from zero items size i = none
chunk_from (suc fuel) items size i =
    let rest = chunk_from fuel items size (i + size) in
    if ltb i (length items) then cons_option (take size (drop i items)) rest else some []

-- The loop ends after at most as many rounds as there are items, if the size is not 0.
unfoldable pub chunk_array {ℓ} : {A : Type ℓ} → List A → ℕ → Option (List (List A))
unfolding chunk_from
chunk_array items size = chunk_from (suc (length items)) items size 0

pub data RetirementChunkStatus : Type 0 where
  success failed skipped : RetirementChunkStatus

pub record RetirementTarget : Type 0 where
  pub id : String
  pub contract_loan_id : String

pub record RetirementChunkResult : Type 0 where
  pub loan_ids : List String
  pub contract_loan_ids : List String
  pub status : RetirementChunkStatus
  pub tx_hash : Option String
  pub error : Option String

-- What `submitRetirementChunk` does: returns a transaction hash, or throws with a message.
pub data Submission : Type 0 where
  confirmed thrown : String → Submission

abbrev pub aborts : Submission → Bool
aborts (confirmed tx_hash) = false
aborts (thrown message) = true

abbrev pub loan_ids_of : List RetirementTarget → List String
loan_ids_of = map (λ t. t.id)

abbrev pub contract_ids_of : List RetirementTarget → List String
contract_ids_of = map (λ t. t.contract_loan_id)

abbrev pub skipped_result : List RetirementTarget → RetirementChunkResult
skipped_result chunk = record {
  loan_ids = loan_ids_of chunk;
  contract_loan_ids = contract_ids_of chunk;
  status = skipped;
  tx_hash = none;
  error = some "Skipped: an earlier batch in this request failed on-chain";
}

abbrev pub submitted_result : List RetirementTarget → Submission → RetirementChunkResult
submitted_result chunk (confirmed tx_hash) = record {
  loan_ids = loan_ids_of chunk;
  contract_loan_ids = contract_ids_of chunk;
  status = success;
  tx_hash = some tx_hash;
  error = none;
}
submitted_result chunk (thrown message) = record {
  loan_ids = loan_ids_of chunk;
  contract_loan_ids = contract_ids_of chunk;
  status = failed;
  tx_hash = none;
  error = some message;
}

module _ {W : Type 0} (submit : List String → W → Submission × W) where
  -- The loop of `retireLoansOnChain`, whose flag `aborted` is the second argument.
  unfoldable pub retire_chunks :
      List (List RetirementTarget) → Bool → W → List RetirementChunkResult × W
  retire_chunks [] aborted w = ([], w)
  retire_chunks (chunk ∷ chunks) true w =
      let (results, w') = retire_chunks chunks true w in (skipped_result chunk ∷ results, w')
  retire_chunks (chunk ∷ chunks) false w =
      let (out, w') = submit (contract_ids_of chunk) w in
      let (results, w'') = retire_chunks chunks (aborts out) w' in
      (submitted_result chunk out ∷ results, w'')

  abbrev pub retire_in :
      Option (List (List RetirementTarget)) → W → Option (List RetirementChunkResult × W)
  retire_in none w = none
  retire_in (some chunks) w = some (retire_chunks chunks false w)

  -- `none` means that `chunkArray` does not return.
  unfoldable pub retire_loans_on_chain :
      List RetirementTarget → ℕ → W → Option (List RetirementChunkResult × W)
  unfolding retire_chunks chunk_array
  retire_loans_on_chain loans max_ops_per_chunk w =
      retire_in (chunk_array loans max_ops_per_chunk) w
