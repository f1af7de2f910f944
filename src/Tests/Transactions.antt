-- ===== src/Tests/Transactions.antt =====
-- A network that finds each transaction at the third look; its state is the number of calls.
use stellar_kraal_backend.Prelude.{
  ltb, if◌then◌else◌, find, ℕ, ◌+◌, String, ◌≡◌, refl, ◌↔◌, inr, false, Option, none, some, List,
  [], ◌∷◌,
}
use stellar_kraal_backend.Retirement.{
  RetirementTarget, RetirementChunkResult, retire_chunks, chunk_array, retire_loans_on_chain,
  success,
}
use stellar_kraal_backend.Transactions.Retirements.{
  submission, AllBacked, retire_loans-IsBacked, submit_retirement_chunk,
}
use stellar_kraal_backend.Number.Cents.{cents}
use stellar_kraal_backend.Database.{Database, Loan, active}
use stellar_kraal_backend.Transactions.{
  Rpc, ServerEnv, accepted, simulated, success, not_found, wait, wait_for_transaction,
  invoke_contract, mint_collateral, network_passphrase, InvokeError,
}
use stellar_kraal_backend.Transactions.Loans.{NativeLoan}
use stellar_kraal_backend.Transactions.Confirmation.{
  ConfirmedWithin, LooksWithin, wait_for_transaction_iff,
}
use stellar_kraal_backend.Transactions.Invocation.{CalledAs, invoke_contract-confirmed}

run : Unit {0}
unfolding retire_loans_on_chain retire_chunks chunk_array submit_retirement_chunk invoke_contract
    mint_collateral wait network_passphrase find
run = tt

abbrev network : Rpc ℕ
network = record {
  get_account = λ key w. (some 7, w + 1);
  get_latest_ledger = λ w. (some 1000, w + 1);
  simulate_transaction = λ call w. (some (simulated 5 none), w + 1);
  send_transaction = λ call resources secret w. (some (accepted "h1"), w + 1);
  get_transaction = λ hash w. (if ltb 6 w then some success else some not_found, w + 1);
  sleep = λ ms w. w;
}

abbrev server : ServerEnv
server = record {
  secret_key = "S";
  public_key = "G";
  contract_id = "C";
  stellar_network = "testnet";
  base_fee = 100;
}

mint_test : mint_collateral network (λ a. a) server "TAG-7" "GA" 5 0 ≡ (inr "h1", 8)
unfolding run
mint_test = refl

wait_for_transaction_iff_example :
    LooksWithin network 3000 "h1" 20 4 (wait_for_transaction network "h1" 4).1
    × (((wait_for_transaction network "h1" 4).0 ≡ inr "h1")
        ↔ (◌≡◌ {A = String} "h1" "h1" × ConfirmedWithin network 3000 "h1" 20 4))
wait_for_transaction_iff_example = wait_for_transaction_iff network "h1" "h1" 4

invoke_contract-confirmed_example :
    ((invoke_contract network server "f" [] 0).0 ≡ inr "h1")
    ↔ CalledAs network server "f" [] "h1" (network.get_account "G" 0)
invoke_contract-confirmed_example = invoke_contract-confirmed network server "f" [] "h1" 0

abbrev loan : Loan ℕ
loan = record {
  id = "l1";
  contract_loan_id = "L1";
  borrower_id = "u1";
  livestock_id = "a1";
  principal = 100;
  interest_rate_bps = 500;
  duration_days = 90;
  status = active;
  created_on_chain_at = none;
  repaid_at = none;
  liquidated_at = none;
  last_synced_at = none;
  last_event_ledger = none;
}

abbrev lent : Database ℕ
lent = record { users = []; livestock = []; loans = loan ∷ [] }

abbrev undecoded : String → Option (NativeLoan ℕ)
undecoded value = none

abbrev text_of : InvokeError → String
text_of e = "error"

abbrev loans : List RetirementTarget
loans =
    record { id = "l1"; contract_loan_id = "L1" }
    ∷ record { id = "l2"; contract_loan_id = "L2" }
    ∷ record { id = "l3"; contract_loan_id = "L3" }
    ∷ []

abbrev batches : List (List RetirementTarget)
batches =
    (record { id = "l1"; contract_loan_id = "L1" }
      ∷ record { id = "l2"; contract_loan_id = "L2" }
      ∷ [])
    ∷ (record { id = "l3"; contract_loan_id = "L3" } ∷ [])
    ∷ []

abbrev retired : List (List RetirementTarget) → List RetirementChunkResult × ℕ
retired chunks = retire_chunks (submission network server text_of) chunks false 0

batches_test : chunk_array loans 2 ≡ some batches
unfolding run
batches_test = refl

retire_loans-IsBacked_example : AllBacked network server text_of (retired batches).0 0
unfolding run
retire_loans-IsBacked_example =
    retire_loans-IsBacked network server text_of loans 2 0 (retired batches).1 (retired batches).0
      refl
