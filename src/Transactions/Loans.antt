-- ===== src/Transactions/Loans.antt =====
-- `getLoanState` of src/services/soroban.service.ts, and `getLoanById` of
-- src/controllers/loans.controller.ts, which asks it.
use stellar_kraal_backend.Prelude.{
  if◌then◌else◌, is_some, find, ℕ, String, ◌≡◌, refl, ◌⊎◌, inl, inr, Bool, true, false, not, ◌&&◌,
  ◌||◌, Option, none, some, [], ◌∷◌, str_eq,
}
use stellar_kraal_backend.Number.{Arith, whole}
use stellar_kraal_backend.Database.{Database, Loan}
use stellar_kraal_backend.Loans.{LoanView, view}
use stellar_kraal_backend.Transactions.{
  Rpc, ServerEnv, BuiltTransaction, Simulation, simulation_error, simulated, string_value,
  network_passphrase,
}

-- The fields of the value that the contract returns, with its numbers.
pub record NativeLoan (A : Type 0) : Type 0 where
  pub borrower : String
  pub principal : A
  pub interest_rate_bps : A
  pub status : String
  pub duration_days : A

pub record OnChainLoanState (A : Type 0) : Type 0 where
  pub loan_id : String
  pub borrower : String
  pub principal : A
  pub interest_rate_bps : A
  pub status : String
  pub duration_days : A

pub data LoanResponse (A : Type 0) : Type 0 where
  loan_not_found : LoanResponse A
  loan_found :
      LoanView A → (on_chain : Option (OnChainLoanState A)) → (sync_warning : Bool) → LoanResponse A

module _ {A W : Type 0} ⦃n : Arith A⦄ (rpc : Rpc W) (decode : String → Option (NativeLoan A)) where
  abbrev pub state_of : String → NativeLoan A → OnChainLoanState A
  state_of id v = record {
    loan_id = id;
    borrower = v.borrower;
    principal = n.div v.principal (whole 10000000);
    interest_rate_bps = v.interest_rate_bps;
    status = v.status;
    duration_days = v.duration_days;
  }

  abbrev pub decoded : String → Option (NativeLoan A) → Option (OnChainLoanState A)
  decoded id none = none
  decoded id (some v) = some (state_of id v)

  abbrev pub returned : String → Option String → Option (OnChainLoanState A)
  returned id none = none
  returned id (some value) = decoded id (decode value)

  -- The outer `none` is a promise that rejects, the inner one is `null`.
  abbrev pub read_simulation :
      String → Option Simulation × W → Option (Option (OnChainLoanState A)) × W
  read_simulation id (none, w) = (none, w)
  read_simulation id (some (simulation_error message), w) = (some none, w)
  read_simulation id (some (simulated resources value), w) = (some (returned id value), w)

  abbrev pub state_call : ServerEnv → ℕ → String → BuiltTransaction
  state_call env sequence id = record {
    source = env.public_key;
    sequence = sequence;
    fee = env.base_fee;
    passphrase = network_passphrase env.stellar_network;
    contract_id = env.contract_id;
    operations = ("get_loan_state", string_value id ∷ []) ∷ [];
    timeout_seconds = 30;
    ledger_bounds = none;
  }

  abbrev pub state_from :
      ServerEnv → String → Option ℕ × W → Option (Option (OnChainLoanState A)) × W
  state_from env id (none, w) = (none, w)
  state_from env id (some sequence, w) =
      read_simulation id (rpc.simulate_transaction (state_call env sequence id) w)

  unfoldable pub get_loan_state : ServerEnv → String → W → Option (Option (OnChainLoanState A)) × W
  unfolding network_passphrase
  get_loan_state env id w = state_from env id (rpc.get_account env.public_key w)

  abbrev pub either_id : String → Loan A → Bool
  either_id id l = str_eq l.id id || str_eq l.contract_loan_id id

  abbrev pub or_null : Option (Option (OnChainLoanState A)) → Option (OnChainLoanState A)
  or_null none = none
  or_null (some answer) = answer

  abbrev pub respond_with :
      LoanView A → Option (Option (OnChainLoanState A)) × W → LoanResponse A × W
  respond_with found (answer, w) =
      (loan_found found (or_null answer) (not (is_some (or_null answer))), w)

  abbrev pub loan_response :
      ServerEnv → Bool → Database A → Option (Loan A) → W → LoanResponse A × W
  loan_response env realtime db none w = (loan_not_found, w)
  loan_response env realtime db (some l) w =
      if realtime
      then respond_with (view db l) (get_loan_state env l.contract_loan_id w)
      else (loan_found (view db l) none false, w)

  -- A failure of the chain is not one of the request.
  unfoldable pub get_loan_by_id : ServerEnv → String → Bool → Database A → W → LoanResponse A × W
  unfolding get_loan_state
  get_loan_by_id env id realtime db w =
      loan_response env realtime db (find (either_id id) db.loans) w

module _ {A W : Type 0} ⦃n : Arith A⦄ (rpc : Rpc W) (decode : String → Option (NativeLoan A)) where
  -- A request for a loan that the table has, by its row identifier or by that of the contract, is
  -- answered with its row and the rows it refers to, whatever the chain answers; the state on chain
  -- is there only on demand, and its absence is warned of exactly if it was asked for.
  pub get_loan_by_id_answers :
      (env : ServerEnv) (id : String) (realtime : Bool) (db : Database A) (w : W) (l : Loan A)
      → find (either_id rpc decode id) db.loans ≡ some l
      → (on_chain : Option (OnChainLoanState A)) × ((get_loan_by_id rpc decode env id realtime db
            w).0
          ≡ loan_found (view db l) on_chain (realtime && not (is_some on_chain)))
        × ((realtime ≡ true) ⊎ (on_chain ≡ none))
  unfolding get_loan_by_id
  get_loan_by_id_answers env id true db w l h = (
    or_null rpc decode (get_loan_state rpc decode env l.contract_loan_id w).0,
    rw h refl,
    inl refl,
  )
  get_loan_by_id_answers env id false db w l h = (none, rw h refl, inr refl)
