-- ===== src/Transactions.antt =====
-- The transactions of src/services/soroban.service.ts. The network and the Stellar SDK are the record
-- `Rpc`, over a state `W` of the chain and the clock; an answer `none` is a promise that rejects. The
-- keys and the contract of the environment are arguments.
pub mod Loans
pub mod Confirmation
pub mod Invocation
pub mod Retirements
use stellar_kraal_backend.Prelude.{
  if◌then◌else◌, ℕ, zero, suc, ◌+◌, String, ◌⊎◌, inl, inr, Option, none, some, List, [], ◌∷◌,
  str_eq,
}

-- An argument of a contract call.
pub data ScVal : Type 0 where
  string_value address_value : String → ScVal
  i128_value : ℕ → ScVal

-- The passphrases of the SDK's `Networks`.
pub data Passphrase : Type 0 where
  testnet public_network futurenet standalone : Passphrase

-- A transaction with its calls of contract functions.
pub record BuiltTransaction : Type 0 where
  pub source : String
  pub sequence : ℕ
  pub fee : ℕ
  pub passphrase : Passphrase
  pub contract_id : String
  pub operations : List (String × List ScVal)
  pub timeout_seconds : ℕ
  pub ledger_bounds : Option (ℕ × ℕ)

pub data Simulation : Type 0 where
  simulation_error : (message : String) → Simulation
  -- The resources to assemble, and the value that the call returns.
  simulated : (resources : ℕ) → Option String → Simulation

pub data SendResult : Type 0 where
  refused : SendResult
  accepted : (hash : String) → SendResult

pub data TransactionStatus : Type 0 where
  success failure not_found : TransactionStatus

pub record Rpc (W : Type 0) : Type 0 where
  -- The sequence number of an account.
  pub get_account : String → W → Option ℕ × W
  pub get_latest_ledger : W → Option ℕ × W
  pub simulate_transaction : BuiltTransaction → W → Option Simulation × W
  -- The call with its resources, signed with a secret.
  pub send_transaction : BuiltTransaction → ℕ → String → W → Option SendResult × W
  pub get_transaction : String → W → Option TransactionStatus × W
  pub sleep : ℕ → W → W

pub record ServerEnv : Type 0 where
  pub secret_key : String
  pub public_key : String
  pub contract_id : String
  pub stellar_network : String
  -- `BASE_FEE` of the SDK.
  pub base_fee : ℕ

pub data InvokeError : Type 0 where
  rpc_rejected : InvokeError
  simulation_failed : (message : String) → InvokeError
  submission_failed : InvokeError
  failed_on_chain : (hash : String) → InvokeError
  not_confirmed : (hash : String) → (attempts : ℕ) → InvokeError

abbrev pub Invoked : Type 0 → Type 0
Invoked W = (InvokeError ⊎ String) × W

-- `getNetworkPassphrase`
unfoldable pub network_passphrase : String → Passphrase
network_passphrase network =
    if str_eq network "mainnet"
    then public_network
    else if str_eq network "futurenet"
    then futurenet
    else if str_eq network "standalone"
    then standalone
    else testnet

abbrev pub ledger_bound_window : ℕ
ledger_bound_window = 100

-- Without the latest ledger, a transaction goes out without bounds.
abbrev pub bounds_from : Option ℕ → Option (ℕ × ℕ)
bounds_from none = none
bounds_from (some ledger) = some (ledger, ledger + ledger_bound_window)

abbrev pub call_of : ServerEnv → ℕ → Option ℕ → String → List ScVal → BuiltTransaction
call_of env sequence latest name args = record {
  source = env.public_key;
  sequence = sequence;
  fee = env.base_fee;
  passphrase = network_passphrase env.stellar_network;
  contract_id = env.contract_id;
  operations = (name, args) ∷ [];
  timeout_seconds = 30;
  ledger_bounds = bounds_from latest;
}

module _ {W : Type 0} (rpc : Rpc W) where
  -- `waitForTransaction`, with the attempts that are left of `max_attempts`.
  unfoldable pub wait : ℕ → ℕ → String → ℕ → W → Invoked W
  wait max_attempts delay hash zero w = (inl (not_confirmed hash max_attempts), w)
  wait max_attempts delay hash (suc left) w =
      let (status, w') = rpc.get_transaction hash (rpc.sleep delay w) in
      let rest = wait max_attempts delay hash left w' in
      elim status [
        | none ↦ (inl rpc_rejected, w')
        | some success ↦ (inr hash, w')
        | some failure ↦ (inl (failed_on_chain hash), w')
        | some not_found ↦ rest
      ]

  abbrev pub wait_for_transaction : String → W → Invoked W
  wait_for_transaction hash w = wait 20 3000 hash 20 w

  abbrev pub confirm : Option SendResult × W → Invoked W
  confirm (none, w) = (inl rpc_rejected, w)
  confirm (some refused, w) = (inl submission_failed, w)
  confirm (some (accepted hash), w) = wait_for_transaction hash w

  abbrev pub send_simulated : ServerEnv → BuiltTransaction → Option Simulation × W → Invoked W
  send_simulated env call (none, w) = (inl rpc_rejected, w)
  send_simulated env call (some (simulation_error message), w) =
      (inl (simulation_failed message), w)
  send_simulated env call (some (simulated resources value), w) =
      confirm (rpc.send_transaction call resources env.secret_key w)

  abbrev pub with_ledger : ServerEnv → String → List ScVal → ℕ → Option ℕ × W → Invoked W
  with_ledger env name args sequence (latest, w) =
      send_simulated env (call_of env sequence latest name args)
        (rpc.simulate_transaction (call_of env sequence latest name args) w)

  abbrev pub with_account : ServerEnv → String → List ScVal → Option ℕ × W → Invoked W
  with_account env name args (none, w) = (inl rpc_rejected, w)
  with_account env name args (some sequence, w) =
      with_ledger env name args sequence (rpc.get_latest_ledger w)

  unfoldable pub invoke_contract : ServerEnv → String → List ScVal → W → Invoked W
  unfolding wait network_passphrase
  invoke_contract env name args w = with_account env name args (rpc.get_account env.public_key w)

  -- `stroops` is the value in units of 10⁻⁷, rounded.
  unfoldable pub mint_collateral :
      {A : Type 0} → (A → ℕ) → ServerEnv → String → String → A → W → Invoked W
  unfolding invoke_contract
  mint_collateral stroops env livestock_id owner value w =
      invoke_contract env "mint_collateral"
        (string_value livestock_id ∷ address_value owner ∷ i128_value (stroops value) ∷ []) w
