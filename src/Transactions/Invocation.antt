-- ===== src/Transactions/Invocation.antt =====
-- When a call of `invokeContract` of src/services/soroban.service.ts succeeds.
use stellar_kraal_backend.Prelude.{
  ℕ, ◌+◌, String, ◌≡◌, refl, sym, ap, ◌∙◌, subst, ◌↔◌, inr, Option, none, some, List, [], ◌∷◌,
  arith,
}
use stellar_kraal_backend.Transactions.{
  Rpc, ScVal, BuiltTransaction, ServerEnv, network_passphrase, call_of, with_account,
  invoke_contract,
}
use stellar_kraal_backend.Transactions.Confirmation.{
  SentAs, simulated-SentAs, SentAs-simulated, IsNetworkOf, network_passphrase-IsNetworkOf,
}

module _ {W : Type 0} (rpc : Rpc W) (env : ServerEnv) (name : String) (args : List ScVal) where
  abbrev hundred_from : Option ℕ → Option (ℕ × ℕ)
  hundred_from none = none
  hundred_from (some ledger) = some (ledger, ledger + 100)

  -- The one call, for the base fee, within 30 seconds and, if the latest ledger is known, from it
  -- for 100 ledgers.
  abbrev pub single_call : ℕ → Option ℕ → BuiltTransaction
  single_call sequence latest = record {
    source = env.public_key;
    sequence = sequence;
    fee = env.base_fee;
    passphrase = network_passphrase env.stellar_network;
    contract_id = env.contract_id;
    operations = (name, args) ∷ [];
    timeout_seconds = 30;
    ledger_bounds = hundred_from latest;
  }

  call_of-single_call :
      (sequence : ℕ) (latest : Option ℕ)
      → call_of env sequence latest name args ≡ single_call sequence latest
  call_of-single_call sequence none = refl
  call_of-single_call sequence (some ledger) = refl

  -- What the call is sent as, after the account and the ledger were asked for.
  abbrev pub CalledAs : String → Option ℕ × W → Type 0
  CalledAs h p =
      (sequence : ℕ) × (p.0 ≡ some sequence)
      × IsNetworkOf env.stellar_network (network_passphrase env.stellar_network)
      × SentAs rpc env h (single_call sequence (rpc.get_latest_ledger p.1).0) (
          rpc.simulate_transaction (single_call sequence (rpc.get_latest_ledger p.1).0)
            (rpc.get_latest_ledger p.1).1)

  with_account-CalledAs :
      (h : String) (p : Option ℕ × W) → (with_account rpc env name args p).0 ≡ inr h → CalledAs h p
  with_account-CalledAs h (none, w) k = absurd (ground arith)
  with_account-CalledAs h (some sequence, w) k =
      let (latest, w') = rpc.get_latest_ledger w in
      (
        sequence,
        refl,
        network_passphrase-IsNetworkOf env.stellar_network,
        subst (λ call. SentAs rpc env h call (rpc.simulate_transaction call w'))
            (call_of-single_call sequence latest) (simulated-SentAs rpc env h _ _ k),
      )

  CalledAs-with_account :
      (h : String) (p : Option ℕ × W) → CalledAs h p → (with_account rpc env name args p).0 ≡ inr h
  CalledAs-with_account h (none, w) (s, e, _, sent) = absurd (ground arith)
  CalledAs-with_account h (some sequence, w) (s, e, _, sent) =
      let same : s ≡ sequence = ground arith in
      let (latest, w') = rpc.get_latest_ledger w in
      SentAs-simulated rpc env h _ _ (
        subst (λ call. SentAs rpc env h call (rpc.simulate_transaction call w'))
          (ap (λ n. single_call n latest) same ∙ sym (call_of-single_call sequence latest)) sent)

  -- `invokeContract` returns a hash exactly if its transaction was simulated without an error, then
  -- accepted by the network under that hash and found successful within 20 looks; the transaction is
  -- the one call with its arguments, from the server's account with the sequence number that the
  -- network gave, on the network of the environment, for the base fee, with a timeout of 30 seconds and, if the latest ledger was
  -- answered, the bounds of that ledger and the one 100 later.
  pub invoke_contract-confirmed :
      (h : String) (w : W)
      → ((invoke_contract rpc env name args w).0 ≡ inr h)
        ↔ CalledAs h (rpc.get_account env.public_key w)
  unfolding invoke_contract
  invoke_contract-confirmed h w = (
    with_account-CalledAs h (rpc.get_account env.public_key w),
    CalledAs-with_account h (rpc.get_account env.public_key w),
  )
