-- ===== src/Transactions/Retirements.antt =====
-- `submitRetirementChunk` of src/services/soroban.service.ts, and the batches of `retireLoansOnChain`
-- that it sends.
use stellar_kraal_backend.Prelude.{
  Option-cases, length, ℕ, ◌*◌, String, ◌≡◌, refl, ap, subst, inl, inr, true, false, Option, none,
  some, List, [], ◌∷◌, map, arith,
}
use stellar_kraal_backend.Retirement.OnChain.{Submission-cases}
use stellar_kraal_backend.Retirement.{
  Submission, confirmed, thrown, RetirementTarget, RetirementChunkStatus, RetirementChunkResult,
  success, failed, skipped, retire_chunks, retire_loans_on_chain, contract_ids_of, chunk_array,
}
use stellar_kraal_backend.Transactions.{
  Rpc, ServerEnv, BuiltTransaction, Invoked, InvokeError, rpc_rejected, send_simulated,
  string_value, network_passphrase,
}
use stellar_kraal_backend.Transactions.Confirmation.{
  SentAs, simulated-SentAs, IsNetworkOf, network_passphrase-IsNetworkOf,
}

module _ {W : Type 0} (rpc : Rpc W) (env : ServerEnv) where
  -- One operation for each loan, for the fee of as many.
  abbrev pub retirement_of : ℕ → List String → BuiltTransaction
  retirement_of sequence ids = record {
    source = env.public_key;
    sequence = sequence;
    fee = env.base_fee * length ids;
    passphrase = network_passphrase env.stellar_network;
    contract_id = env.contract_id;
    operations = map (λ id. ("retire_loan", string_value id ∷ [])) ids;
    timeout_seconds = 30;
    ledger_bounds = none;
  }

  abbrev pub with_server_account : List String → Option ℕ × W → Invoked W
  with_server_account ids (none, w) = (inl rpc_rejected, w)
  with_server_account ids (some sequence, w) =
      send_simulated rpc env (retirement_of sequence ids)
        (rpc.simulate_transaction (retirement_of sequence ids) w)

  unfoldable pub submit_retirement_chunk : List String → W → Invoked W
  unfolding network_passphrase
  submit_retirement_chunk ids w = with_server_account ids (rpc.get_account env.public_key w)

  -- `message` is the text of an error.
  abbrev pub as_submission : (InvokeError → String) → Invoked W → Submission × W
  as_submission message (inl e, w) = (thrown (message e), w)
  as_submission message (inr hash, w) = (confirmed hash, w)

  abbrev pub submission : (InvokeError → String) → List String → W → Submission × W
  submission message ids w = as_submission message (submit_retirement_chunk ids w)

  -- The transaction of a chunk: one `retire_loan` operation for each loan, in their order.
  abbrev pub batch : ℕ → List String → BuiltTransaction
  batch sequence ids = record {
    source = env.public_key;
    sequence = sequence;
    fee = env.base_fee * length ids;
    passphrase = network_passphrase env.stellar_network;
    contract_id = env.contract_id;
    operations = map (λ id. ("retire_loan", string_value id ∷ [])) ids;
    timeout_seconds = 30;
    ledger_bounds = none;
  }

  -- The transaction was sent under the hash, after the account was asked for.
  abbrev pub SentBatch : String → List String → Option ℕ × W → Type 0
  SentBatch h ids p =
      (sequence : ℕ) × (p.0 ≡ some sequence)
      × IsNetworkOf env.stellar_network (network_passphrase env.stellar_network)
      × SentAs rpc env h (batch sequence ids) (rpc.simulate_transaction (batch sequence ids) p.1)

  -- The result of a chunk that is reported as a success, from the state before it.
  abbrev pub IsBacked : RetirementChunkResult → RetirementChunkStatus → W → Type 0
  IsBacked r failed w = Unit
  IsBacked r skipped w = Unit
  IsBacked r success w =
      (h : String) × (r.tx_hash ≡ some h)
      × SentBatch h r.contract_loan_ids (rpc.get_account env.public_key w)

  -- The chunks one after the other, each from the state that the one before has left.
  abbrev pub AllBacked : (InvokeError → String) → List RetirementChunkResult → W → Type 0
  AllBacked message [] w = Unit
  AllBacked message (r ∷ rs) w =
      IsBacked r r.status w × AllBacked message rs (submission message r.contract_loan_ids w).1

  with_server_account-SentBatch :
      (ids : List String) (h : String) (p : Option ℕ × W)
      → (with_server_account ids p).0 ≡ inr h
      → SentBatch h ids p
  with_server_account-SentBatch ids h (none, w) k = absurd (ground arith)
  with_server_account-SentBatch ids h (some sequence, w) k = (
    sequence,
    refl,
    network_passphrase-IsNetworkOf env.stellar_network,
    simulated-SentAs rpc env h _ _ k,
  )

  confirmed-hash :
      (message : InvokeError → String) (h : String) (p : Invoked W)
      → (as_submission message p).0 ≡ confirmed h
      → p.0 ≡ inr h
  confirmed-hash message h (inl e, w) k = absurd (ground arith)
  confirmed-hash message h (inr hash, w) k = ground arith

  submission-SentBatch :
      (message : InvokeError → String) (ids : List String) (h : String) (w : W)
      → (submission message ids w).0 ≡ confirmed h
      → SentBatch h ids (rpc.get_account env.public_key w)
  unfolding submit_retirement_chunk
  submission-SentBatch message ids h w k =
      with_server_account-SentBatch ids h (rpc.get_account env.public_key w)
        (confirmed-hash message h (submit_retirement_chunk ids w) k)

  skipped-AllBacked :
      (message : InvokeError → String) (chunks : List (List RetirementTarget)) (w w' : W)
      → AllBacked message (retire_chunks (submission message) chunks true w).0 w'
  unfolding retire_chunks
  skipped-AllBacked message [] w w' = tt
  skipped-AllBacked message (c ∷ cs) w w' = (tt, skipped-AllBacked message cs w _)

  retire_chunks-AllBacked :
      (message : InvokeError → String) (chunks : List (List RetirementTarget)) (w : W)
      → AllBacked message (retire_chunks (submission message) chunks false w).0 w
  unfolding retire_chunks
  retire_chunks-AllBacked message [] w = tt
  retire_chunks-AllBacked message (c ∷ cs) w =
      elim (Submission-cases (submission message (contract_ids_of c) w).0) [
        | inl (h, e) ↦
            let sent = submission-SentBatch message (contract_ids_of c) h w e in
            rw e (
              (h, refl, sent),
              retire_chunks-AllBacked message cs (submission message (contract_ids_of c) w).1,
            )
        | inr (m, e) ↦ rw e (
          tt,
          skipped-AllBacked message cs (submission message (contract_ids_of c) w).1
              (submission message (contract_ids_of c) w).1,
        )
      ]

  -- Each chunk of loans that `retireLoansOnChain` reports as a success is one transaction, with the
  -- server's sequence number of the moment and one `retire_loan` operation for each of the chunk's
  -- loans in their order, that was simulated without an error, accepted under the reported hash, and
  -- found successful within 20 looks, all in the state that the chunks before it have left.
  pub retire_loans-IsBacked :
      (message : InvokeError → String) (loans : List RetirementTarget) (max_ops : ℕ) (w w' : W)
      (results : List RetirementChunkResult)
      → retire_loans_on_chain (submission message) loans max_ops w ≡ some (results, w')
      → AllBacked message results w
  unfolding retire_loans_on_chain
  retire_loans-IsBacked message loans max_ops w w' results k =
      elim (Option-cases (chunk_array loans max_ops)) [
        | inl e ↦ absurd (ground arith)
        | inr (chunks, e) ↦
            let same : retire_chunks (submission message) chunks false w ≡ (results, w') =
              ground arith in
            subst (λ rs. AllBacked message rs w) (ap (λ p. p.0) same)
              (retire_chunks-AllBacked message chunks w)
      ]
