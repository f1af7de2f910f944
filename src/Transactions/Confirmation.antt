-- ===== src/Transactions/Confirmation.antt =====
-- When `waitForTransaction` of src/services/soroban.service.ts ends, and when a simulated call is sent
-- and confirmed.
use stellar_kraal_backend.Prelude.{
  Bool-cases, Option-cases, ℕ, zero, suc, ◌≤◌, ◌<◌, String, ◌≡◌, refl, sym, ap, ◌∙◌, subst, ◌≢◌,
  ◌↔◌, inl, inr, Option, none, some, arith, str_eq, eq_iff,
}
use stellar_kraal_backend.Transactions.{
  Passphrase, public_network, futurenet, standalone, testnet, network_passphrase, Rpc,
  TransactionStatus, success, not_found, wait, failure, rpc_rejected, failed_on_chain,
  wait_for_transaction, BuiltTransaction, Simulation, simulation_error, simulated, SendResult,
  refused, accepted, ServerEnv, confirm, send_simulated,
}

-- The passphrase of the network that an environment names; any other name is the test network.
abbrev pub IsNetworkOf : String → Passphrase → Type 0
IsNetworkOf name public_network = name ≡ "mainnet"
IsNetworkOf name futurenet = name ≡ "futurenet"
IsNetworkOf name standalone = name ≡ "standalone"
IsNetworkOf name testnet = (name ≢ "mainnet") × (name ≢ "futurenet") × (name ≢ "standalone")

pub network_passphrase-IsNetworkOf : (name : String) → IsNetworkOf name (network_passphrase name)
unfolding network_passphrase
network_passphrase-IsNetworkOf name = elim (Bool-cases (str_eq name "mainnet")) [
  | inl a ↦ rw a ((eq_iff _ _).0 a)
  | inr a ↦ elim (Bool-cases (str_eq name "futurenet")) [
    | inl b ↦ rw a (rw b ((eq_iff _ _).0 b))
    | inr b ↦ elim (Bool-cases (str_eq name "standalone")) [
      | inl c ↦ rw a (rw b (rw c ((eq_iff _ _).0 c)))
      | inr c ↦ rw a (
          rw b (
            rw c (
              (λ e. absurd (ground (arith, eq_iff name "mainnet"))),
              (λ e. absurd (ground (arith, eq_iff name "futurenet"))),
              (λ e. absurd (ground (arith, eq_iff name "standalone"))),
            )))
    ]
  ]
]

module _ {W : Type 0} (rpc : Rpc W) where
  -- A look at the transaction after a pause.
  abbrev pub poll : ℕ → String → W → Option TransactionStatus × W
  poll delay hash w = rpc.get_transaction hash (rpc.sleep delay w)

  -- The look of an index is the first that finds the transaction, with this status.
  abbrev pub SettledAt : ℕ → String → ℕ → TransactionStatus → W → Type 0
  SettledAt delay hash zero s w = (poll delay hash w).0 ≡ some s
  SettledAt delay hash (suc i) s w =
      ((poll delay hash w).0 ≡ some not_found) × SettledAt delay hash i s (poll delay hash w).1

  -- One of the looks that are left is the first to find the transaction, and finds a success.
  abbrev pub ConfirmedWithin : ℕ → String → ℕ → W → Type 0
  ConfirmedWithin delay hash left w = (i : ℕ) × (i < left) × SettledAt delay hash i success w

  confirmed_later :
      (delay left : ℕ) (hash : String) (w : W)
      → (poll delay hash w).0 ≡ some not_found
      → ConfirmedWithin delay hash left (poll delay hash w).1
      → ConfirmedWithin delay hash (suc left) w
  confirmed_later delay left hash w e (i, lt, settled) = (suc i, omega arith, (e, settled))

  wait-confirmed :
      (max_attempts delay left : ℕ) (hash h : String) (w : W)
      → (wait rpc max_attempts delay hash left w).0 ≡ inr h
      → (h ≡ hash) × ConfirmedWithin delay hash left w
  unfolding wait
  wait-confirmed max_attempts delay zero hash h w k = ground arith
  wait-confirmed max_attempts delay (suc left) hash h w k =
      elim (Option-cases (poll delay hash w).0) [
        | inl e ↦
            let stop : (wait rpc max_attempts delay hash (suc left) w).0 ≡ inl rpc_rejected =
              rw (e, wait) refl in
            absurd (ground arith)
        | inr (success, e) ↦
            let stop : (wait rpc max_attempts delay hash (suc left) w).0 ≡ inr hash =
              rw (e, wait) refl in
            (ground arith, (0, omega arith, e))
        | inr (failure, e) ↦
            let stop : (wait rpc max_attempts delay hash (suc left) w).0
                ≡ inl (failed_on_chain hash) =
              rw (e, wait) refl in
            absurd (ground arith)
        | inr (not_found, e) ↦
            let next : (wait rpc max_attempts delay hash left (poll delay hash w).1).0
                ≡ (wait rpc max_attempts delay hash (suc left) w).0 =
              rw (e, wait) refl in
            let (same, within) =
              wait-confirmed max_attempts delay left hash h (poll delay hash w).1 (next ∙ k) in
            (same, confirmed_later delay left hash w e within)
      ]

  confirmed-wait :
      (max_attempts delay left i : ℕ) (hash : String) (w : W)
      → i < left
      → SettledAt delay hash i success w
      → (wait rpc max_attempts delay hash left w).0 ≡ inr hash
  unfolding wait
  confirmed-wait max_attempts delay zero i hash w lt h = absurd (omega arith)
  confirmed-wait max_attempts delay (suc left) zero hash w lt h = rw (h, wait) refl
  confirmed-wait max_attempts delay (suc left) (suc i) hash w lt (e, h) =
      rw (e, wait)
        (confirmed-wait max_attempts delay left i hash (poll delay hash w).1 (omega arith) h)

  -- The state after a number of looks, each after a pause.
  abbrev pub after_looks : ℕ → String → ℕ → W → W
  after_looks delay hash zero w = w
  after_looks delay hash (suc k) w = after_looks delay hash k (poll delay hash w).1

  -- Nothing but some of the looks that are left has happened.
  abbrev pub LooksWithin : ℕ → String → ℕ → W → W → Type 0
  LooksWithin delay hash left w w' = (k : ℕ) × (k ≤ left) × (w' ≡ after_looks delay hash k w)

  wait-LooksWithin :
      (max_attempts delay left : ℕ) (hash : String) (w : W)
      → LooksWithin delay hash left w (wait rpc max_attempts delay hash left w).1
  unfolding wait
  wait-LooksWithin max_attempts delay zero hash w = (0, omega arith, refl)
  wait-LooksWithin max_attempts delay (suc left) hash w =
      elim (Option-cases (poll delay hash w).0) [
        | inl e ↦ (1, omega arith, rw (e, wait) refl)
        | inr (success, e) ↦ (1, omega arith, rw (e, wait) refl)
        | inr (failure, e) ↦ (1, omega arith, rw (e, wait) refl)
        | inr (not_found, e) ↦
            let (k, le, same) =
              wait-LooksWithin max_attempts delay left hash (poll delay hash w).1 in
            (suc k, omega arith, rw (e, wait) same)
      ]

  wait_for_transaction_confirmed :
      (hash h : String) (w : W)
      → ((wait_for_transaction rpc hash w).0 ≡ inr h)
        ↔ ((h ≡ hash) × ConfirmedWithin 3000 hash 20 w)
  wait_for_transaction_confirmed hash h w = (
    (λ k. wait-confirmed 20 3000 20 hash h w k),
    (λ (same, (i, lt, settled)). confirmed-wait 20 3000 20 i hash w lt settled ∙ ap inr (sym same)),
  )

  -- Waiting for a transaction ends after at most 20 looks, each after three seconds, and does nothing
  -- else; and it ends with its hash exactly if one of the first 20 looks finds it successful and
  -- every look before found that it is not there yet.
  pub wait_for_transaction_iff :
      (hash h : String) (w : W)
      → LooksWithin 3000 hash 20 w (wait_for_transaction rpc hash w).1
        × (((wait_for_transaction rpc hash w).0 ≡ inr h)
            ↔ ((h ≡ hash) × ConfirmedWithin 3000 hash 20 w))
  wait_for_transaction_iff hash h w =
      (wait-LooksWithin 20 3000 20 hash w, wait_for_transaction_confirmed hash h w)

module _ {W : Type 0} (rpc : Rpc W) (env : ServerEnv) where
  confirm-accepted :
      (h : String) (p : Option SendResult × W)
      → (confirm rpc p).0 ≡ inr h
      → (p.0 ≡ some (accepted h)) × ConfirmedWithin rpc 3000 h 20 p.1
  confirm-accepted h (none, w) k = absurd (ground arith)
  confirm-accepted h (some refused, w) k = absurd (ground arith)
  confirm-accepted h (some (accepted hash), w) k =
      let (same, within) = (wait_for_transaction_confirmed rpc hash h w).0 k in
      (
        ap (λ x. some (accepted x)) (sym same),
        subst (λ x. ConfirmedWithin rpc 3000 x 20 w) (sym same) within,
      )

  -- What a call that returns `h` was answered by the simulation and by the network.
  abbrev pub SentAs : String → BuiltTransaction → Option Simulation × W → Type 0
  SentAs h call p =
      (resources : ℕ) × (value : Option String) × (p.0 ≡ some (simulated resources value))
      × ((rpc.send_transaction call resources env.secret_key p.1).0 ≡ some (accepted h))
      × ConfirmedWithin rpc 3000 h 20 (rpc.send_transaction call resources env.secret_key p.1).1

  pub simulated-SentAs :
      (h : String) (call : BuiltTransaction) (p : Option Simulation × W)
      → (send_simulated rpc env call p).0 ≡ inr h
      → SentAs h call p
  simulated-SentAs h call (none, w) k = absurd (ground arith)
  simulated-SentAs h call (some (simulation_error message), w) k = absurd (ground arith)
  simulated-SentAs h call (some (simulated resources value), w) k =
      let (sent, within) =
        confirm-accepted h (rpc.send_transaction call resources env.secret_key w) k in
      (resources, value, refl, sent, within)

  confirmed-accepted :
      (h : String) (p : Option SendResult × W)
      → p.0 ≡ some (accepted h)
      → ConfirmedWithin rpc 3000 h 20 p.1
      → (confirm rpc p).0 ≡ inr h
  confirmed-accepted h (none, w) e k = absurd (ground arith)
  confirmed-accepted h (some refused, w) e k = absurd (ground arith)
  confirmed-accepted h (some (accepted hash), w) e k =
      let same : h ≡ hash = ground arith in
      (wait_for_transaction_confirmed rpc hash h w).1
        (same, subst (λ x. ConfirmedWithin rpc 3000 x 20 w) same k)

  pub SentAs-simulated :
      (h : String) (call : BuiltTransaction) (p : Option Simulation × W)
      → SentAs h call p
      → (send_simulated rpc env call p).0 ≡ inr h
  SentAs-simulated h call (none, w) (r, v, e, sent, within) = absurd (ground arith)
  SentAs-simulated h call (some (simulation_error message), w) (r, v, e, sent, within) =
      absurd (ground arith)
  SentAs-simulated h call (some (simulated resources value), w) (r, v, e, sent, within) =
      let same : r ≡ resources = ground arith in
      confirmed-accepted h (rpc.send_transaction call resources env.secret_key w)
        (subst (λ x. (rpc.send_transaction call x env.secret_key w).0 ≡ some (accepted h)) same
          sent)
        (subst (λ x. ConfirmedWithin rpc 3000 h 20 (rpc.send_transaction call x env.secret_key w).1)
          same within)
