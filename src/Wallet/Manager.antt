-- ===== src/Wallet/Manager.antt =====
-- src/frontend/src/lib/wallet/wallet-manager.ts in a browser. Each asynchronous method is cut at its
-- `await`s: a step is the code from one to the next, and the steps of several calls may interleave.
-- The listeners are left out.
use stellar_kraal_backend.Prelude.{
  ltb, if◌then◌else◌, ℕ, ◌-◌, String, ◌⊎◌, inl, inr, Bool, true, false, not, ◌&&◌, Option, none,
  some, List, [], ◌∷◌,
}
use stellar_kraal_backend.Wallet.{
  WalletId, WalletState, WalletMetadata, WalletSession, WalletError, disconnected, connecting,
  connected, failed_state, not_installed, session_expired, adapter_error, session_max_age,
  is_wallet_connect, detection_failed,
}

-- The value under the storage key: none, one that `JSON.parse` rejects, or a session.
pub data Storage : Type 0 where
  no_session unreadable : Storage
  stored_session : WalletSession → Storage

pub record WalletManagerState : Type 0 where
  pub state : WalletState
  pub address : Option String
  pub wallet_id : Option WalletId
  pub error : Option String
  pub wallets : Option (List WalletMetadata)

pub record WalletManager : Type 0 where
  pub current : WalletManagerState
  pub initialized : Bool
  pub storage : Storage

abbrev pub initial_state : WalletManagerState
initial_state = record {
  state = disconnected;
  address = none;
  wallet_id = none;
  error = none;
  wallets = none;
}

abbrev pub unless_expired : ℕ → WalletSession → Option WalletSession
unless_expired now s = if ltb session_max_age (now - s.connected_at) then none else some s

unfoldable pub load_session : ℕ → Storage → Option WalletSession
load_session now no_session = none
load_session now unreadable = none
load_session now (stored_session s) = unless_expired now s

-- `writable` is whether the storage accepts the change; an error of it is ignored.
abbrev pub save_session : Bool → WalletSession → Storage → Storage
save_session writable s old = if writable then stored_session s else old

abbrev pub clear_session : Bool → Storage → Storage
clear_session writable old = if writable then no_session else old

abbrev pub online : String → WalletId → WalletManagerState → WalletManagerState
online address id s = record s {
  state = connected;
  address = some address;
  wallet_id = some id;
  error = none;
}

-- `connect` up to the answer of `detect`: an error, or the call of the adapter.
abbrev pub begin_connect :
    WalletId → Option Bool → WalletManager → Option WalletError × WalletManager
begin_connect id none m = (some detection_failed, m)
begin_connect id (some installed) m =
    if not installed && not (is_wallet_connect id)
    then (some (not_installed id), m)
    else (none, record m { current = record m.current { state = connecting; error = none } })

-- The rest of `connect`, with the adapter's address or the message of its error.
abbrev pub finish_connect :
    Bool → ℕ → WalletId → String ⊎ String → WalletManager → Option WalletError × WalletManager
finish_connect writable now id (inr address) m = (
  none,
  record m {
    current = online address id m.current;
    storage =
        save_session writable (record { address = address; wallet_id = id; connected_at = now })
          m.storage;
  },
)
finish_connect writable now id (inl message) m = (
  some (adapter_error message),
  record m { current = record m.current { state = failed_state; error = some message } },
)

-- The end of `disconnect`, whatever the adapter answered.
abbrev pub finish_disconnect : Bool → WalletManager → WalletManager
finish_disconnect writable m = record m {
  current = record m.current {
    state = disconnected;
    address = none;
    wallet_id = none;
    error = none;
  };
  storage = clear_session writable m.storage;
}

-- `initialize` up to the answer of `detectWallets`; the answer, with the session to restore; and the
-- end of the restoration, with the adapter's address if it is still connected.
abbrev pub begin_initialize : WalletManager → Bool × WalletManager
begin_initialize m = if m.initialized then (false, m) else (true, record m { initialized = true })

abbrev pub wallets_detected :
    ℕ → List WalletMetadata → WalletManager → Option WalletSession × WalletManager
wallets_detected now wallets m =
    (load_session now m.storage, record m { current = record m.current { wallets = some wallets } })

abbrev pub finish_restore : Bool → WalletId → Option String → WalletManager → WalletManager
finish_restore writable id none m = record m { storage = clear_session writable m.storage }
finish_restore writable id (some address) m = record m { current = online address id m.current }

abbrev pub clear_error : WalletManager → WalletManager
clear_error m = record m { current = record m.current { error = none } }

abbrev pub connected_wallet : WalletState → Option WalletId → WalletError ⊎ WalletId
connected_wallet connected (some id) = inr id
connected_wallet _ _ = inl session_expired

-- The wallet whose adapter `signTransaction` or `getAddress` calls, or the error.
unfoldable pub signer : WalletManager → WalletError ⊎ WalletId
signer m = connected_wallet m.current.state m.current.wallet_id

-- The wallet whose adapter `getNetwork` calls.
abbrev pub network_wallet : WalletManager → Option WalletId
network_wallet m = m.current.wallet_id

-- The segments of the methods, in the order in which they happen.
pub data WalletStep : Type 0 where
  connect_begun : WalletId → Option Bool → WalletStep
  connect_ended : Bool → ℕ → WalletId → String ⊎ String → WalletStep
  disconnect_ended : Bool → WalletStep
  initialize_begun : WalletStep
  detection_ended : ℕ → List WalletMetadata → WalletStep
  restore_ended : Bool → WalletId → Option String → WalletStep
  error_cleared : WalletStep

unfoldable pub wallet_step : WalletStep → WalletManager → WalletManager
unfolding load_session
wallet_step (connect_begun id detected) m = (begin_connect id detected m).1
wallet_step (connect_ended writable now id result) m = (finish_connect writable now id result m).1
wallet_step (disconnect_ended writable) m = finish_disconnect writable m
wallet_step initialize_begun m = (begin_initialize m).1
wallet_step (detection_ended now wallets) m = (wallets_detected now wallets m).1
wallet_step (restore_ended writable id address) m = finish_restore writable id address m
wallet_step error_cleared m = clear_error m

unfoldable pub wallet_steps : List WalletStep → WalletManager → WalletManager
unfolding wallet_step
wallet_steps [] m = m
wallet_steps (s ∷ rest) m = wallet_steps rest (wallet_step s m)

-- A call that nothing interrupts: `initialize`, `connect` and `switchWallet`.
abbrev pub end_connect :
    Bool
    → ℕ
    → WalletId
    → String ⊎ String
    → Option WalletError × WalletManager
    → Option WalletError × WalletManager
end_connect writable now id result (some e, m) = (some e, m)
end_connect writable now id result (none, m) = finish_connect writable now id result m

unfoldable pub connect :
    Bool
    → ℕ
    → WalletId
    → Option Bool
    → String ⊎ String
    → WalletManager
    → Option WalletError × WalletManager
connect writable now id detected result m =
    end_connect writable now id result (begin_connect id detected m)

abbrev pub disconnect_current : Bool → Option WalletId → WalletManager → WalletManager
disconnect_current writable none m = m
disconnect_current writable (some id) m = finish_disconnect writable m

unfoldable pub switch_wallet :
    Bool
    → ℕ
    → WalletId
    → Option Bool
    → String ⊎ String
    → WalletManager
    → Option WalletError × WalletManager
unfolding connect
switch_wallet writable now id detected result m =
    connect writable now id detected result (disconnect_current writable m.current.wallet_id m)

abbrev pub restore :
    Bool → (WalletId → Option String) → Option WalletSession × WalletManager → WalletManager
restore writable still (none, m) = m
restore writable still (some s, m) = finish_restore writable s.wallet_id (still s.wallet_id) m

abbrev pub detect_and_restore :
    Bool
    → ℕ
    → List WalletMetadata
    → (WalletId → Option String)
    → Bool × WalletManager
    → WalletManager
detect_and_restore writable now wallets still (false, m) = m
detect_and_restore writable now wallets still (true, m) =
    restore writable still (wallets_detected now wallets m)

-- `still` is the address of a wallet that is still connected.
unfoldable pub initialize :
    Bool → ℕ → List WalletMetadata → (WalletId → Option String) → WalletManager → WalletManager
unfolding load_session
initialize writable now wallets still m =
    detect_and_restore writable now wallets still (begin_initialize m)
