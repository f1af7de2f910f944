-- ===== src/Wallet/Connection.antt =====
-- The connection that src/frontend/src/lib/wallet/wallet-manager.ts keeps, seen as a machine with
-- four states that forgets the session, the error text and what a failed or a pending call left over.
use stellar_kraal_backend.Prelude.{
  String, ◌≡◌, refl, ap, ◌∙◌, ◌⊎◌, inl, inr, true, false, Option, none, some, List, [], ◌∷◌, arith,
}
use stellar_kraal_backend.Wallet.{
  WalletId, WalletState, WalletError, session_expired, disconnected, connecting, connected,
  failed_state, freighter, xbull, lobstr, wallet_connect,
}
use stellar_kraal_backend.Wallet.Manager.{
  WalletManager, Storage, initial_state, WalletStep, connect_begun, connect_ended, disconnect_ended,
  initialize_begun, detection_ended, restore_ended, error_cleared, wallet_step, signer,
  wallet_steps,
}

pub data Connection : Type 0 where
  idle waiting broken : Connection
  in_use : WalletId → String → Connection

abbrev pub connection_of : WalletState → Option String → Option WalletId → Connection
connection_of disconnected a id = idle
connection_of connecting a id = waiting
connection_of failed_state a id = broken
connection_of connected (some a) (some id) = in_use id a
connection_of connected none id = broken
connection_of connected (some a) none = broken

abbrev pub connection : WalletManager → Connection
connection m = connection_of m.current.state m.current.address m.current.wallet_id

-- What a segment of a call does to the connection.
abbrev pub next : WalletStep → Connection → Connection
next (connect_begun id none) c = c
next (connect_begun id (some true)) c = waiting
next (connect_begun wallet_connect (some false)) c = waiting
next (connect_begun id (some false)) c = c
next (connect_ended writable now id (inr address)) c = in_use id address
next (connect_ended writable now id (inl message)) c = broken
next (disconnect_ended writable) c = idle
next initialize_begun c = c
next (detection_ended now wallets) c = c
next (restore_ended writable id none) c = c
next (restore_ended writable id (some address)) c = in_use id address
next error_cleared c = c

abbrev pub connections : List WalletStep → Connection → Connection
connections [] c = c
connections (s ∷ rest) c = connections rest (next s c)

-- The wallet that may sign.
abbrev pub signer_of : Connection → WalletError ⊎ WalletId
signer_of (in_use id address) = inr id
signer_of idle = inl session_expired
signer_of waiting = inl session_expired
signer_of broken = inl session_expired

abbrev pub new_manager : Storage → WalletManager
new_manager storage = record { current = initial_state; initialized = false; storage = storage }

wallet_step-connection :
    (s : WalletStep) (m : WalletManager) → connection (wallet_step s m) ≡ next s (connection m)
unfolding wallet_step
wallet_step-connection (connect_begun id none) m = refl
wallet_step-connection (connect_begun freighter (some true)) m = refl
wallet_step-connection (connect_begun xbull (some true)) m = refl
wallet_step-connection (connect_begun lobstr (some true)) m = refl
wallet_step-connection (connect_begun wallet_connect (some true)) m = refl
wallet_step-connection (connect_begun freighter (some false)) m = refl
wallet_step-connection (connect_begun xbull (some false)) m = refl
wallet_step-connection (connect_begun lobstr (some false)) m = refl
wallet_step-connection (connect_begun wallet_connect (some false)) m = refl
wallet_step-connection (connect_ended writable now id (inr address)) m = refl
wallet_step-connection (connect_ended writable now id (inl message)) m = refl
wallet_step-connection (disconnect_ended writable) m = refl
wallet_step-connection initialize_begun m = ground arith
wallet_step-connection (detection_ended now wallets) m = refl
wallet_step-connection (restore_ended writable id none) m = refl
wallet_step-connection (restore_ended writable id (some address)) m = refl
wallet_step-connection error_cleared m = refl

-- The manager lets sign whom the connection lets sign.
abbrev pub Agrees : WalletManager → Type 0
Agrees m = signer m ≡ signer_of (connection m)

wallet_step-Agrees : (s : WalletStep) (m : WalletManager) → Agrees m → Agrees (wallet_step s m)
unfolding wallet_step signer
wallet_step-Agrees (connect_begun id none) m h = h
wallet_step-Agrees (connect_begun freighter (some true)) m h = refl
wallet_step-Agrees (connect_begun xbull (some true)) m h = refl
wallet_step-Agrees (connect_begun lobstr (some true)) m h = refl
wallet_step-Agrees (connect_begun wallet_connect (some true)) m h = refl
wallet_step-Agrees (connect_begun freighter (some false)) m h = h
wallet_step-Agrees (connect_begun xbull (some false)) m h = h
wallet_step-Agrees (connect_begun lobstr (some false)) m h = h
wallet_step-Agrees (connect_begun wallet_connect (some false)) m h = refl
wallet_step-Agrees (connect_ended writable now id (inr address)) m h = refl
wallet_step-Agrees (connect_ended writable now id (inl message)) m h = refl
wallet_step-Agrees (disconnect_ended writable) m h = refl
wallet_step-Agrees initialize_begun m h = ground arith
wallet_step-Agrees (detection_ended now wallets) m h = h
wallet_step-Agrees (restore_ended writable id none) m h = h
wallet_step-Agrees (restore_ended writable id (some address)) m h = refl
wallet_step-Agrees error_cleared m h = h

wallet_steps-refine :
    (steps : List WalletStep) (m : WalletManager)
    → Agrees m
    → (connection (wallet_steps steps m) ≡ connections steps (connection m))
      × Agrees (wallet_steps steps m)
unfolding wallet_steps
wallet_steps-refine [] m h = (refl, h)
wallet_steps-refine (s ∷ rest) m h =
    let (same, agree) = wallet_steps-refine rest (wallet_step s m) (wallet_step-Agrees s m h) in
    (same ∙ ap (connections rest) (wallet_step-connection s m), agree)

-- Whatever segments of `initialize`, `connect`, `switchWallet`, `disconnect` and `clearError` run
-- after a page is loaded, interleaved in any order, the manager's state is that of the machine with
-- the states idle, waiting, broken and in use with a wallet and an address; and `signTransaction`
-- and `getAddress` reach the adapter of a wallet exactly while the machine has it in use, and are
-- the session error otherwise.
pub wallet_manager-refines :
    (steps : List WalletStep) (storage : Storage)
    → (connection (wallet_steps steps (new_manager storage)) ≡ connections steps idle)
      × (signer (wallet_steps steps (new_manager storage)) ≡ signer_of (connections steps idle))
unfolding signer
wallet_manager-refines steps storage =
    let (same, agree) = wallet_steps-refine steps (new_manager storage) refl in
    (same, agree ∙ ap signer_of same)
