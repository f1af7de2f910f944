-- ===== src/Wallet/Sessions.antt =====
-- The session that `connect` stores, restored by `initialize` after the page is loaded again, and
-- the wallets that `connect` accepts (src/frontend/src/lib/wallet).
use stellar_kraal_backend.Prelude.{
  ltb, if◌then◌else◌, Bool-cases, ℕ, ◌-◌, String, ◌≡◌, refl, ap, ◌∙◌, inl, inr, Bool, true, false,
  not, ◌&&◌, ◌||◌, Option, none, some, List, [], ◌∷◌, arith,
}
use stellar_kraal_backend.Wallet.{
  WalletId, WalletMetadata, WalletError, session_expired, session_max_age, detect_wallets,
  is_wallet_connect, freighter, xbull, lobstr, wallet_connect, not_installed,
}
use stellar_kraal_backend.Wallet.Manager.{
  WalletManager, signer, initialize, connect, load_session, begin_connect, stored_session,
}
use stellar_kraal_backend.Wallet.Connection.{new_manager}

connect-stored :
    (now : ℕ) (id : WalletId) (detected : Option Bool) (address : String) (m : WalletManager)
    → (connect true now id detected (inr address) m).0 ≡ none
    → (connect true now id detected (inr address) m).1.storage
      ≡ stored_session (record { address = address; wallet_id = id; connected_at = now })
unfolding connect
connect-stored now id none address m h = ground arith
connect-stored now id (some installed) address m h =
    elim (Bool-cases (not installed && not (is_wallet_connect id))) [
      | inl e ↦
          let refused : (connect true now id (some installed) (inr address) m).0
              ≡ some (not_installed id) =
            rw e refl in
          absurd (ground arith)
      | inr e ↦ rw e refl
    ]

-- After a connection that succeeded and was stored at time `now`, a page loaded again at time
-- `later`, with the wallet still connected, may sign with that wallet if at most 24 hours have
-- passed, and otherwise has no wallet.
pub connect-initialize :
    (now later : ℕ) (id : WalletId) (detected : Option Bool) (address current : String)
    (m : WalletManager) (wallets : List WalletMetadata) (still : WalletId → Option String)
    → (connect true now id detected (inr address) m).0 ≡ none
    → still id ≡ some current
    → signer (
        initialize true later wallets still
          (new_manager (connect true now id detected (inr address) m).1.storage))
      ≡ (if ltb session_max_age (later - now) then inl session_expired else inr id)
unfolding initialize load_session signer
connect-initialize now later id detected address current m wallets still h k =
    rw (connect-stored now id detected address m h)
      (elim (Bool-cases (ltb session_max_age (later - now))) [
        | inl e ↦ rw e refl
        | inr e ↦ rw e (rw k refl)
      ])

abbrev pub is_refused : Option WalletError → Bool
is_refused none = false
is_refused (some e) = true

abbrev pub same_wallet : WalletId → WalletId → Bool
same_wallet freighter freighter = true
same_wallet xbull xbull = true
same_wallet lobstr lobstr = true
same_wallet wallet_connect wallet_connect = true
same_wallet _ _ = false

-- A list of wallets shows the wallet as available.
abbrev pub is_offered : WalletId → List WalletMetadata → Bool
is_offered id [] = false
is_offered id (w ∷ ws) = same_wallet id w.id && w.is_available || is_offered id ws

accepts_offered :
    (detected : WalletId → Option Bool) (id : WalletId) (installed : Bool) (m : WalletManager)
    → detected id ≡ some installed
    → is_refused (begin_connect id (some installed) m).0
      ≡ not (is_offered id (detect_wallets detected))
unfolding detect_wallets
accepts_offered detected freighter true m h = rw h refl
accepts_offered detected freighter false m h = rw h refl
accepts_offered detected xbull true m h = rw h refl
accepts_offered detected xbull false m h = rw h refl
accepts_offered detected lobstr true m h = rw h refl
accepts_offered detected lobstr false m h = rw h refl
accepts_offered detected wallet_connect true m h = rw h refl
accepts_offered detected wallet_connect false m h = rw h refl

-- A wallet whose detection answers is refused by `connect` as not installed exactly if
-- `detectWallets`, on the same answers, does not list it as available.
pub connect-detect_wallets :
    (detected : WalletId → Option Bool) (id : WalletId) (installed : Bool) (m : WalletManager)
    → detected id ≡ some installed
    → is_refused (begin_connect id (detected id) m).0
      ≡ not (is_offered id (detect_wallets detected))
connect-detect_wallets detected id installed m h =
    ap (λ d. is_refused (begin_connect id d m).0) h ∙ accepts_offered detected id installed m h
