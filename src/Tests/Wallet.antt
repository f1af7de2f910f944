-- ===== src/Tests/Wallet.antt =====
-- A wallet connected, left and found again.
use stellar_kraal_backend.Prelude.{
  ltb, if◌then◌else◌, ◌-◌, ◌≡◌, refl, inl, inr, true, false, not, some, List, [], ◌∷◌,
}
use stellar_kraal_backend.Wallet.{
  freighter, xbull, wallet_connect, detect_wallets, session_max_age, session_expired,
}
use stellar_kraal_backend.Wallet.Manager.{
  no_session, connect_begun, connect_ended, disconnect_ended, initialize_begun, WalletStep,
  wallet_steps, wallet_step, signer, connect, load_session, initialize, begin_connect,
  switch_wallet,
}
use stellar_kraal_backend.Wallet.Connection.{
  connection, connections, idle, new_manager, signer_of, wallet_manager-refines,
}
use stellar_kraal_backend.Wallet.Sessions.{
  connect-initialize, is_refused, is_offered, connect-detect_wallets,
}

run : Unit {0}
unfolding connect wallet_steps wallet_step detect_wallets signer load_session initialize
    switch_wallet
run = tt

-- A call of `disconnect` ends while a call of `connect` waits for the wallet.
abbrev steps : List WalletStep
steps =
    initialize_begun
    ∷ connect_begun freighter (some true)
    ∷ disconnect_ended true
    ∷ connect_ended true 1000 freighter (inr "GA")
    ∷ []

wallet_manager-refines_example :
    (connection (wallet_steps steps (new_manager no_session)) ≡ connections steps idle)
    × (signer (wallet_steps steps (new_manager no_session)) ≡ signer_of (connections steps idle))
wallet_manager-refines_example = wallet_manager-refines steps no_session

interleaved_test : signer (wallet_steps steps (new_manager no_session)) ≡ inr freighter
unfolding run
interleaved_test = refl

switch_test :
    signer
      (switch_wallet true 2000 xbull
        (some true)
        (inr "GB")
        (wallet_steps steps (new_manager no_session))).1
    ≡ inr xbull
unfolding run
switch_test = refl

connect-initialize_example :
    signer (
      initialize true 90000000 []
        (λ id. some "GA")
        (new_manager
          (connect true 1000 wallet_connect
            (some false)
            (inr "GA")
            (new_manager no_session)).1.storage))
    ≡ (if ltb session_max_age (90000000 - 1000) then inl session_expired else inr wallet_connect)
unfolding run
connect-initialize_example =
    connect-initialize 1000 90000000 wallet_connect (some false) "GA" "GA" (new_manager no_session)
      [] (λ id. some "GA") refl refl

connect-detect_wallets_example :
    is_refused (begin_connect xbull (some false) (new_manager no_session)).0
    ≡ not (is_offered xbull (detect_wallets (λ id. some false)))
connect-detect_wallets_example =
    connect-detect_wallets (λ id. some false) xbull false (new_manager no_session) refl
