-- ===== src/Auth/Challenges.antt =====
-- A challenge is answered at most once, by the holder of its key.
use stellar_kraal_backend.Prelude.{
  ltb, Bool-cases, take_text, before_colon, after_colon, Map, lookup, remove, signed, ℕ, ◌/◌, ◌≤◌,
  String, ◌≡◌, refl, sym, ap, inl, inr, true, Option, none, some, arith, str_eq, eq_iff,
}
use stellar_kraal_backend.Auth.{
  Stellar, Transaction, AuthError, or_else, time_error, payload_of, embedded_nonce, nonce_error,
  payload_error, is_signed, transaction_error, PendingChallenge, invalid_public_key,
  no_pending_challenge, challenge_expired, verified_key, refused, settle, verify_pending,
  verify_challenge,
}

abbrev pub WithinBounds : ℕ → Option (ℕ × ℕ) → Type 0
WithinBounds now none = ⊥
WithinBounds now (some (min_time, max_time)) = (min_time ≤ now / 1000) × (now / 1000 ≤ max_time)

-- What a transaction must be to answer a challenge: in time, with the key and the nonce in its
-- payload, and signed with the key.
abbrev pub Answers : Stellar → ℕ → String → String → Transaction → Type 0
Answers sdk now key nonce tx =
    WithinBounds now tx.time_bounds
    × ((value : String) × (payload_of tx.operations ≡ some value)
        × (before_colon value ≡ key)
        × (embedded_nonce (after_colon value) ≡ some (take_text 7 nonce)))
    × (is_signed sdk key tx.hash tx.signatures ≡ true)

time_error-none : (now : ℕ) (b : Option (ℕ × ℕ)) → time_error now b ≡ none → WithinBounds now b
time_error-none now none h = ground arith
time_error-none now (some (lo, hi)) h = ground arith

nonce_error-none :
    (nonce : String) (o : Option String) → nonce_error nonce o ≡ none → o ≡ some (take_text 7 nonce)
nonce_error-none nonce none h = ground arith
nonce_error-none nonce (some e) h = ground (arith, eq_iff e (take_text 7 nonce))

payload_error-none :
    (key nonce : String) (o : Option String)
    → payload_error key nonce o ≡ none
    → (value : String) × (o ≡ some value)
      × (before_colon value ≡ key)
      × (embedded_nonce (after_colon value) ≡ some (take_text 7 nonce))
payload_error-none key nonce none h = ground arith
payload_error-none key nonce (some value) h = elim (Bool-cases (str_eq (before_colon value) key)) [
  | inl same ↦ (
    value,
    refl,
    ground (arith, eq_iff (before_colon value) key),
    nonce_error-none nonce (embedded_nonce (after_colon value)) (rw same at h),
  )
  | inr other ↦ ground arith
]

or_else-none : (a b : Option AuthError) → or_else a b ≡ none → (a ≡ none) × (b ≡ none)
or_else-none none b h = (refl, h)
or_else-none (some e) b h = ground arith

transaction_error-Answers :
    (sdk : Stellar) (now : ℕ) (key nonce : String) (o : Option Transaction)
    → transaction_error sdk now key nonce o ≡ none
    → (tx : Transaction) × (o ≡ some tx) × Answers sdk now key nonce tx
unfolding transaction_error
transaction_error-Answers sdk now key nonce none h = ground arith
transaction_error-Answers sdk now key nonce (some tx) h =
    let (in_time, rest) = or_else-none _ _ h in
    let (paid, signed) = or_else-none _ _ rest in
    (
      tx,
      refl,
      (
        time_error-none now tx.time_bounds in_time,
        payload_error-none key nonce (payload_of tx.operations) paid,
        ground arith,
      ),
    )

settle-verified :
    (key : String) (e : Option AuthError) (challenges : Map PendingChallenge) (k : String)
    (rest : Map PendingChallenge)
    → settle key e challenges ≡ (verified_key k, rest)
    → (e ≡ none) × (k ≡ key) × (rest ≡ remove key challenges)
settle-verified key none challenges k rest h =
    (refl, same k (ap (λ t. t.0) h), sym (ap (λ t. t.1) h))
  where
    same : (k : String) → verified_key key ≡ verified_key k → k ≡ key
    same k h = cc
settle-verified key (some e) challenges k rest h = absurd (no_key (ap (λ t. t.0) h))
  where
    no_key : refused e ≡ verified_key k → ⊥
    no_key h = cc

verify_pending-verified :
    (sdk : Stellar) (now : ℕ) (key xdr : String) (o : Option PendingChallenge)
    (challenges rest : Map PendingChallenge) (k : String)
    → verify_pending sdk now key xdr o challenges ≡ (verified_key k, rest)
    → (k ≡ key)
      × (rest ≡ remove key challenges)
      × ((p : PendingChallenge) × (tx : Transaction) × (o ≡ some p)
          × (now ≤ p.expires_at)
          × (sdk.decode xdr ≡ some tx)
          × Answers sdk now key p.nonce tx)
verify_pending-verified sdk now key xdr none challenges rest k h = absurd (no_key (ap (λ t. t.0) h))
  where
    no_key : refused no_pending_challenge ≡ verified_key k → ⊥
    no_key h = cc
verify_pending-verified sdk now key xdr (some p) challenges rest k h =
    elim (Bool-cases (ltb p.expires_at now)) [
      | inl late ↦ absurd (no_key (ap (λ t. t.0) (rw late at h)))
      | inr in_time ↦
          let (clear, same, gone) = settle-verified key _ challenges k rest (rw in_time at h) in
          let (tx, decoded, answers) =
            transaction_error-Answers sdk now key p.nonce (sdk.decode xdr) clear in
          (same, gone, (p, tx, refl, ground arith, decoded, answers))
    ]
  where
    no_key : refused challenge_expired ≡ verified_key k → ⊥
    no_key h = cc

-- A login that passes has a key that the caller was given a challenge for, no more than the time to
-- live ago, and a transaction that answers it: within its time bounds, with the key and the first
-- seven characters of the nonce in its payload, and signed with the key. The challenge is then
-- removed.
pub verify_challenge-Answers :
    (sdk : Stellar) (now : ℕ) (key xdr : String) (challenges rest : Map PendingChallenge)
    (k : String)
    → verify_challenge sdk now key xdr challenges ≡ (verified_key k, rest)
    → (k ≡ key)
      × (rest ≡ remove key challenges)
      × ((p : PendingChallenge) × (tx : Transaction) × (lookup key challenges ≡ some p)
          × (now ≤ p.expires_at)
          × (sdk.decode xdr ≡ some tx)
          × Answers sdk now key p.nonce tx)
unfolding verify_challenge
verify_challenge-Answers sdk now key xdr challenges rest k h =
    elim (Bool-cases (sdk.is_valid_public_key key)) [
      | inl valid ↦
          verify_pending-verified sdk now key xdr (lookup key challenges) challenges rest k
            (rw valid at h)
      | inr bad ↦ absurd (no_key (ap (λ t. t.0) (rw bad at h)))
    ]
  where
    no_key : refused invalid_public_key ≡ verified_key k → ⊥
    no_key h = cc
