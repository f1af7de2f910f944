-- ===== src/Auth/Reuse.antt =====
-- What a sequence of requests does to the pending challenges.
use stellar_kraal_backend.Prelude.{
  ltb, Bool-cases, Option-cases, All, take_text, has_colon, before-append, before_colon-whole,
  has_colon-take_text, Map, lookup, remove, lookup-remove_same, lookup-remove_other,
  lookup-assign_same, lookup-assign_other, signed, ℕ, ◌+◌, ◌*◌, ◌/◌, ◌≤◌, String, ◌≡◌, refl, ap,
  ◌∙◌, subst, ◌≢◌, ◌⊎◌, inl, inr, true, false, none, some, List, [], ◌∷◌, arith, str_eq, eq_iff,
  eq_refl,
}
use stellar_kraal_backend.Auth.{
  Stellar, Transaction, PendingChallenge, no_pending_challenge, verified_key, refused, challenge_of,
  build_challenge, payload_of, is_signed, transaction_error, verify_challenge,
}
use stellar_kraal_backend.Auth.Challenges.{verify_challenge-Answers}

-- A request for a challenge (with the time, the key and the nonce drawn), or a login.
pub data Request : Type 0 where
  challenge_request : ℕ → String → String → Request
  login_request : ℕ → String → String → Request

unfoldable pub serve : Stellar → Request → Map PendingChallenge → Map PendingChallenge
unfolding build_challenge verify_challenge
serve sdk (challenge_request now key nonce) challenges =
    (build_challenge sdk now key nonce challenges).1
serve sdk (login_request now key xdr) challenges = (verify_challenge sdk now key xdr challenges).1

unfoldable pub serve_all : Stellar → List Request → Map PendingChallenge → Map PendingChallenge
unfolding serve
serve_all sdk [] challenges = challenges
serve_all sdk (r ∷ rs) challenges = serve_all sdk rs (serve sdk r challenges)

-- Not a request for a challenge for the key.
abbrev pub AsksNothingFor : String → Request → Type 0
AsksNothingFor key (challenge_request now key' nonce) = key' ≢ key
AsksNothingFor key (login_request now key' xdr) = Unit

lookup-remove-none :
    {A : Type 0} (k k' : String) (m : Map A) → lookup k' m ≡ none → lookup k' (remove k m) ≡ none
lookup-remove-none k k' m h = elim (Bool-cases (str_eq k k')) [
  | inl same ↦
      subst (λ j. lookup j (remove k m) ≡ none) (ground (arith, eq_iff k k'))
        (lookup-remove_same k m)
  | inr other ↦ lookup-remove_other k k' m (ground (arith, eq_iff k k')) ∙ h
]

-- A login leaves the table as it was, or removes the key that it is for.
verify_challenge-table :
    (sdk : Stellar) (now : ℕ) (key xdr : String) (challenges : Map PendingChallenge)
    → ((verify_challenge sdk now key xdr challenges).1 ≡ challenges)
      ⊎ ((verify_challenge sdk now key xdr challenges).1 ≡ remove key challenges)
unfolding verify_challenge
verify_challenge-table sdk now key xdr challenges =
    elim (Bool-cases (sdk.is_valid_public_key key)) [
      | inl valid ↦ elim (Option-cases (lookup key challenges)) [
        | inl absent ↦ inl (rw valid (rw absent refl))
        | inr (p, found) ↦ elim (Bool-cases (ltb p.expires_at now)) [
          | inl late ↦ inr (rw valid (rw found (rw late refl)))
          | inr in_time ↦
              elim (Option-cases (transaction_error sdk now key p.nonce (sdk.decode xdr))) [
                | inl clear ↦ inr (rw valid (rw found (rw in_time (rw clear refl))))
                | inr (e, bad) ↦ inl (rw valid (rw found (rw in_time (rw bad refl))))
              ]
        ]
      ]
      | inr bad ↦ inl (rw bad refl)
    ]

build_challenge-other :
    (sdk : Stellar) (now : ℕ) (key nonce other : String) (challenges : Map PendingChallenge)
    → key ≢ other
    → lookup other (build_challenge sdk now key nonce challenges).1 ≡ lookup other challenges
unfolding build_challenge
build_challenge-other sdk now key nonce other challenges ne =
    elim (Bool-cases (sdk.is_valid_public_key key)) [
      | inl valid ↦ rw valid (lookup-assign_other key other _ challenges ne)
      | inr bad ↦ rw bad refl
    ]

serve-none :
    (sdk : Stellar) (r : Request) (challenges : Map PendingChallenge) (key : String)
    → AsksNothingFor key r
    → lookup key challenges ≡ none
    → lookup key (serve sdk r challenges) ≡ none
unfolding serve
serve-none sdk (challenge_request now key' nonce) challenges key ne h =
    build_challenge-other sdk now key' nonce key challenges ne ∙ h
serve-none sdk (login_request now key' xdr) challenges key ne h =
    elim (verify_challenge-table sdk now key' xdr challenges) [
      | inl same ↦ ap (lookup key) same ∙ h
      | inr gone ↦ ap (lookup key) gone ∙ lookup-remove-none key' key challenges h
    ]

serve_all-none :
    (sdk : Stellar) (rs : List Request) (challenges : Map PendingChallenge) (key : String)
    → All (AsksNothingFor key) rs
    → lookup key challenges ≡ none
    → lookup key (serve_all sdk rs challenges) ≡ none
unfolding serve_all
serve_all-none sdk [] challenges key h absent = absent
serve_all-none sdk (r ∷ rs) challenges key (first, others) absent =
    serve_all-none sdk rs (serve sdk r challenges) key others
      (serve-none sdk r challenges key first absent)

no_challenge_refused :
    (sdk : Stellar) (now : ℕ) (key xdr : String) (challenges : Map PendingChallenge)
    → sdk.is_valid_public_key key ≡ true
    → lookup key challenges ≡ none
    → verify_challenge sdk now key xdr challenges ≡ (refused no_pending_challenge, challenges)
unfolding verify_challenge
no_challenge_refused sdk now key xdr challenges valid absent = rw valid (rw absent refl)

-- A challenge is used once: after a login that passes, and any requests that ask for no new
-- challenge for that key, every login with that key is refused for want of a challenge, whatever
-- its transaction and its time. The key is a valid one.
pub verify_challenge-single_use :
    (sdk : Stellar) (now later : ℕ) (key xdr xdr' : String) (challenges rest : Map PendingChallenge)
    (k : String) (rs : List Request)
    → sdk.is_valid_public_key key ≡ true
    → verify_challenge sdk now key xdr challenges ≡ (verified_key k, rest)
    → All (AsksNothingFor key) rs
    → (verify_challenge sdk later key xdr' (serve_all sdk rs rest)).0 ≡ refused no_pending_challenge
verify_challenge-single_use sdk now later key xdr xdr' challenges rest k rs valid h quiet =
    let (_, gone, _) = verify_challenge-Answers sdk now key xdr challenges rest k h in
    let absent =
      serve_all-none sdk rs rest key quiet
        (ap (lookup key) gone ∙ lookup-remove_same key challenges) in
    ap (λ t. t.0) (no_challenge_refused sdk later key xdr' (serve_all sdk rs rest) valid absent)

-- A challenge can be answered for five minutes: a login with a transaction of the content that was
-- built for a valid key, signed with the key, passes, and removes the challenge. Neither the key
-- nor the nonce has a colon.
pub build-verify_challenge :
    (sdk : Stellar) (now later : ℕ) (key nonce xdr : String) (challenges : Map PendingChallenge)
    (tx : Transaction)
    → sdk.is_valid_public_key key ≡ true
    → has_colon key ≡ false
    → has_colon nonce ≡ false
    → sdk.decode xdr ≡ some tx
    → tx.time_bounds
      ≡ some ((challenge_of now key nonce).min_time, (challenge_of now key nonce).max_time)
    → tx.operations ≡ (challenge_of now key nonce).operations
    → is_signed sdk key tx.hash tx.signatures ≡ true
    → now ≤ later
    → later ≤ now + 300000
    → let (built, challenges') = build_challenge sdk now key nonce challenges in
      (built ≡ some (challenge_of now key nonce))
      × (verify_challenge sdk later key xdr challenges'
          ≡ (verified_key key, remove key challenges'))
unfolding build_challenge verify_challenge transaction_error payload_of
build-verify_challenge sdk now later key nonce xdr challenges tx valid k n decoded bounds ops signed
      after before =
    let early : ltb (now + 300 * 1000) later ≡ false = ground arith in
    let not_late : ltb (now / 1000 + 300) (later / 1000) ≡ false = ground arith in
    let not_early : ltb (later / 1000) (now / 1000) ≡ false = ground arith in
    let (head, tail) = before-append key (take_text 7 nonce) k in
    let whole = before_colon-whole (take_text 7 nonce) (has_colon-take_text 7 nonce n) in
    (
      rw valid refl,
      simp (
        valid,
        lookup-assign_same key (record { nonce = nonce; expires_at = now + 300 * 1000 }) challenges,
        early,
        decoded,
        bounds,
        not_late,
        not_early,
        ops,
        head,
        tail,
        whole,
        eq_refl key,
        eq_refl (take_text 7 nonce),
        signed,
      ),
    )
