-- ===== src/Auth/Entry.antt =====
-- What a login has checked.
use stellar_kraal_backend.Prelude.{
  if◌then◌else◌, Bool-cases, Option-cases, find, find-append_none, find-passes, trim, Map, lookup,
  remove, signed, ℕ, ◌≤◌, String, ◌≡◌, refl, sym, ap, ◌∙◌, subst, ◌≢◌, ◌⊎◌, inl, inr, Bool, true,
  false, Option, none, some, List, [], ◌∷◌, arith, str_eq, eq_iff, eq_refl,
}
use stellar_kraal_backend.Database.{User, farmer, has_public_key}
use stellar_kraal_backend.Auth.{
  Stellar, Transaction, PendingChallenge, AuthError, Checked, verified_key, refused,
  verify_challenge,
}
use stellar_kraal_backend.Auth.Challenges.{Answers, verify_challenge-Answers}
use stellar_kraal_backend.Auth.Login.{
  Jwt, non_empty, JwtSecrets, token_payload, new_user, found_or_created, logged_in, LoginState,
  authenticate_user, message_of, is_auth_error, LoginResponse, public_key_required,
  transaction_required, authentication_failed, server_error, log_in, login,
}

non_empty-some : (o : Option String) (s : String) → non_empty o ≡ some s → o ≡ some s
non_empty-some none s h = h
non_empty-some (some t) s h = elim (Bool-cases (str_eq t "")) [
  | inl empty ↦ ground arith
  | inr full ↦ rw full at h
]

-- A user is found by the key that was verified, or created with it as a farmer.
abbrev pub IsUserOf : String → List User → User → List User → Type 0
IsUserOf key users u users' =
    (u.public_key ≡ key)
    × (find (has_public_key key) users' ≡ some u)
    × ((find (has_public_key key) users ≡ some u) × (users' ≡ users)
        ⊎ (find (has_public_key key) users ≡ none) × (u.role ≡ farmer))

found-IsUserOf :
    (cuid key : String) (users : List User) (o : Option User)
    → find (has_public_key key) users ≡ o
    → let (u, users') = found_or_created cuid key o users in IsUserOf key users u users'
unfolding find
found-IsUserOf cuid key users (some u) e = (
  ground (arith, eq_iff u.public_key key, find-passes (has_public_key key) users u e),
  e,
  inl (e, refl),
)
found-IsUserOf cuid key users none e = (
  refl,
  find-append_none (has_public_key key) users (new_user cuid key ∷ []) e ∙ (rw (eq_refl key) refl),
  inr (e, refl),
)

-- What a login has established, of the key and the transaction of its body.
pub record LoggedIn (sdk : Stellar) (jwt : Jwt) (secrets : JwtSecrets) (now : ℕ)
    (public_key signed : Option String) (challenges : Map PendingChallenge) (users : List User)
    (token : String) (u : User) (challenges' : Map PendingChallenge) (users' : List User)
    : Type 0 where
  pub key : String
  pub xdr : String
  pub key_given : public_key ≡ some key
  pub xdr_given : signed ≡ some xdr
  pub answered :
      (p : PendingChallenge) × (tx : Transaction) × (lookup (trim key) challenges ≡ some p)
      × (now ≤ p.expires_at)
      × (sdk.decode (trim xdr) ≡ some tx)
      × Answers sdk now (trim key) p.nonce tx
  pub consumed : challenges' ≡ remove (trim key) challenges
  pub user : IsUserOf (trim key) users u users'
  pub token_of_user : token ≡ jwt.sign now secrets.current (token_payload u)

abbrev logged_in_pair : String → User → LoginState → LoginResponse × LoginState
logged_in_pair t u s = (logged_in t u, s)

logged_in-injective :
    (t t' : String) (u u' : User) (s s' : LoginState)
    → logged_in_pair t u s ≡ logged_in_pair t' u' s'
    → (t ≡ t') × (u ≡ u') × (s.0 ≡ s'.0) × (s.1 ≡ s'.1)
logged_in-injective t t' u u' s s' h =
    let e = ap (λ x. x.0) h in (token_of e, user_of e, ap (λ x. x.1.0) h, ap (λ x. x.1.1) h)
  where
    token_of : logged_in t u ≡ logged_in t' u' → t ≡ t'
    token_of e = cc

    user_of : logged_in t u ≡ logged_in t' u' → u ≡ u'
    user_of e = cc

refusal-not_logged_in :
    (b : Bool) (e : AuthError) (t : String) (u : User)
    → (if b then authentication_failed e else server_error e) ≢ logged_in t u
refusal-not_logged_in true e t u h = cc
refusal-not_logged_in false e t u h = cc

module _ (sdk : Stellar) (jwt : Jwt) (secrets : JwtSecrets) (now : ℕ) (cuid : String)
    (users users' : List User) (token : String) (u : User)
    (challenges challenges' : Map PendingChallenge) where
  log_in-logged_in :
      (c : Checked) (rest : Map PendingChallenge)
      → log_in jwt secrets now cuid (c, rest) users ≡ logged_in_pair token u (challenges', users')
      → (k : String) × (c ≡ verified_key k)
        × (challenges' ≡ rest)
        × IsUserOf k users u users'
        × (token ≡ jwt.sign now secrets.current (token_payload u))
  unfolding authenticate_user
  log_in-logged_in (refused e) rest h =
      absurd (refusal-not_logged_in (is_auth_error (message_of e)) e token u (ap (λ x. x.0) h))
  log_in-logged_in (verified_key k) rest h =
      let o = find (has_public_key k) users in
      let (v, vs) = found_or_created cuid k o users in
      let (t, same, gone, table) =
        logged_in-injective _ token v u (rest, vs) (challenges', users') h in
      (
        k,
        refl,
        sym gone,
        subst (λ w. IsUserOf k users w users') same
            (subst (λ us. IsUserOf k users v us) table (found-IsUserOf cuid k users o refl)),
        sym t ∙ ap (λ w. jwt.sign now secrets.current (token_payload w)) same,
      )

  pair-eta :
      (x : Checked × Map PendingChallenge) (k : String)
      → x.0 ≡ verified_key k
      → x ≡ (verified_key k, x.1)
  pair-eta (c, m) k h = rw h refl

  -- A login that succeeds gives the session of the user whose key was verified, found in the table
  -- or created as a farmer, and a token of that user signed with the current secret. The key and
  -- the transaction are those of the body, trimmed; the transaction answers a challenge for that
  -- key, which is consumed.
  pub login-LoggedIn :
      (public_key signed : Option String)
      → login sdk jwt secrets now cuid public_key signed (challenges, users)
        ≡ (logged_in token u, (challenges', users'))
      → LoggedIn sdk jwt secrets now public_key signed challenges users token u challenges' users'
  unfolding login
  login-LoggedIn public_key signed h = elim (Option-cases (non_empty public_key)) [
    | inl absent ↦ absurd (no_key (ap (λ x. x.0) (rw absent at h)))
    | inr (key, k) ↦ elim (Option-cases (non_empty signed)) [
      | inl absent ↦ absurd (no_transaction (ap (λ x. x.0) (rw (k, absent) at h)))
      | inr (xdr, x) ↦
          let r = verify_challenge sdk now (trim key) (trim xdr) challenges in
          let (v, of_key, rest, of_user, signed_token) =
            log_in-logged_in r.0 r.1 (rw (k, x) at h) in
          let (same, gone, answered) =
            verify_challenge-Answers sdk now (trim key) (trim xdr) challenges r.1 v
              (pair-eta r v of_key) in
          record {
            key = key;
            xdr = xdr;
            key_given = non_empty-some public_key key k;
            xdr_given = non_empty-some signed xdr x;
            answered = answered;
            consumed = rest ∙ gone;
            user = subst (λ j. IsUserOf j users u users') same of_user;
            token_of_user = signed_token;
          }
    ]
  ]
    where
      no_key : public_key_required ≡ logged_in token u → ⊥
      no_key e = cc

      no_transaction : transaction_required ≡ logged_in token u → ⊥
      no_transaction e = cc
