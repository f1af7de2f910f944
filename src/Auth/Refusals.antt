-- ===== src/Auth/Refusals.antt =====
-- How `login` answers what `verifyChallenge` throws.
use stellar_kraal_backend.Prelude.{
  if◌then◌else◌, trim, lower_codes, starts_with, includes, Map, ℕ, String, ◌≡◌, refl, ap, Bool,
  true, false, not, some, List, str_eq,
}
use stellar_kraal_backend.Database.{User}
use stellar_kraal_backend.Auth.{
  Stellar, PendingChallenge, AuthError, invalid_public_key, no_pending_challenge, challenge_expired,
  invalid_xdr, bounds_expired, bounds_not_yet_valid, missing_operation, key_mismatch,
  nonce_mismatch, missing_signature, refused, verify_challenge,
}
use stellar_kraal_backend.Auth.Login.{
  Jwt, login, JwtSecrets, message_of, any_included, is_auth_error, authentication_failed,
  server_error,
}

-- The refusals that `login` answers as errors of the server.
abbrev pub is_server_error : AuthError → Bool
is_server_error invalid_xdr = true
is_server_error bounds_not_yet_valid = true
is_server_error missing_operation = true
is_server_error _ = false

is_auth_error-message_of : (e : AuthError) → is_auth_error (message_of e) ≡ not (is_server_error e)
unfolding is_auth_error message_of any_included includes starts_with lower_codes
is_auth_error-message_of invalid_public_key = refl
is_auth_error-message_of no_pending_challenge = refl
is_auth_error-message_of challenge_expired = refl
is_auth_error-message_of invalid_xdr = refl
is_auth_error-message_of bounds_expired = refl
is_auth_error-message_of bounds_not_yet_valid = refl
is_auth_error-message_of missing_operation = refl
is_auth_error-message_of key_mismatch = refl
is_auth_error-message_of nonce_mismatch = refl
is_auth_error-message_of missing_signature = refl

refusal_response :
    (b c : Bool) (e : AuthError)
    → b ≡ not c
    → (if b then authentication_failed e else server_error e)
      ≡ (if c then server_error e else authentication_failed e)
refusal_response b true e h = rw h refl
refusal_response b false e h = rw h refl

-- A login that `verifyChallenge` refuses creates no user and no session. The answer is a 401,
-- except for a transaction that cannot be decoded, is not valid yet or lacks the operation: those
-- are passed on as errors of the server.
pub login-refused :
    (sdk : Stellar) (jwt : Jwt) (secrets : JwtSecrets) (now : ℕ) (cuid key xdr : String)
    (challenges challenges' : Map PendingChallenge) (users : List User) (e : AuthError)
    → str_eq key "" ≡ false
    → str_eq xdr "" ≡ false
    → verify_challenge sdk now (trim key) (trim xdr) challenges ≡ (refused e, challenges')
    → login sdk jwt secrets now cuid (some key) (some xdr) (challenges, users) ≡ (
      if is_server_error e then server_error e else authentication_failed e,
      (challenges', users),
    )
unfolding login
login-refused sdk jwt secrets now cuid key xdr challenges challenges' users e k x h =
    let response = refusal_response _ (is_server_error e) e (is_auth_error-message_of e) in
    rw k (rw x (rw h (ap (λ r. (r, (challenges', users))) response)))
