-- ===== src/Auth.antt =====
-- src/services/auth.service.ts: SEP-10 challenges and session tokens. The Stellar SDK and
-- `jsonwebtoken` are the arguments `sdk` and `jwt`. Times are milliseconds, those of a transaction
-- seconds, and the clock is read once per call.
pub mod Challenges
pub mod Reuse
pub mod Login
pub mod Guards
pub mod Sessions
pub mod Entry
pub mod Refusals
use stellar_kraal_backend.Prelude.{
  ltb, if◌then◌else◌, append, take_text, before_colon, after_colon, Map, lookup, remove, assign, ℕ,
  ◌+◌, ◌*◌, ◌/◌, String, Bool, false, ◌||◌, Option, none, some, List, [], ◌∷◌, str_eq,
}

pub data Operation : Type 0 where
  manage_data : (name : String) → (value : Option String) → Operation
  other_operation : Operation

-- What `verifyChallenge` reads of a decoded transaction.
pub record Transaction : Type 0 where
  pub time_bounds : Option (ℕ × ℕ)
  pub operations : List Operation
  pub hash : String
  pub signatures : List String

-- `isValidEd25519PublicKey`; the transaction of an XDR envelope, or `none` where that throws; and
-- whether a key has made a signature of a hash, false where that throws.
pub record Stellar : Type 0 where
  pub is_valid_public_key : String → Bool
  pub decode : String → Option Transaction
  pub verify : String → String → String → Bool

pub record PendingChallenge : Type 0 where
  pub nonce : String
  pub expires_at : ℕ

pub data AuthError : Type 0 where
  invalid_public_key no_pending_challenge challenge_expired invalid_xdr : AuthError
  bounds_expired bounds_not_yet_valid missing_operation : AuthError
  key_mismatch nonce_mismatch missing_signature : AuthError

pub data Checked : Type 0 where
  verified_key : String → Checked
  refused : AuthError → Checked

-- The content of a challenge transaction.
pub record Challenge : Type 0 where
  pub min_time : ℕ
  pub max_time : ℕ
  pub operations : List Operation

abbrev pub challenge_ttl_seconds : ℕ
challenge_ttl_seconds = 300

abbrev pub operation_name : String
operation_name = "stellarkraal_auth"

abbrev pub payload : String → String → String
payload client_public_key nonce = append client_public_key (append ":" (take_text 7 nonce))

abbrev pub challenge_of : ℕ → String → String → Challenge
challenge_of now client_public_key nonce = record {
  min_time = now / 1000;
  max_time = now / 1000 + challenge_ttl_seconds;
  operations = manage_data operation_name (some (payload client_public_key nonce)) ∷ [];
}

-- The nonce is the random UUID without its dashes. `none` is the throw for an invalid key.
unfoldable pub build_challenge :
    Stellar → ℕ → String → String → Map PendingChallenge → Option Challenge × Map PendingChallenge
build_challenge sdk now client_public_key nonce challenges =
    if sdk.is_valid_public_key client_public_key
    then (
      some (challenge_of now client_public_key nonce),
      assign client_public_key
          (record { nonce = nonce; expires_at = now + challenge_ttl_seconds * 1000 }) challenges,
    )
    else (none, challenges)

-- The checks of `verifyChallenge`, each the error that it throws.

abbrev pub or_else : Option AuthError → Option AuthError → Option AuthError
or_else none e = e
or_else (some e) _ = some e

abbrev pub time_error : ℕ → Option (ℕ × ℕ) → Option AuthError
time_error now none = some bounds_expired
time_error now (some (min_time, max_time)) =
    if ltb max_time (now / 1000)
    then some bounds_expired
    else if ltb (now / 1000) min_time
    then some bounds_not_yet_valid
    else none

-- `op?.value` of the first operation with the name.
unfoldable pub payload_of : List Operation → Option String
payload_of [] = none
payload_of (other_operation ∷ rest) = payload_of rest
payload_of (manage_data name value ∷ rest) =
    let others = payload_of rest in if str_eq name operation_name then value else others

abbrev pub embedded_nonce : Option String → Option String
embedded_nonce none = none
embedded_nonce (some rest) = some (before_colon rest)

abbrev pub nonce_error : String → Option String → Option AuthError
nonce_error nonce none = some nonce_mismatch
nonce_error nonce (some embedded) =
    if str_eq embedded (take_text 7 nonce) then none else some nonce_mismatch

abbrev pub payload_error : String → String → Option String → Option AuthError
payload_error client_public_key nonce none = some missing_operation
payload_error client_public_key nonce (some value) =
    if str_eq (before_colon value) client_public_key
    then nonce_error nonce (embedded_nonce (after_colon value))
    else some key_mismatch

unfoldable pub is_signed : Stellar → String → String → List String → Bool
is_signed sdk key hash [] = false
is_signed sdk key hash (s ∷ rest) = sdk.verify key hash s || is_signed sdk key hash rest

unfoldable pub transaction_error :
    Stellar → ℕ → String → String → Option Transaction → Option AuthError
unfolding payload_of is_signed
transaction_error sdk now client_public_key nonce none = some invalid_xdr
transaction_error sdk now client_public_key nonce (some tx) =
    or_else (time_error now tx.time_bounds) (
      or_else (payload_error client_public_key nonce (payload_of tx.operations)) (
        if is_signed sdk client_public_key tx.hash tx.signatures
        then none
        else some missing_signature))

-- The nonce is consumed by a success.
abbrev pub settle :
    String → Option AuthError → Map PendingChallenge → Checked × Map PendingChallenge
settle client_public_key none challenges =
    (verified_key client_public_key, remove client_public_key challenges)
settle client_public_key (some e) challenges = (refused e, challenges)

abbrev pub verify_pending :
    Stellar
    → ℕ
    → String
    → String
    → Option PendingChallenge
    → Map PendingChallenge
    → Checked × Map PendingChallenge
verify_pending sdk now client_public_key signed_xdr none challenges =
    (refused no_pending_challenge, challenges)
verify_pending sdk now client_public_key signed_xdr (some challenge) challenges =
    if ltb challenge.expires_at now
    then (refused challenge_expired, remove client_public_key challenges)
    else settle client_public_key
        (transaction_error sdk now client_public_key challenge.nonce (sdk.decode signed_xdr))
        challenges

unfoldable pub verify_challenge :
    Stellar → ℕ → String → String → Map PendingChallenge → Checked × Map PendingChallenge
unfolding transaction_error
verify_challenge sdk now client_public_key signed_xdr challenges =
    if sdk.is_valid_public_key client_public_key
    then verify_pending sdk now client_public_key signed_xdr (lookup client_public_key challenges)
        challenges
    else (refused invalid_public_key, challenges)
