-- ===== src/Auth/Login.antt =====
-- Sessions: issuing and checking tokens (src/services/auth.service.ts), and `login` of
-- src/controllers/auth.controller.ts. A field of a
-- body that is absent or not a string, and a header or cookie that is absent, is `none`.
use stellar_kraal_backend.Prelude.{
  ltb, if◌then◌else◌, find, trim, lower_codes, includes, Map, signed, ℕ, ◌+◌, String, Bool, false,
  not, ◌&&◌, ◌||◌, Option, none, some, List, [], ◌∷◌, ◌++◌, str_eq,
}
use stellar_kraal_backend.Database.{User, Role, farmer, has_public_key}
use stellar_kraal_backend.Auth.{
  Stellar, PendingChallenge, AuthError, invalid_public_key, no_pending_challenge, challenge_expired,
  invalid_xdr, bounds_expired, bounds_not_yet_valid, missing_operation, key_mismatch,
  nonce_mismatch, missing_signature, Checked, verified_key, refused, payload, verify_challenge,
}

pub record TokenPayload : Type 0 where
  pub sub : String
  pub public_key : String
  pub role : Role

-- `jwt.sign` and `jwt.verify` with HS256, at a time; `none` is the throw of `verify`.
pub record Jwt : Type 0 where
  pub sign : ℕ → String → TokenPayload → String
  pub verify : ℕ → String → String → Option TokenPayload

-- `rotated_at` is `Date.parse` of the variable, `none` where it is empty or no date.
pub record JwtSecrets : Type 0 where
  pub current : String
  pub previous : String
  pub rotated_at : Option ℕ
  pub overlap : ℕ

abbrev pub since_rotation : ℕ → ℕ → Option ℕ → Bool
since_rotation now overlap none = false
since_rotation now overlap (some rotated_at) = ltb now (rotated_at + overlap)

unfoldable pub within_rotation_overlap : JwtSecrets → ℕ → Bool
within_rotation_overlap secrets now =
    not (str_eq secrets.previous "") && since_rotation now secrets.overlap secrets.rotated_at

abbrev pub verify_previous :
    Jwt → JwtSecrets → ℕ → String → Option TokenPayload → Option TokenPayload
verify_previous jwt secrets now token (some payload) = some payload
verify_previous jwt secrets now token none =
    if within_rotation_overlap secrets now then jwt.verify now secrets.previous token else none

unfoldable pub verify_jwt : Jwt → JwtSecrets → ℕ → String → Option TokenPayload
unfolding within_rotation_overlap
verify_jwt jwt secrets now token =
    verify_previous jwt secrets now token (jwt.verify now secrets.current token)

abbrev pub token_payload : User → TokenPayload
token_payload u = record { sub = u.id; public_key = u.public_key; role = u.role }

abbrev pub issue_jwt : Jwt → JwtSecrets → ℕ → TokenPayload → String
issue_jwt jwt secrets now payload = jwt.sign now secrets.current payload

-- A new user with the identifier that the database gives it.
abbrev pub new_user : String → String → User
new_user cuid public_key = record { id = cuid; public_key = public_key; role = farmer }

abbrev pub found_or_created : String → String → Option User → List User → User × List User
found_or_created cuid public_key none users =
    (new_user cuid public_key, users ++ new_user cuid public_key ∷ [])
found_or_created cuid public_key (some u) users = (u, users)

unfoldable pub authenticate_user :
    Jwt → JwtSecrets → ℕ → String → String → List User → (String × User) × List User
authenticate_user jwt secrets now cuid public_key users =
    let (u, users') =
      found_or_created cuid public_key (find (has_public_key public_key) users) users in
    ((issue_jwt jwt secrets now (token_payload u), u), users')

-- What `throw new Error` says in `verifyChallenge`.
unfoldable pub message_of : AuthError → String
message_of invalid_public_key = "Invalid Stellar public key"
message_of no_pending_challenge = "No pending challenge for this public key"
message_of challenge_expired = "Challenge has expired"
message_of invalid_xdr = "Invalid transaction XDR"
message_of bounds_expired = "Transaction time bounds expired"
message_of bounds_not_yet_valid = "Transaction time bounds not yet valid"
message_of missing_operation = "Missing stellarkraal_auth manage_data operation"
message_of key_mismatch = "Public key mismatch in challenge payload"
message_of nonce_mismatch = "Nonce mismatch"
message_of missing_signature = "Missing valid client signature on challenge transaction"

abbrev pub auth_error_patterns : List String
auth_error_patterns =
    "challenge" ∷ "nonce" ∷ "signature" ∷ "expired" ∷ "public key" ∷ "unauthorized" ∷ []

unfoldable pub any_included : List ℕ → List String → Bool
unfolding includes lower_codes
any_included lower [] = false
any_included lower (p ∷ ps) = includes (lower_codes p) lower || any_included lower ps

unfoldable pub is_auth_error : String → Bool
unfolding any_included
is_auth_error message = any_included (lower_codes message) auth_error_patterns

pub data LoginResponse : Type 0 where
  public_key_required transaction_required : LoginResponse
  -- 401, and `next(err)`.
  authentication_failed server_error : AuthError → LoginResponse
  logged_in : (token : String) → User → LoginResponse

abbrev pub non_empty : Option String → Option String
non_empty none = none
non_empty (some s) = if str_eq s "" then none else some s

-- The state of a login is the table of challenges and that of users.
abbrev pub LoginState : Type 0
LoginState = Map PendingChallenge × List User

abbrev pub log_in :
    Jwt
    → JwtSecrets
    → ℕ
    → String
    → Checked × Map PendingChallenge
    → List User
    → LoginResponse × LoginState
log_in jwt secrets now cuid (refused e, challenges) users = (
  if is_auth_error (message_of e) then authentication_failed e else server_error e,
  (challenges, users),
)
log_in jwt secrets now cuid (verified_key key, challenges) users =
    let ((token, u), users') = authenticate_user jwt secrets now cuid key users in
    (logged_in token u, (challenges, users'))

abbrev pub login_with :
    Stellar
    → Jwt
    → JwtSecrets
    → ℕ
    → String
    → Option String
    → Option String
    → LoginState
    → LoginResponse × LoginState
login_with sdk jwt secrets now cuid none signed s = (public_key_required, s)
login_with sdk jwt secrets now cuid (some key) none s = (transaction_required, s)
login_with sdk jwt secrets now cuid (some key) (some signed) (challenges, users) =
    log_in jwt secrets now cuid (verify_challenge sdk now (trim key) (trim signed) challenges) users

unfoldable pub login :
    Stellar
    → Jwt
    → JwtSecrets
    → ℕ
    → String
    → Option String
    → Option String
    → LoginState
    → LoginResponse × LoginState
unfolding verify_challenge authenticate_user is_auth_error message_of trim
login sdk jwt secrets now cuid public_key signed_transaction s =
    login_with sdk jwt secrets now cuid (non_empty public_key) (non_empty signed_transaction) s
