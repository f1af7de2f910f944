-- ===== src/Auth/Guards.antt =====
-- The guards of src/middleware/requireAuth.ts, which stand before the handlers of a route.
use stellar_kraal_backend.Prelude.{
  if◌then◌else◌, drop_prefix, ℕ, String, Bool, true, false, ◌||◌, Option, none, some, List, [], ◌∷◌,
}
use stellar_kraal_backend.Database.{Role, farmer, investor, admin}
use stellar_kraal_backend.Auth.Login.{Jwt, non_empty, TokenPayload, JwtSecrets, verify_jwt}

-- The 401 without a token, the 401 for a bad one, the 403, and `next()` with the user.
pub data Access : Type 0 where
  missing_token unauthorized forbidden : Access
  granted : TokenPayload → Access

abbrev pub bearer : Option String → Option String
bearer none = none
bearer (some header) = drop_prefix "Bearer " header

abbrev pub first_token : Option String → Option String → Option String
first_token (some cookie) header = some cookie
first_token none header = bearer header

-- The session cookie, or else the header.
unfoldable pub extract_token : Option String → Option String → Option String
unfolding drop_prefix
extract_token cookie header = first_token (non_empty cookie) header

abbrev pub checked_token : Option TokenPayload → Access
checked_token none = unauthorized
checked_token (some payload) = granted payload

abbrev pub authorize : Jwt → JwtSecrets → ℕ → Option String → Access
authorize jwt secrets now none = missing_token
authorize jwt secrets now (some token) = checked_token (verify_jwt jwt secrets now token)

unfoldable pub require_auth : Jwt → JwtSecrets → ℕ → Option String → Option String → Access
unfolding verify_jwt extract_token
require_auth jwt secrets now cookie header =
    authorize jwt secrets now (non_empty (extract_token cookie header))

abbrev pub same_role : Role → Role → Bool
same_role farmer farmer = true
same_role investor investor = true
same_role admin admin = true
same_role _ _ = false

unfoldable pub includes_role : Role → List Role → Bool
includes_role r [] = false
includes_role r (x ∷ xs) = same_role x r || includes_role r xs

-- The role guard after the guard of the session; a request that the first refuses does not reach it.
unfoldable pub require_role : List Role → Access → Access
unfolding includes_role
require_role roles (granted payload) =
    if includes_role payload.role roles then granted payload else forbidden
require_role roles missing_token = missing_token
require_role roles unauthorized = unauthorized
require_role roles forbidden = forbidden
