-- ===== src/Auth/Sessions.antt =====
-- From a login to a guarded route.
use stellar_kraal_backend.Prelude.{
  ltb, Bool-cases, Option-cases, ℕ, ◌+◌, ◌≤◌, ◌<◌, String, ◌≡◌, refl, ap, ◌∙◌, ◌≢◌, ◌⊎◌, inl, inr,
  true, false, Option, none, some, List, [], ◌∷◌, arith, str_eq, eq_iff,
}
use stellar_kraal_backend.Auth.{payload, Stellar}
use stellar_kraal_backend.Auth.Entry.{login-LoggedIn}
use stellar_kraal_backend.Auth.Login.{
  Jwt, non_empty, TokenPayload, JwtSecrets, within_rotation_overlap, verify_jwt, login, logged_in,
  LoginState,
}
use stellar_kraal_backend.Auth.Guards.{
  same_role, Access, require_auth, unauthorized, extract_token, forbidden, granted, includes_role,
  require_role,
}
use stellar_kraal_backend.Database.{Role, farmer, investor, admin, User}

-- A token that passes is verified by the current secret; or, if not by that, by the previous one,
-- which is set, while the overlap of a rotation lasts.
pub verify_jwt-cases :
    (jwt : Jwt) (secrets : JwtSecrets) (now : ℕ) (token : String) (payload : TokenPayload)
    → verify_jwt jwt secrets now token ≡ some payload
    → (jwt.verify now secrets.current token ≡ some payload)
      ⊎ ((jwt.verify now secrets.current token ≡ none)
          × (jwt.verify now secrets.previous token ≡ some payload)
          × (str_eq secrets.previous "" ≡ false)
          × ((t : ℕ) × (secrets.rotated_at ≡ some t) × (now < t + secrets.overlap)))
unfolding verify_jwt within_rotation_overlap
verify_jwt-cases jwt secrets now token payload h =
    elim (Option-cases (jwt.verify now secrets.current token)) [
      | inr (p, e) ↦ inl (e ∙ (rw e at h))
      | inl e ↦ elim (Bool-cases (str_eq secrets.previous "")) [
        | inl empty ↦ ground arith
        | inr set ↦ elim (Option-cases secrets.rotated_at) [
          | inl unset ↦ ground arith
          | inr (t, r) ↦ elim (Bool-cases (ltb now (t + secrets.overlap))) [
            | inl within ↦ inr (e, ground arith, set, (t, r, ground arith))
            | inr past ↦ ground arith
          ]
        ]
      ]
    ]

-- Once the overlap of a rotation has passed, a token that the current secret does not verify opens
-- no route, whichever secret it was signed with.
pub require_auth-after_rotation :
    (jwt : Jwt) (secrets : JwtSecrets) (now t : ℕ) (cookie header : Option String) (token : String)
    → secrets.rotated_at ≡ some t
    → t + secrets.overlap ≤ now
    → non_empty (extract_token cookie header) ≡ some token
    → jwt.verify now secrets.current token ≡ none
    → require_auth jwt secrets now cookie header ≡ unauthorized
unfolding require_auth verify_jwt within_rotation_overlap
require_auth-after_rotation jwt secrets now t cookie header token r past e bad =
    let late : ltb now (t + secrets.overlap) ≡ false = ground arith in
    let closed = rotation_over secrets now t r late in rw e (rw bad (rw closed refl))
  where
    rotation_over :
        (secrets : JwtSecrets) (now t : ℕ)
        → secrets.rotated_at ≡ some t
        → ltb now (t + secrets.overlap) ≡ false
        → within_rotation_overlap secrets now ≡ false
    rotation_over secrets now t r late = ground arith

-- What `jsonwebtoken` documents of tokens that live for a time: one that was signed is not empty, and
-- the secret that signed it verifies it until it expires.
pub record HasLifetime (jwt : Jwt) (lifetime : ℕ) : Type 0 where
  pub sign_full : (now : ℕ) (secret : String) (p : TokenPayload) → jwt.sign now secret p ≢ ""
  pub verify-sign :
      (now later : ℕ) (secret : String) (p : TokenPayload)
      → now ≤ later
      → later < now + lifetime
      → jwt.verify later secret (jwt.sign now secret p) ≡ some p

-- A secret is the current one; or it is the previous one, not empty and within the overlap of a
-- rotation, and the current one does not verify the token.
abbrev pub StillAccepts : Jwt → JwtSecrets → ℕ → String → String → Type 0
StillAccepts jwt secrets now secret token =
    (secrets.current ≡ secret)
    ⊎ ((jwt.verify now secrets.current token ≡ none)
        × (secrets.previous ≡ secret)
        × (secret ≢ "")
        × ((t : ℕ) × (secrets.rotated_at ≡ some t) × (now < t + secrets.overlap)))

verify_jwt-accepted :
    (jwt : Jwt) (secrets : JwtSecrets) (now : ℕ) (secret token : String) (p : TokenPayload)
    → StillAccepts jwt secrets now secret token
    → jwt.verify now secret token ≡ some p
    → verify_jwt jwt secrets now token ≡ some p
unfolding verify_jwt within_rotation_overlap
verify_jwt-accepted jwt secrets now secret token p (inl same) ok = rw same (rw ok refl)
verify_jwt-accepted jwt secrets now secret token p (inr (bad, same, set, (t, r, within))) ok =
    let filled : str_eq secrets.previous "" ≡ false =
      ground (arith, eq_iff secrets.previous "", eq_iff secret "") in
    let early : ltb now (t + secrets.overlap) ≡ true = ground arith in
    rw bad (rw filled (rw r (rw early (rw same ok))))

-- Membership in the roles of a route.
abbrev pub IsAmong : Role → List Role → Type 0
IsAmong r [] = ⊥
IsAmong r (x ∷ xs) = (r ≡ x) ⊎ IsAmong r xs

same_role-eq : (x r : Role) → same_role x r ≡ true → r ≡ x
same_role-eq farmer farmer h = refl
same_role-eq investor investor h = refl
same_role-eq admin admin h = refl
same_role-eq farmer investor h = absurd (ground arith)
same_role-eq farmer admin h = absurd (ground arith)
same_role-eq investor farmer h = absurd (ground arith)
same_role-eq investor admin h = absurd (ground arith)
same_role-eq admin farmer h = absurd (ground arith)
same_role-eq admin investor h = absurd (ground arith)

same_role_self : (r : Role) → same_role r r ≡ true
same_role_self farmer = refl
same_role_self investor = refl
same_role_self admin = refl

includes_role-IsAmong :
    (r : Role) (roles : List Role) → includes_role r roles ≡ true → IsAmong r roles
unfolding includes_role
includes_role-IsAmong r [] h = absurd (ground arith)
includes_role-IsAmong r (x ∷ xs) h = elim (Bool-cases (same_role x r)) [
  | inl e ↦ inl (same_role-eq x r e)
  | inr e ↦ inr (includes_role-IsAmong r xs (rw e at h))
]

IsAmong-includes_role :
    (r : Role) (roles : List Role) → IsAmong r roles → includes_role r roles ≡ true
unfolding includes_role
IsAmong-includes_role r [] h = absurd h
IsAmong-includes_role r (x ∷ xs) (inl e) =
    let same : same_role x r ≡ true = ap (same_role x) e ∙ same_role_self x in rw same refl
IsAmong-includes_role r (x ∷ xs) (inr h) = elim (Bool-cases (same_role x r)) [
  | inl e ↦ rw e refl
  | inr e ↦ rw e (IsAmong-includes_role r xs h)
]

-- The answer of a route with these roles to a user.
abbrev pub Decides : List Role → TokenPayload → Access → Type 0
Decides roles p answer =
    (IsAmong p.role roles × (answer ≡ granted p))
    ⊎ ((IsAmong p.role roles → ⊥) × (answer ≡ forbidden))

require_role-Decides :
    (roles : List Role) (p : TokenPayload) → Decides roles p (require_role roles (granted p))
unfolding require_role
require_role-Decides roles p = elim (Bool-cases (includes_role p.role roles)) [
  | inl e ↦ inl (includes_role-IsAmong p.role roles e, rw e refl)
  | inr e ↦ inr ((λ h. absurd (ground (arith, IsAmong-includes_role p.role roles h))), rw e refl)
]

require_auth_cookie :
    (jwt : Jwt) (secrets : JwtSecrets) (now : ℕ) (token : String) (header : Option String)
    (p : TokenPayload)
    → str_eq token "" ≡ false
    → verify_jwt jwt secrets now token ≡ some p
    → require_auth jwt secrets now (some token) header ≡ granted p
unfolding require_auth extract_token verify_jwt
require_auth_cookie jwt secrets now token header p full valid = simp (full, valid)

-- The token of a login that succeeds, sent in the session cookie while it lives, opens the routes
-- whose roles include the user's, with the user's identifier, key and role, and is answered with
-- 403 by the others; whatever the header says, and also after the secret that signed it was rotated
-- out, while the overlap of the rotation lasts.
pub login_opens :
    (sdk : Stellar) (jwt : Jwt) (secrets secrets' : JwtSecrets) (lifetime now later : ℕ)
    (cuid token : String) (public_key xdr header : Option String) (s s' : LoginState) (u : User)
    (roles : List Role)
    → HasLifetime jwt lifetime
    → login sdk jwt secrets now cuid public_key xdr s ≡ (logged_in token u, s')
    → now ≤ later
    → later < now + lifetime
    → StillAccepts jwt secrets' later secrets.current token
    → Decides roles
        (record { sub = u.id; public_key = u.public_key; role = u.role })
        (require_role roles (require_auth jwt secrets' later (some token) header))
login_opens sdk jwt secrets secrets' lifetime now later cuid token public_key xdr header s s' u
      roles lives h from until accepts =
    let p : TokenPayload = record { sub = u.id; public_key = u.public_key; role = u.role } in
    let entered =
      login-LoggedIn sdk jwt secrets now cuid s.1 s'.1 token u s.0 s'.0 public_key xdr h in
    let signed_as : token ≡ jwt.sign now secrets.current p = entered.token_of_user in
    let full : str_eq token "" ≡ false =
      ground (arith, eq_iff token "", lives.sign_full now secrets.current p) in
    let valid : verify_jwt jwt secrets' later token ≡ some p =
      verify_jwt-accepted jwt secrets' later secrets.current token p accepts (
        ap (jwt.verify later secrets.current) signed_as
        ∙ lives.verify-sign now later secrets.current p from until) in
    rw (require_auth_cookie jwt secrets' later token header p full valid)
      (require_role-Decides roles p)
