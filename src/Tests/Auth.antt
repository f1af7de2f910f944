-- ===== src/Tests/Auth.antt =====
-- A challenge, its answer, and the session that follows.
use stellar_kraal_backend.Prelude.{
  ◌==◌, if◌then◌else◌, find, is_blank, append, take_text, before_colon, after_colon, has_colon,
  trim_start, trim_end, trim, Map, lookup, remove, String, ◌≡◌, refl, sym, ap, ◌∙◌, ◌≢◌, inr, ◌||◌,
  Option, none, some, List, [], ◌∷◌, arith, str_eq, eq_iff, eq_refl,
}
use Prim.Native.Char.{Char, code}
use stellar_kraal_backend.Database.{User, Role, investor, admin, farmer}
use stellar_kraal_backend.Auth.{
  Stellar, manage_data, Transaction, PendingChallenge, no_pending_challenge, invalid_xdr,
  verified_key, refused, challenge_of, build_challenge, payload_of, is_signed, transaction_error,
  verify_challenge,
}
use stellar_kraal_backend.Auth.Reuse.{
  serve_all, Request, verify_challenge-single_use, build-verify_challenge, challenge_request,
  login_request,
}
use stellar_kraal_backend.Auth.Login.{
  Jwt, login, authenticate_user, TokenPayload, JwtSecrets, within_rotation_overlap, verify_jwt,
  server_error, logged_in,
}
use stellar_kraal_backend.Auth.Guards.{require_auth, require_role}
use stellar_kraal_backend.Auth.Sessions.{login_opens, HasLifetime, Decides}
use stellar_kraal_backend.Auth.Entry.{LoggedIn, login-LoggedIn}
use stellar_kraal_backend.Auth.Refusals.{login-refused}

abbrev answer : Transaction
answer = record {
  time_bounds = some (1000, 1300);
  operations = manage_data "stellarkraal_auth" (some "GA:0123456") ∷ [];
  hash = "hash";
  signatures = "other" ∷ "sig-GA" ∷ [];
}

abbrev sdk : Stellar
sdk = record {
  is_valid_public_key = λ key. str_eq key "GA" || str_eq key "GB";
  decode = λ xdr. if str_eq xdr "signed" then some answer else none;
  verify = λ key hash signature. str_eq signature "sig-GA";
}

abbrev ga : String
ga = "GA"

abbrev gb : String
gb = "GB"

abbrev SameText : String → String → Type 0
SameText a b = a ≡ b

abbrev pending_for_ga : Map PendingChallenge
pending_for_ga = ("GA", record { nonce = "0123456789"; expires_at = 1300000 }) ∷ []

verify_test : verify_challenge sdk 1100000 "GA" "signed" pending_for_ga ≡ (verified_key "GA", [])
unfolding verify_challenge transaction_error payload_of is_signed lookup remove before_colon
    after_colon take_text
verify_test = refl

-- Another key asks for a challenge, and the first logs in a second time.
abbrev requests : List Request
requests = challenge_request 1100001 "GB" "9999999" ∷ login_request 1100002 "GA" "signed" ∷ []

gb-ne-ga : gb ≢ ga
gb-ne-ga = ground (arith, eq_iff gb ga)

verify_challenge-single_use_example :
    (verify_challenge sdk 1200000 "GA" "signed" (serve_all sdk requests [])).0
    ≡ refused no_pending_challenge
verify_challenge-single_use_example =
    verify_challenge-single_use sdk 1100000 1200000 "GA" "signed" "signed" pending_for_ga [] "GA"
      requests refl verify_test (gb-ne-ga, (tt, tt))

build-verify_challenge_example :
    let (built, challenges') = build_challenge sdk 1000000 "GA" "0123456789" [] in
    (built ≡ some (challenge_of 1000000 "GA" "0123456789"))
    × (verify_challenge sdk 1299999 "GA" "signed" challenges'
        ≡ (verified_key "GA", remove "GA" challenges'))
unfolding has_colon append take_text is_signed
build-verify_challenge_example =
    build-verify_challenge sdk 1000000 1299999 "GA" "0123456789" "signed" [] answer refl refl refl
      refl refl refl refl (omega arith) (omega arith)

abbrev farmer_ga : TokenPayload
farmer_ga = record { sub = "u1"; public_key = "GA"; role = farmer }

-- A token is the secret and the user's identifier.
abbrev jwt : Jwt
jwt = record {
  sign = λ now secret p. append secret p.sub;
  verify = λ now secret token. if str_eq token (append secret "u1") then some farmer_ga else none;
}

abbrev secrets : JwtSecrets
secrets = record { current = "new-"; previous = "old-"; rotated_at = some 1000; overlap = 500 }

old_token_test : verify_jwt jwt secrets 1400 "old-u1" ≡ some farmer_ga
unfolding verify_jwt within_rotation_overlap append
old_token_test = refl

abbrev user_ga : User
user_ga = record { id = "u1"; public_key = "GA"; role = farmer }

login_test :
    login sdk jwt secrets 1100000 "u1" (some " GA ") (some "signed") (pending_for_ga, [])
    ≡ (logged_in "new-u1" user_ga, ([], user_ga ∷ []))
unfolding login authenticate_user verify_challenge transaction_error payload_of is_signed lookup
    remove before_colon after_colon take_text append trim trim_start trim_end is_blank find
login_test = refl

login-LoggedIn_example :
    LoggedIn sdk jwt secrets 1100000
      (some " GA ")
      (some "signed")
      pending_for_ga
      []
      "new-u1"
      user_ga
      []
      (user_ga ∷ [])
login-LoggedIn_example =
    login-LoggedIn sdk jwt secrets 1100000 "u1" [] (user_ga ∷ []) "new-u1" user_ga pending_for_ga []
      (some " GA ") (some "signed") login_test

-- A text with a mark before each character and a dot at its end, and what follows it.
abbrev marked : String → String → String
marked String.[] t = String.◌∷◌ "." t
marked (String.◌∷◌ c s) t = String.◌∷◌ "-" (String.◌∷◌ c (marked s t))

abbrev and_character : Char → Option (String × String) → Option (String × String)
and_character c none = none
and_character c (some (s, t)) = some (String.◌∷◌ c s, t)

abbrev unmarked : String → Option (String × String)
unmarked String.[] = none
unmarked (String.◌∷◌ m String.[]) = if code m == 46 then some ("", "") else none
unmarked (String.◌∷◌ m (String.◌∷◌ c s)) =
    let rest = unmarked s in
    if code m == 46 then some ("", String.◌∷◌ c s) else and_character c rest

unmarked-marked : (s t : String) → unmarked (marked s t) ≡ some (s, t)
unmarked-marked String.[] String.[] = refl
unmarked-marked String.[] (String.◌∷◌ c t) = refl
unmarked-marked (String.◌∷◌ c s) t = ap (and_character c) (unmarked-marked s t)

abbrev role_text : Role → String
role_text farmer = "f"
role_text investor = "i"
role_text admin = "a"

abbrev role_of : String → Role
role_of s = if str_eq s "f" then farmer else if str_eq s "i" then investor else admin

abbrev with_key : String → Option (String × String) → Option TokenPayload
with_key sub none = none
with_key sub (some (key, r)) = some (record { sub = sub; public_key = key; role = role_of r })

abbrev with_subject : Option (String × String) → Option TokenPayload
with_subject none = none
with_subject (some (sub, t)) = with_key sub (unmarked t)

abbrev signed_by : String → Option (String × String) → Option TokenPayload
signed_by secret none = none
signed_by secret (some (s, t)) = if str_eq s secret then with_subject (unmarked t) else none

-- A token is its secret, its user, the key and the role, and does not end.
abbrev tokens : Jwt
tokens = record {
  sign = λ now secret p. marked secret (marked p.sub (marked p.public_key (role_text p.role)));
  verify = λ now secret token. signed_by secret (unmarked token);
}

role_of-role_text : (r : Role) → role_of (role_text r) ≡ r
role_of-role_text farmer = refl
role_of-role_text investor = refl
role_of-role_text admin = refl

marked_full : (s t : String) → marked s t ≢ ""
marked_full s t e =
    let ends : ◌≡◌ {A = Option (String × String)} (some (s, t)) none =
      sym (unmarked-marked s t) ∙ ap unmarked e in
    absurd (ground arith)

tokens-sign :
    (secret : String) (p : TokenPayload)
    → signed_by secret (unmarked (tokens.sign 0 secret p)) ≡ some p
tokens-sign secret p =
    rw (unmarked-marked secret (marked p.sub (marked p.public_key (role_text p.role)))) (
      rw (eq_refl secret) (
        rw (unmarked-marked p.sub (marked p.public_key (role_text p.role))) (
          rw (unmarked-marked p.public_key (role_text p.role))
            (rw (role_of-role_text p.role) refl))))

tokens-HasLifetime : HasLifetime tokens 604800000
tokens-HasLifetime = record {
  sign_full = λ now secret p. marked_full secret _;
  verify-sign = λ now later secret p le lt. tokens-sign secret p;
}

-- The secret that signed the token has been rotated out since.
abbrev rotated : JwtSecrets
rotated = record {
  current = "newer-";
  previous = "new-";
  rotated_at = some 1200000;
  overlap = 500000;
}

abbrev opened : String
opened = tokens.sign 1100000 "new-" farmer_ga

entered_test :
    login sdk tokens secrets 1100000 "u1" (some " GA ") (some "signed") (pending_for_ga, [])
    ≡ (logged_in opened user_ga, ([], user_ga ∷ []))
unfolding login authenticate_user verify_challenge transaction_error payload_of is_signed lookup
    remove before_colon after_colon take_text append trim trim_start trim_end is_blank find
entered_test = refl

new-ne-empty : SameText "new-" "" → ⊥
new-ne-empty e = ground (arith, eq_iff "new-" "")

login_opens_example : Decides (farmer ∷ admin ∷ []) farmer_ga (
    require_role
      (farmer ∷ admin ∷ [])
      (require_auth tokens rotated 1300000 (some opened) (some "Bearer x")))
login_opens_example =
    login_opens sdk tokens secrets rotated 604800000 1100000 1300000 "u1" opened (some " GA ")
      (some "signed") (some "Bearer x") (pending_for_ga, []) ([], user_ga ∷ []) user_ga
      (farmer ∷ admin ∷ []) tokens-HasLifetime entered_test (omega arith) (omega arith)
      (inr (refl, refl, new-ne-empty, (1200000, refl, omega arith)))

unreadable_test :
    verify_challenge sdk 1100000 (trim "GA") (trim "scrambled") pending_for_ga
    ≡ (refused invalid_xdr, pending_for_ga)
unfolding verify_challenge transaction_error lookup trim trim_start trim_end is_blank
unreadable_test = refl

login-refused_example :
    login sdk jwt secrets 1100000 "u1" (some "GA") (some "scrambled") (pending_for_ga, [])
    ≡ (server_error invalid_xdr, (pending_for_ga, []))
login-refused_example =
    login-refused sdk jwt secrets 1100000 "u1" "GA" "scrambled" pending_for_ga pending_for_ga []
      invalid_xdr refl refl unreadable_test
