-- ===== src/Loans/Request.antt =====
-- `requestLoan`: the preconditions of a loan, and the parameters that the frontend submits.
use stellar_kraal_backend.Prelude.{
  if◌then◌else◌, find, String, Bool, ◌&&◌, ◌||◌, Option, none, some, str_eq,
}
use stellar_kraal_backend.Database.{
  Database, Livestock, Loan, VerificationStatus, is_verified, is_active, has_livestock_id,
}
use stellar_kraal_backend.Auth.Login.{TokenPayload, non_empty}
use stellar_kraal_backend.Number.{Arith, whole}

-- A field that is absent, or not of its type, is `none`.
pub record LoanRequest (A : Type 0) : Type 0 where
  pub livestock_id : Option String
  pub principal : Option A
  pub duration_days : Option A

pub record LoanParams (A : Type 0) : Type 0 where
  pub borrower : String
  pub collateral_id : String
  pub principal : A
  pub duration_days : A

-- The answers in the order of the checks: three 400s, the 404, the 403, two 422s and the 409.
pub data RequestResponse (A : Type 0) : Type 0 where
  livestock_id_required principal_not_positive duration_out_of_range : RequestResponse A
  livestock_not_found not_owner : RequestResponse A
  not_yet_verified : VerificationStatus → RequestResponse A
  exceeds_collateral : (max_principal : A) → RequestResponse A
  has_active_loan : (loan_id : String) → RequestResponse A
  to_submit : LoanParams A → RequestResponse A

module _ {A : Type 0} ⦃n : Arith A⦄ where
  open n use {hundredths, lt, le}

  abbrev pub is_active_on : String → Loan A → Bool
  is_active_on id l = str_eq l.livestock_id id && is_active l.status

  abbrev pub unless_lent : TokenPayload → Livestock A → A → A → Option (Loan A) → RequestResponse A
  unless_lent user row p d (some l) = has_active_loan l.id
  unless_lent user row p d none = to_submit (record {
    borrower = user.public_key;
    collateral_id = row.animal_id;
    principal = p;
    duration_days = d;
  })

  -- The appraised value, where the row has one, that the principal exceeds.
  abbrev pub exceeded : A → Option A → Option A
  exceeded p none = none
  exceeded p (some v) = if lt v p then some v else none

  abbrev pub within_value :
      TokenPayload → Livestock A → A → A → Database A → Option A → RequestResponse A
  within_value user row p d db (some v) = exceeds_collateral v
  within_value user row p d db none = unless_lent user row p d (find (is_active_on row.id) db.loans)

  abbrev pub for_livestock :
      TokenPayload → A → A → Database A → Option (Livestock A) → RequestResponse A
  for_livestock user p d db none = livestock_not_found
  for_livestock user p d db (some row) =
      if str_eq row.owner_id user.sub
      then (if is_verified row.verification_status
          then within_value user row p d db (exceeded p row.appraised_value)
          else not_yet_verified row.verification_status)
      else not_owner

  abbrev pub request_for :
      TokenPayload → Database A → Option String → Option A → Option A → RequestResponse A
  request_for user db none p d = livestock_id_required
  request_for user db (some id) none d = principal_not_positive
  request_for user db (some id) (some p) none =
      if le p (whole 0) then principal_not_positive else duration_out_of_range
  request_for user db (some id) (some p) (some d) =
      if le p (whole 0)
      then principal_not_positive
      else if lt d (whole 1) || lt (whole 730) d
      then duration_out_of_range
      else for_livestock user p d db (find (has_livestock_id id) db.livestock)

  unfoldable pub request_loan : TokenPayload → LoanRequest A → Database A → RequestResponse A
  request_loan user b db =
      request_for user db (non_empty b.livestock_id) b.principal b.duration_days
