-- ===== src/Database.antt =====
-- The tables of prisma/schema.prisma that the services share, and the string types of
-- src/types/domain.ts. Dates are milliseconds; numbers of USDC are those of `Number`. Columns that
-- no modelled code reads (profile fields, `createdAt`, `updatedAt`) are left out.
use stellar_kraal_backend.Prelude.{find, ℕ, String, Bool, true, false, Option, List, str_eq}

pub data Role : Type 0 where
  farmer investor admin : Role

pub data VerificationStatus : Type 0 where
  pending appraised verified rejected : VerificationStatus

pub data LoanStatus : Type 0 where
  active repaid liquidated defaulted : LoanStatus

pub record User : Type 0 where
  pub id : String
  pub public_key : String
  pub role : Role

pub record Livestock (A : Type 0) : Type 0 where
  pub id : String
  pub animal_id : String
  pub owner_id : String
  pub metadata : String
  pub appraised_value : Option A
  pub appraisal_tx_hash : Option String
  pub verification_status : VerificationStatus

pub record Loan (A : Type 0) : Type 0 where
  pub id : String
  pub contract_loan_id : String
  pub borrower_id : String
  pub livestock_id : String
  pub principal : A
  pub interest_rate_bps : ℕ
  pub duration_days : ℕ
  pub status : LoanStatus
  pub created_on_chain_at : Option ℕ
  pub repaid_at : Option ℕ
  pub liquidated_at : Option ℕ
  pub last_synced_at : Option ℕ
  pub last_event_ledger : Option ℕ

pub record Database (A : Type 0) : Type 0 where
  pub users : List User
  pub livestock : List (Livestock A)
  pub loans : List (Loan A)

-- `now` is the clock, and `cuid` the identifier that the database gives to a row it creates.
pub record Environment : Type 0 where
  pub now : ℕ
  pub cuid : String

abbrev pub is_active : LoanStatus → Bool
is_active active = true
is_active _ = false

abbrev pub is_verified : VerificationStatus → Bool
is_verified verified = true
is_verified _ = false

abbrev pub is_admin : Role → Bool
is_admin admin = true
is_admin _ = false

abbrev pub has_public_key : String → User → Bool
has_public_key key u = str_eq u.public_key key

module _ {A : Type 0} where
  abbrev pub has_contract_loan_id : String → Loan A → Bool
  has_contract_loan_id id l = str_eq l.contract_loan_id id

  abbrev pub has_animal_id : String → Livestock A → Bool
  has_animal_id id l = str_eq l.animal_id id

  abbrev pub has_livestock_id : String → Livestock A → Bool
  has_livestock_id id l = str_eq l.id id

  -- `prisma.loan.findUnique({ where: { contractLoanId } })`
  abbrev pub find_loan : String → Database A → Option (Loan A)
  find_loan id db = find (has_contract_loan_id id) db.loans
