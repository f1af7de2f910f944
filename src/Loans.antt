-- ===== src/Loans.antt =====
-- src/controllers/loans.controller.ts. Rows are in the order of their creation, so that
-- `orderBy: { createdAt: 'desc' }` is the reverse. The columns that a `select` picks, and the JSON
-- of the metadata, are left as the whole row.
pub mod Market
pub mod Request
pub mod Acceptance
use stellar_kraal_backend.Prelude.{
  if◌then◌else◌, or_default, take, drop, count, filter, find, Integer, parse_int, ℕ, max, min, ◌+◌,
  ◌-◌, ◌*◌, ◌/◌, String, Bool, true, false, ◌&&◌, Option, none, some, List, map, str_eq, nan,
  negative, natural,
}
use stellar_kraal_backend.Database.{
  Database, Livestock, Loan, User, LoanStatus, active, repaid, liquidated, defaulted, is_active,
}
use mathlib.Core.List.{reverse}

-- A loan with the rows it refers to.
pub record LoanView (A : Type 0) : Type 0 where
  pub loan : Loan A
  pub borrower : Option User
  pub livestock : Option (Livestock A)

pub record MarketPage (A : Type 0) : Type 0 where
  pub page : ℕ
  pub limit : ℕ
  pub total : ℕ
  pub total_pages : ℕ
  pub loans : List (LoanView A)

-- `nan_query` is a `skip` or a `take` of `NaN` given to the database.
pub data MarketResponse (A : Type 0) : Type 0 where
  nan_query : MarketResponse A
  page_of : MarketPage A → MarketResponse A

abbrev pub same_status : LoanStatus → LoanStatus → Bool
same_status active active = true
same_status repaid repaid = true
same_status liquidated liquidated = true
same_status defaulted defaulted = true
same_status _ _ = false

-- `validStatuses.includes(statusFilter)`, for a filter that is given.
unfoldable pub loan_status_of : String → Option LoanStatus
loan_status_of s =
    if str_eq s "ACTIVE"
    then some active
    else if str_eq s "REPAID"
    then some repaid
    else if str_eq s "LIQUIDATED"
    then some liquidated
    else if str_eq s "DEFAULTED"
    then some defaulted
    else none

abbrev pub wanted_status : Option String → Option LoanStatus
wanted_status none = none
wanted_status (some s) = loan_status_of s

-- `Math.max(1, n)`
abbrev pub at_least_one : Integer → Option ℕ
at_least_one nan = none
at_least_one (negative n) = some 1
at_least_one (natural n) = some (max 1 n)

abbrev pub at_most : ℕ → Option ℕ → Option ℕ
at_most k none = none
at_most k (some n) = some (min k n)

unfoldable pub page_number : Option String → Option ℕ
unfolding parse_int
page_number page = at_least_one (parse_int (or_default page "1"))

unfoldable pub page_limit : Option String → Option ℕ
unfolding parse_int
page_limit limit = at_most 100 (at_least_one (parse_int (or_default limit "20")))

-- `Math.ceil(total / limit)`, for a limit of at least 1.
abbrev pub pages_for : ℕ → ℕ → ℕ
pages_for total limit = (total + (limit - 1)) / limit

abbrev pub matches : Option LoanStatus → LoanStatus → Bool
matches none status = true
matches (some wanted) status = same_status wanted status

module _ {A : Type 0} where
  abbrev pub view : Database A → Loan A → LoanView A
  view db l = record {
    loan = l;
    borrower = find (λ u. str_eq u.id l.borrower_id) db.users;
    livestock = find (λ r. str_eq r.id l.livestock_id) db.livestock;
  }

  unfoldable pub active_loans : Database A → List (Loan A)
  active_loans db = reverse (filter (λ l. is_active l.status) db.loans)

  unfoldable pub market_page : ℕ → ℕ → Database A → MarketPage A
  unfolding active_loans
  market_page page limit db = record {
    page = page;
    limit = limit;
    total = count (λ l. is_active l.status) db.loans;
    total_pages = pages_for (count (λ l. is_active l.status) db.loans) limit;
    loans = map (view db) (take limit (drop ((page - 1) * limit) (active_loans db)));
  }

  abbrev pub queried : Option ℕ → Option ℕ → Database A → MarketResponse A
  queried (some page) (some limit) db = page_of (market_page page limit db)
  queried _ _ db = nan_query

  -- The query strings of the request, where they are given.
  unfoldable pub get_market_loans : Option String → Option String → Database A → MarketResponse A
  unfolding page_number page_limit market_page
  get_market_loans page limit db = queried (page_number page) (page_limit limit) db

  unfoldable pub get_my_loans : String → Option String → Database A → List (LoanView A)
  unfolding loan_status_of
  get_my_loans user status db = map (view db) (
      reverse (
        filter (λ l. str_eq l.borrower_id user && matches (wanted_status status) l.status)
          db.loans))
