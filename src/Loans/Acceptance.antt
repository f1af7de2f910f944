-- ===== src/Loans/Acceptance.antt =====
-- The condition under which `requestLoan` hands out the parameters of the chain call.
use stellar_kraal_backend.Prelude.{
  Bool-cases, Option-cases, All, find, String, ◌≡◌, refl, subst, ◌≢◌, ◌↔◌, ◌⊎◌, inl, inr, true,
  false, Option, none, some, List, [], ◌∷◌, arith, str_eq, eq_iff,
}
use stellar_kraal_backend.Number.{Arith, whole}
use stellar_kraal_backend.Database.{
  Database, Livestock, Loan, VerificationStatus, pending, appraised, verified, rejected, is_active,
  is_verified, has_livestock_id,
}
use stellar_kraal_backend.Auth.Login.{TokenPayload, non_empty}
use stellar_kraal_backend.Loans.Request.{
  LoanRequest, LoanParams, to_submit, request_loan, is_active_on, exceeded, for_livestock,
  request_for,
}

-- A loan that leaves the livestock free, and an appraised value that the principal keeps to.
abbrev pub IsFree : {A : Type 0} → String → Loan A → Type 0
IsFree id l = (l.livestock_id ≢ id) ⊎ (is_active l.status ≡ false)

abbrev pub Covers : {A : Type 0} ⦃n : Arith A⦄ → Option A → A → Type 0
Covers none p = Unit
Covers ⦃n⦄ (some v) p = n.lt v p ≡ false

is_verified_iff : (s : VerificationStatus) → (is_verified s ≡ true) ↔ (s ≡ verified)
is_verified_iff pending = (λ h. ground arith, λ h. ground arith)
is_verified_iff appraised = (λ h. ground arith, λ h. ground arith)
is_verified_iff verified = (λ h. refl, λ h. refl)
is_verified_iff rejected = (λ h. ground arith, λ h. ground arith)

module _ {A : Type 0} ⦃n : Arith A⦄ where
  exceeded_iff : (p : A) (o : Option A) → (exceeded p o ≡ none) ↔ Covers o p
  exceeded_iff p none = (λ h. tt, λ h. refl)
  exceeded_iff p (some v) = (λ h. ground arith, λ h. rw h refl)

  is_active_on_iff : (id : String) (l : Loan A) → (is_active_on id l ≡ false) ↔ IsFree id l
  is_active_on_iff id l = (
    (λ h. elim (Bool-cases (str_eq l.livestock_id id)) [
      | inl e ↦ inr (ground arith)
      | inr e ↦ inl (λ same. ground (arith, eq_iff l.livestock_id id))
    ]),
    (λ h. elim h [ inl ne ↦ ground (arith, eq_iff l.livestock_id id) | inr f ↦ ground arith ]),
  )

  not_lent_iff :
      (id : String) (ls : List (Loan A)) → (find (is_active_on id) ls ≡ none) ↔ All (IsFree id) ls
  unfolding find
  not_lent_iff id [] = (λ h. tt, λ h. refl)
  not_lent_iff id (l ∷ ls) = (
    (λ h. elim (Bool-cases (is_active_on id l)) [
      | inl e ↦ ground arith
      | inr e ↦ ((is_active_on_iff id l).0 e, (not_lent_iff id ls).0 (ground arith))
    ]),
    (λ (f, fs). rw ((is_active_on_iff id l).1 f) ((not_lent_iff id ls).1 fs)),
  )

-- What a granted request rests on.
pub record Acceptable {A : Type 0} ⦃n : Arith A⦄ (user : TokenPayload) (b : LoanRequest A)
    (db : Database A) (q : LoanParams A) : Type 0 where
  pub id : String
  pub row : Livestock A
  pub named_livestock : non_empty b.livestock_id ≡ some id
  pub asked : b.principal ≡ some q.principal
  pub lasting : b.duration_days ≡ some q.duration_days
  pub positive_principal : n.le q.principal (whole 0) ≡ false
  pub at_least_a_day : n.lt q.duration_days (whole 1) ≡ false
  pub at_most_two_years : n.lt (whole 730) q.duration_days ≡ false
  pub found : find (has_livestock_id id) db.livestock ≡ some row
  pub owned : row.owner_id ≡ user.sub
  pub verified_row : row.verification_status ≡ verified
  pub covered : Covers row.appraised_value q.principal
  pub not_lent : All (IsFree row.id) db.loans
  pub for_user : q.borrower ≡ user.public_key
  pub for_animal : q.collateral_id ≡ row.animal_id

module _ {A : Type 0} ⦃n : Arith A⦄ where
  pub Acceptable-request_loan :
      (user : TokenPayload) (b : LoanRequest A) (db : Database A) (q : LoanParams A)
      → Acceptable user b db q
      → request_loan user b db ≡ to_submit q
  unfolding request_loan
  Acceptable-request_loan user b db q a = rw a.named_livestock (
      rw a.asked (
        rw a.lasting (
          rw a.positive_principal (
            rw a.at_least_a_day (
              rw a.at_most_two_years (
                rw a.found (
                  rw ((eq_iff _ _).1 a.owned) (
                    rw ((is_verified_iff _).1 a.verified_row) (
                      rw ((exceeded_iff _ _).1 a.covered) (
                        rw ((not_lent_iff _ _).1 a.not_lent)
                          (rw (← a.for_user) (rw (← a.for_animal) refl))))))))))))

  abbrev params_of : TokenPayload → Livestock A → A → A → LoanParams A
  params_of user row p d = record {
    borrower = user.public_key;
    collateral_id = row.animal_id;
    principal = p;
    duration_days = d;
  }

  for_livestock-eq-submit :
      (user : TokenPayload) (p d : A) (db : Database A) (row : Livestock A) (q : LoanParams A)
      → for_livestock user p d db (some row) ≡ to_submit q
      → (str_eq row.owner_id user.sub ≡ true)
        × (is_verified row.verification_status ≡ true)
        × (exceeded p row.appraised_value ≡ none)
        × (find (is_active_on row.id) db.loans ≡ none)
        × (params_of user row p d ≡ q)
  for_livestock-eq-submit user p d db row q h =
      elim (Option-cases (exceeded p row.appraised_value)) [
        | inr (v, e) ↦ ground arith
        | inl e ↦ elim (Option-cases (find (is_active_on row.id) db.loans)) [
          | inr (l, k) ↦ ground arith
          | inl k ↦ ground arith
        ]
      ]

  request_for-eq-submit :
      (user : TokenPayload) (db : Database A) (id : String) (p d : A) (q : LoanParams A)
      → request_for user db (some id) (some p) (some d) ≡ to_submit q
      → (n.le p (whole 0) ≡ false)
        × (n.lt d (whole 1) ≡ false)
        × (n.lt (whole 730) d ≡ false)
        × (for_livestock user p d db (find (has_livestock_id id) db.livestock) ≡ to_submit q)
  request_for-eq-submit user db id p d q h = ground arith

  from_parts :
      (user : TokenPayload) (b : LoanRequest A) (db : Database A) (q : LoanParams A) (id : String)
      (p d : A) (row : Livestock A)
      → non_empty b.livestock_id ≡ some id
      → b.principal ≡ some p
      → b.duration_days ≡ some d
      → find (has_livestock_id id) db.livestock ≡ some row
      → request_for user db (some id) (some p) (some d) ≡ to_submit q
      → Acceptable user b db q
  from_parts user b db q id p d row named asked lasting found h =
      let (positive, day, years, settled) = request_for-eq-submit user db id p d q h in
      let (owned, checked, covered, free, same) =
        for_livestock-eq-submit user p d db row q
          (subst (λ o. for_livestock user p d db o ≡ to_submit q) found settled) in
      rw (← same) (record {
        id = id;
        row = row;
        named_livestock = named;
        asked = asked;
        lasting = lasting;
        positive_principal = positive;
        at_least_a_day = day;
        at_most_two_years = years;
        found = found;
        owned = (eq_iff _ _).0 owned;
        verified_row = (is_verified_iff _).0 checked;
        covered = (exceeded_iff _ _).0 covered;
        not_lent = (not_lent_iff _ _).0 free;
        for_user = refl;
        for_animal = refl;
      })

  submitted_row :
      (user : TokenPayload) (db : Database A) (p d : A) (o : Option (Livestock A))
      (q : LoanParams A)
      → for_livestock user p d db o ≡ to_submit q
      → (row : Livestock A) × (o ≡ some row)
  submitted_row user db p d none q h = ground arith
  submitted_row user db p d (some row) q h = (row, refl)

  submitted_fields :
      (user : TokenPayload) (db : Database A) (i : Option String) (p d : Option A)
      (q : LoanParams A)
      → request_for user db i p d ≡ to_submit q
      → (id : String) × (p' : A) × (d' : A) × (i ≡ some id) × (p ≡ some p') × (d ≡ some d')
  submitted_fields user db none p d q h = ground arith
  submitted_fields user db (some id) none d q h = ground arith
  submitted_fields user db (some id) (some p) none q h = ground arith
  submitted_fields user db (some id) (some p) (some d) q h = (id, p, d, refl, refl, refl)

  request_loan-Acceptable :
      (user : TokenPayload) (b : LoanRequest A) (db : Database A) (q : LoanParams A)
      → request_loan user b db ≡ to_submit q
      → Acceptable user b db q
  unfolding request_loan
  request_loan-Acceptable user b db q h =
      let (id, p, d, named, asked, lasting) =
        submitted_fields user db (non_empty b.livestock_id) b.principal b.duration_days q h in
      let given : request_for user db (some id) (some p) (some d) ≡ to_submit q =
        subst (λ o. request_for user db o (some p) (some d) ≡ to_submit q) named
          (subst (λ o. request_for user db (non_empty b.livestock_id) o (some d) ≡ to_submit q)
            asked
            (subst (λ o. request_for user db (non_empty b.livestock_id) b.principal o ≡ to_submit q)
              lasting h)) in
      let (_, _, _, settled) = request_for-eq-submit user db id p d q given in
      let (row, found) =
        submitted_row user db p d (find (has_livestock_id id) db.livestock) q settled in
      from_parts user b db q id p d row named asked lasting found given

  -- A loan request is answered with the parameters `q` of the chain call exactly if it names a
  -- livestock that exists, belongs to the user and is verified, the principal is positive and not
  -- above the appraised value where there is one, the duration is from 1 to 730 days, no active
  -- loan is on the livestock, and `q` holds the user's key, the animal's tag and the given numbers.
  pub request_loan-submit_iff :
      (user : TokenPayload) (b : LoanRequest A) (db : Database A) (q : LoanParams A)
      → (request_loan user b db ≡ to_submit q) ↔ Acceptable user b db q
  request_loan-submit_iff user b db q =
      (request_loan-Acceptable user b db q, Acceptable-request_loan user b db q)
