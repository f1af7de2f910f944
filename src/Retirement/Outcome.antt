-- ===== src/Retirement/Outcome.antt =====
-- What a bulk retirement guarantees (src/controllers/retirements.controller.ts).
use stellar_kraal_backend.Prelude.{
  Bool-cases, Option-cases, length, count, filter, All, filter-append, find, update, map_option,
  find-passes, contains, ℕ, ◌+◌, String, ◌≡◌, refl, sym, ap, ◌∙◌, inl, inr, Bool, true, false, ◌||◌,
  Option, none, some, List, [], ◌∷◌, ◌++◌, map, arith, str_eq, eq_iff, eq_refl,
}
use stellar_kraal_backend.Database.{Loan, Database, is_active}
use stellar_kraal_backend.Retirement.{
  RetirementChunkStatus, success, failed, skipped, RetirementChunkResult, loan_ids_of,
}
use stellar_kraal_backend.Retirement.OnChain.{all_loan_ids}
use stellar_kraal_backend.Retirement.Handler.{
  RetirementResult, Response, done, is_retired, is_failed, is_skipped, has_id, retire, store_chunks,
  report, reports, push_error, reason_for, validation_errors, targets_of, store_chunk,
}

abbrev pub is_done : Response → Bool
is_done (done s a b c results) = true
is_done _ = false

abbrev pub result_ids : List RetirementResult → List String
result_ids = map (λ r. r.loan_id)

abbrev pub retired_ids : List RetirementResult → List String
retired_ids results = result_ids (filter (λ r. is_retired r.status) results)

map-append' {ℓ κ} :
    {A : Type ℓ} {B : Type κ} (f : A → B) (xs ys : List A) → map f (xs ++ ys) ≡ map f xs ++ map f ys
map-append' f [] ys = refl
map-append' f (x ∷ xs) ys = ap (λ l. f x ∷ l) (map-append' f xs ys)

report-id :
    (r : RetirementChunkResult) (s : RetirementChunkStatus) (id : String)
    → (report r s id).loan_id ≡ id
report-id r success id = refl
report-id r failed id = refl
report-id r skipped id = refl

report-ids :
    (r : RetirementChunkResult) (s : RetirementChunkStatus) (ids : List String)
    → result_ids (map (report r s) ids) ≡ ids
report-ids r s [] = refl
report-ids r s (id ∷ ids) = ground (arith, report-id r s id, report-ids r s ids)

pub reports-ids : (rs : List RetirementChunkResult) → result_ids (reports rs) ≡ all_loan_ids rs
unfolding reports
reports-ids [] = refl
reports-ids (r ∷ rs) =
    map-append' (λ x. x.loan_id) (map (report r r.status) r.loan_ids) (reports rs)
    ∙ rw (report-ids r r.status r.loan_ids) (ap (λ l. r.loan_ids ++ l) (reports-ids rs))

-- Every result is exactly one of retired, failed and skipped.
pub summary_total :
    (results : List RetirementResult)
    → count (λ r. is_retired r.status) results
        + count (λ r. is_failed r.status) results
        + count (λ r. is_skipped r.status) results
      ≡ length results
summary_total [] = omega arith
summary_total (r ∷ rs) = ground (arith, summary_total rs)

contains-append :
    (x : String) (xs ys : List String) → contains x (xs ++ ys) ≡ (contains x xs || contains x ys)
unfolding contains
contains-append x [] ys = refl
contains-append x (y ∷ ys) zs = ground (arith, contains-append x ys zs)

retired-report :
    (r : RetirementChunkResult) (s : RetirementChunkStatus) (ids : List String)
    → retired_ids (map (report r s) ids) ≡ elim s [ success ↦ ids | _ ↦ [] ]
retired-report r success [] = refl
retired-report r failed [] = refl
retired-report r skipped [] = refl
retired-report r success (id ∷ ids) = ap (λ l. id ∷ l) (retired-report r success ids)
retired-report r failed (id ∷ ids) = retired-report r failed ids
retired-report r skipped (id ∷ ids) = retired-report r skipped ids

retired-reports :
    (r : RetirementChunkResult) (rs : List RetirementChunkResult)
    → retired_ids (reports (r ∷ rs))
      ≡ elim r.status [ success ↦ r.loan_ids | _ ↦ [] ] ++ retired_ids (reports rs)
unfolding reports
retired-reports r rs =
    ap result_ids
      (filter-append (λ x. is_retired x.status) (map (report r r.status) r.loan_ids) (reports rs))
    ∙ map-append' (λ x. x.loan_id)
        (filter (λ x. is_retired x.status) (map (report r r.status) r.loan_ids)) _
    ∙ ap (λ l. l ++ retired_ids (reports rs)) (retired-report r r.status r.loan_ids)

module _ {A : Type 0} where
  -- Retiring twice in one request is retiring once.
  pub retire_if : Bool → ℕ → Option (Loan A) → Option (Loan A)
  retire_if true now o = map_option (retire now) o
  retire_if false now o = o

  find-update_many :
      (now : ℕ) (ids : List String) (c : String) (ls : List (Loan A))
      → find (has_id c) (update (λ l. contains l.id ids) (retire now) ls)
        ≡ retire_if (contains c ids) now (find (has_id c) ls)
  unfolding find update retire_if
  find-update_many now ids c [] = ground arith
  find-update_many now ids c (l ∷ ls) = elim (Bool-cases (str_eq l.id c)) [
    | inl e ↦
        let same : l.id ≡ c = (eq_iff l.id c).0 e in rw (← same) (ground (arith, eq_refl l.id))
    | inr e ↦ ground (arith, find-update_many now ids c ls)
  ]

  retire_if_twice :
      (a b : Bool) (now : ℕ) (o : Option (Loan A))
      → retire_if b now (retire_if a now o) ≡ retire_if (a || b) now o
  unfolding retire_if
  retire_if_twice a b now o = ground arith

  find-store_chunk :
      (now : ℕ) (status : RetirementChunkStatus) (ids : List String) (db : Database A) (c : String)
      → find (has_id c) (store_chunk now status ids db).loans
        ≡ retire_if
            (contains c (elim status [ success ↦ ids | _ ↦ [] ]))
            now
            (find (has_id c) db.loans)
  unfolding retire_if contains
  find-store_chunk now success ids db c = find-update_many now ids c db.loans
  find-store_chunk now failed ids db c = refl
  find-store_chunk now skipped ids db c = refl

  pub find-store_chunks :
      (now : ℕ) (rs : List RetirementChunkResult) (db : Database A) (c : String)
      → find (has_id c) (store_chunks now rs db).loans
        ≡ retire_if (contains c (retired_ids (reports rs))) now (find (has_id c) db.loans)
  unfolding store_chunks reports retire_if contains
  find-store_chunks now [] db c = refl
  find-store_chunks now (r ∷ rs) db c =
      let first = find-store_chunk now r.status r.loan_ids db c in
      let rest = find-store_chunks now rs (store_chunk now r.status r.loan_ids db) c in
      let joined =
        ap (contains c) (retired-reports r rs)
        ∙ contains-append c (elim r.status [ success ↦ r.loan_ids | _ ↦ [] ])
            (retired_ids (reports rs)) in
      rest
      ∙ ap (retire_if (contains c (retired_ids (reports rs))) now) first
      ∙ retire_if_twice _ _ now (find (has_id c) db.loans)
      ∙ ap (λ b. retire_if b now (find (has_id c) db.loans)) (sym joined)

  -- The loan that a request may retire: the caller's own, and ACTIVE.
  abbrev pub MayRetire : Database A → String → String → Type 0
  MayRetire db user id =
      (l : Loan A) × (find (has_id id) db.loans ≡ some l)
      × (l.borrower_id ≡ user)
      × (is_active l.status ≡ true)

  valid_loan :
      (user : String) (o : Option (Loan A))
      → reason_for user o ≡ none
      → (l : Loan A) × (o ≡ some l) × (l.borrower_id ≡ user) × (is_active l.status ≡ true)
  valid_loan user none h = cc
  valid_loan user (some l) h = (l, refl, ground (arith, eq_iff l.borrower_id user), ground arith)

  pub All-valid :
      (db : Database A) (user : String) (ids : List String)
      → validation_errors db user ids ≡ []
      → All (MayRetire db user) ids
  unfolding validation_errors
  All-valid db user [] h = tt
  All-valid db user (id ∷ ids) h =
      elim (Option-cases (reason_for user (find (has_id id) db.loans))) [
        | inl fine ↦ (valid_loan user _ fine, All-valid db user ids (rw (fine, push_error) at h))
        | inr (reason, bad) ↦ cc (rw (bad, push_error) at h)
      ]

  pub targets-ids :
      (db : Database A) (user : String) (ids : List String)
      → All (MayRetire db user) ids
      → loan_ids_of (targets_of db ids) ≡ ids
  unfolding targets_of
  targets-ids db user [] h = refl
  targets-ids db user (id ∷ ids) ((l, found, mine, live), h) =
      let same : l.id ≡ id = (eq_iff l.id id).0 (find-passes (has_id id) db.loans l found) in
      rw (found, same) (ap (λ rest. id ∷ rest) (targets-ids db user ids h))
