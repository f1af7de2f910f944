-- ===== src/Retirement/Guarantee.antt =====
-- The guarantees of a bulk retirement request as a whole (src/controllers/retirements.controller.ts).
use stellar_kraal_backend.Prelude.{
  ltb, Bool-cases, length, All, length-map, find, contains, has_duplicates, ℕ, ◌+◌, ◌≤◌, ◌<◌,
  String, ◌≡◌, refl, sym, ap, ◌∙◌, ◌↔◌, inl, inr, true, false, Option, none, some, List, [], ◌∷◌,
  arith,
}
use stellar_kraal_backend.Database.{Database}
use stellar_kraal_backend.Retirement.{RetirementChunkResult, Submission}
use stellar_kraal_backend.Retirement.Handler.{
  Item, LoanIds, not_array, array, Reason, RetirementResult, Limits, strings, has_id, respond,
  finish, execute, retire_strings, bulk_retire_loans, too_large, duplicates, invalid, done,
  validation_errors, targets_of, store_chunks, reports, retire_items, bad_request,
}
use stellar_kraal_backend.Retirement.Outcome.{
  is_done, result_ids, retired_ids, retire_if, MayRetire, reports-ids, summary_total,
  find-store_chunks, All-valid, targets-ids,
}
use stellar_kraal_backend.Retirement.OnChain.{retire_loans-IsSequential}

-- What an executed request has checked, reported and stored.
pub record IsExecuted {A : Type 0} (limits : Limits) (now : ℕ) (user : String) (items : List Item)
    (db db' : Database A) (status retired_count failed_count skipped_count : ℕ)
    (results : List RetirementResult) : Type 0 where
  pub ids : List String
  pub requested : strings items ≡ some ids
  pub small : length ids ≤ limits.max_batch_size
  pub distinct : has_duplicates ids ≡ false
  pub allowed : All (MayRetire db user) ids
  pub reported : result_ids results ≡ ids
  pub counted : retired_count + failed_count + skipped_count ≡ length ids
  pub complete : (status ≡ 200) ↔ (retired_count ≡ length ids)
  pub stored :
      (id : String)
      → find (has_id id) db'.loans
        ≡ retire_if (contains id (retired_ids results)) now (find (has_id id) db.loans)

respond-parts :
    (rs results : List RetirementResult) (status retired_count failed_count skipped_count : ℕ)
    → respond rs ≡ done status retired_count failed_count skipped_count results
    → (results ≡ rs)
      × (retired_count + failed_count + skipped_count ≡ length rs)
      × ((status ≡ 200) ↔ (retired_count ≡ length rs))
unfolding respond
respond-parts rs results status retired_count failed_count skipped_count e = (
  cc,
  ground (arith, summary_total rs),
  (λ h. ground (arith, summary_total rs), λ h. ground (arith, summary_total rs)),
)

module _ {A W : Type 0} (submit : List String → W → Submission × W) (limits : Limits) where
  finish-rejected :
      (now : ℕ) (db : Database A) (w : W) (o : Option (List RetirementChunkResult × W))
      → is_done (finish submit limits now db w o).0 ≡ false
      → ((finish submit limits now db w o).1 ≡ db) × ((finish submit limits now db w o).2 ≡ w)
  unfolding respond
  finish-rejected now db w none h = (refl, refl)
  finish-rejected now db w (some (chunks, w')) h = (cc, cc)

  execute-rejected :
      (now : ℕ) (ids : List String) (db : Database A) (w : W) (errors : List (String × Reason))
      → is_done (execute submit limits now ids db w errors).0 ≡ false
      → ((execute submit limits now ids db w errors).1 ≡ db)
        × ((execute submit limits now ids db w errors).2 ≡ w)
  execute-rejected now ids db w [] h = finish-rejected now db w _ h
  execute-rejected now ids db w (e ∷ es) h = (refl, refl)

  strings-rejected :
      (now : ℕ) (user : String) (ids : List String) (db : Database A) (w : W)
      → is_done (retire_strings submit limits now user ids db w).0 ≡ false
      → ((retire_strings submit limits now user ids db w).1 ≡ db)
        × ((retire_strings submit limits now user ids db w).2 ≡ w)
  unfolding retire_strings
  strings-rejected now user ids db w h =
      elim (Bool-cases (ltb limits.max_batch_size (length ids))) [
        | inl big ↦ rw big (refl, refl)
        | inr fits ↦ elim (Bool-cases (has_duplicates ids)) [
          | inl twice ↦ rw fits (rw twice (refl, refl))
          | inr once ↦ rw fits (rw once (execute-rejected now ids db w _ (rw (fits, once) at h)))
        ]
      ]

  items-rejected :
      (now : ℕ) (user : String) (o : Option (List String)) (db : Database A) (w : W)
      → is_done (retire_items submit limits now user o db w).0 ≡ false
      → ((retire_items submit limits now user o db w).1 ≡ db)
        × ((retire_items submit limits now user o db w).2 ≡ w)
  items-rejected now user none db w h = (refl, refl)
  items-rejected now user (some ids) db w h = strings-rejected now user ids db w h

  -- A request that is not executed (a 400, a 422, or chunks that never end) has changed neither the
  -- database nor the chain: validation is all or nothing, and comes before any submission.
  pub bulk_retire-rejected :
      (now : ℕ) (user : String) (body : LoanIds) (db : Database A) (w : W)
      → is_done (bulk_retire_loans submit limits now user body db w).0 ≡ false
      → ((bulk_retire_loans submit limits now user body db w).1 ≡ db)
        × ((bulk_retire_loans submit limits now user body db w).2 ≡ w)
  unfolding bulk_retire_loans
  bulk_retire-rejected now user not_array db w h = (refl, refl)
  bulk_retire-rejected now user (array []) db w h = (refl, refl)
  bulk_retire-rejected now user (array (i ∷ is)) db w h =
      items-rejected now user (strings (i ∷ is)) db w h

  bulk_items :
      (now : ℕ) (user : String) (items : List Item) (db : Database A) (w : W)
      → is_done (bulk_retire_loans submit limits now user (array items) db w).0 ≡ true
      → bulk_retire_loans submit limits now user (array items) db w
        ≡ retire_items submit limits now user (strings items) db w
  unfolding bulk_retire_loans
  bulk_items now user [] db w h = cc
  bulk_items now user (i ∷ is) db w h = refl

  module _ (positive : 0 < limits.max_ops_per_tx) (now : ℕ) (user : String) (items : List Item)
      (db db' : Database A) (w w' : W) (status retired_count failed_count skipped_count : ℕ)
      (results : List RetirementResult) where
    execute-IsExecuted :
        (ids : List String) (errors : List (String × Reason))
        → strings items ≡ some ids
        → length ids ≤ limits.max_batch_size
        → has_duplicates ids ≡ false
        → validation_errors db user ids ≡ errors
        → execute submit limits now ids db w errors
          ≡ (done status retired_count failed_count skipped_count results, db', w')
        → IsExecuted limits now user items db db' status retired_count failed_count skipped_count
            results
    execute-IsExecuted ids (x ∷ xs) requested small distinct v e =
        absurd (not_done (ap (λ t. t.0) e))
      where
        not_done :
            invalid (x ∷ xs) ≡ done status retired_count failed_count skipped_count results → ⊥
        not_done h = cc
    execute-IsExecuted ids [] requested small distinct v e =
        let allowed = All-valid db user ids v in
        let (chunks, w'', ran, _, covered) =
          retire_loans-IsSequential submit (targets_of db ids) limits.max_ops_per_tx w positive in
        let e' : (respond (reports chunks), store_chunks now chunks db, w'')
            ≡ (done status retired_count failed_count skipped_count results, db', w') =
          rw ran at e in
        let (same, total, whole) =
          respond-parts (reports chunks) results status retired_count failed_count skipped_count
            (ap (λ t. t.0) e') in
        let all_ids : result_ids (reports chunks) ≡ ids =
          reports-ids chunks ∙ covered ∙ targets-ids db user ids allowed in
        let size : length (reports chunks) ≡ length ids =
          sym (length-map (λ (r : RetirementResult). r.loan_id) (reports chunks))
          ∙ ap length all_ids in
        record {
          ids = ids;
          requested = requested;
          small = small;
          distinct = distinct;
          allowed = allowed;
          reported = rw same all_ids;
          counted = total ∙ size;
          complete = rw size at whole;
          stored = λ id. rw (← ap (λ t. t.1) e') (rw same (find-store_chunks now chunks db id));
        }

    strings-IsExecuted :
        (ids : List String)
        → strings items ≡ some ids
        → retire_strings submit limits now user ids db w
          ≡ (done status retired_count failed_count skipped_count results, db', w')
        → IsExecuted limits now user items db db' status retired_count failed_count skipped_count
            results
    unfolding retire_strings
    strings-IsExecuted ids requested e =
        elim (Bool-cases (ltb limits.max_batch_size (length ids))) [
          | inl big ↦ absurd (refused (ap (λ t. t.0) (rw big at e)))
          | inr fits ↦ elim (Bool-cases (has_duplicates ids)) [
            | inl twice ↦ absurd (refused' (ap (λ t. t.0) (rw (fits, twice) at e)))
            | inr once ↦
                execute-IsExecuted ids _ requested (ground arith) once refl (rw (fits, once) at e)
          ]
        ]
      where
        refused :
            too_large (length ids) ≡ done status retired_count failed_count skipped_count results
            → ⊥
        refused h = cc

        refused' : duplicates ≡ done status retired_count failed_count skipped_count results → ⊥
        refused' h = cc

    items-IsExecuted :
        (o : Option (List String))
        → strings items ≡ o
        → retire_items submit limits now user o db w
          ≡ (done status retired_count failed_count skipped_count results, db', w')
        → IsExecuted limits now user items db db' status retired_count failed_count skipped_count
            results
    items-IsExecuted none requested e = absurd (refused (ap (λ t. t.0) e))
      where
        refused : bad_request ≡ done status retired_count failed_count skipped_count results → ⊥
        refused h = cc
    items-IsExecuted (some ids) requested e = strings-IsExecuted ids requested e

    -- A request that is answered with a summary has checked that its identifiers are non-blank
    -- strings, no more than the maximum, distinct, and each of an ACTIVE loan of the caller. It
    -- reports every one of them once, in the order of the request; the three counts add up to their
    -- number, and the status is 200 exactly when all are retired. In the database the loans reported
    -- as retired are REPAID, and every other loan is as before.
    pub bulk_retire-IsExecuted :
        bulk_retire_loans submit limits now user (array items) db w
          ≡ (done status retired_count failed_count skipped_count results, db', w')
        → IsExecuted limits now user items db db' status retired_count failed_count skipped_count
            results
    bulk_retire-IsExecuted e =
        items-IsExecuted (strings items) refl
          (sym (bulk_items now user items db w (ap (λ t. is_done t.0) e)) ∙ e)
