-- ===== src/Indexer/Effects.antt =====
-- What a new event writes, and an event that the replay guard drops by mistake
-- (src/services/soroban.service.ts).
use stellar_kraal_backend.Prelude.{
  find, map_option, find-update_self, find-update_other, ℕ, ◌<◌, String, ◌≡◌, refl, ap, ◌∙◌, ◌≢◌,
  ◌⊎◌, inl, inr, true, false, Option, none, some, arith, eq_iff,
}
use stellar_kraal_backend.Number.{Arith}
use stellar_kraal_backend.Database.{
  Environment, User, liquidated, verified, Livestock, Loan, Database, has_public_key, has_animal_id,
  has_livestock_id, find_loan,
}
use stellar_kraal_backend.Indexer.{
  SorobanEvent, Payload, named, StatusChange, to_repaid, to_liquidated, is_replayed, created_loan,
  create_from, changed, mark_verified, changed_table, change_status, process_event, upsert_loan,
}
use stellar_kraal_backend.Indexer.Handlers.{find-update_key, changed-key}
use stellar_kraal_backend.Indexer.Replay.{
  change_status_new, find-changed_table, change_status_stale, create_free, find-created,
}

-- No event of the loan was processed yet, or the last one was of an earlier ledger.
abbrev pub IsNew : ℕ → Option ℕ → Type 0
IsNew ledger none = Unit
IsNew ledger (some last) = last < ledger

IsNew-is_replayed :
    (ledger : ℕ) (last : Option ℕ) → IsNew ledger last → is_replayed ledger last ≡ false
IsNew-is_replayed ledger none h = refl
IsNew-is_replayed ledger (some last) h = ground arith

module _ {A : Type 0} ⦃n : Arith A⦄ where
  created_by :
      (env : Environment) (event : SorobanEvent A) (d : Payload A) (db : Database A)
      → event.topic ≡ named "LoanCreated"
      → event.value ≡ some d
      → process_event env event db ≡ create_from env event.ledger d db
  unfolding process_event
  created_by env event d db t x = rw t (rw x)

  repaid_by :
      (env : Environment) (event : SorobanEvent A) (d : Payload A) (db : Database A)
      → event.topic ≡ named "LoanRepaid"
      → event.value ≡ some d
      → process_event env event db ≡ change_status env event.ledger to_repaid d.loan_id db
  unfolding process_event
  repaid_by env event d db t x = rw t (rw x)

  liquidated_by :
      (env : Environment) (event : SorobanEvent A) (d : Payload A) (db : Database A)
      → event.topic ≡ named "AssetLiquidated"
      → event.value ≡ some d
      → process_event env event db ≡ change_status env event.ledger to_liquidated d.loan_id db
  unfolding process_event
  liquidated_by env event d db t x = rw t (rw x)

  other_loans :
      (env : Environment) (ledger : ℕ) (change : StatusChange) (id c : String) (db : Database A)
      (l : Loan A)
      → id ≢ c
      → find_loan c (changed_table env ledger change id l db) ≡ find_loan c db
  other_loans env ledger change id c db l ne =
      find-update_key c id (changed env ledger change) (changed-key env ledger change) db.loans
      ∙ ground (arith, eq_iff id c)

  other_animal :
      (id i : String) (w : Livestock A)
      → id ≢ i
      → has_livestock_id id w ≡ true
      → has_livestock_id i w ≡ false
  other_animal id i w ne h = ground (arith, eq_iff w.id id, eq_iff w.id i)

  -- An AssetLiquidated event of a known loan, in a later ledger than the last event of the loan, if
  -- there was one: the loan is LIQUIDATED, liquidated and synchronised now and last changed at the
  -- event's ledger, its other fields as before; its collateral is VERIFIED, its other fields as
  -- before; every other loan and every other animal is as before, and so are the users.
  pub liquidation-effect :
      (env : Environment) (event : SorobanEvent A) (d : Payload A) (db : Database A) (l : Loan A)
      (v : Livestock A)
      → event.topic ≡ named "AssetLiquidated"
      → event.value ≡ some d
      → find_loan d.loan_id db ≡ some l
      → IsNew event.ledger l.last_event_ledger
      → find (has_livestock_id l.livestock_id) db.livestock ≡ some v
      → let db' = process_event env event db in
        (find_loan d.loan_id db'
          ≡ some (record l {
            status = liquidated;
            last_synced_at = some env.now;
            last_event_ledger = some event.ledger;
            liquidated_at = some env.now;
          }))
        × (find (has_livestock_id l.livestock_id) db'.livestock
            ≡ some (record v { verification_status = verified }))
        × ((c : String) → d.loan_id ≢ c → find_loan c db' ≡ find_loan c db)
        × ((i : String)
            → l.livestock_id ≢ i
            → find (has_livestock_id i) db'.livestock ≡ find (has_livestock_id i) db.livestock)
        × (db'.users ≡ db.users)
  liquidation-effect env event d db l v t x e new ev =
      let same : process_event env event db
          ≡ changed_table env event.ledger to_liquidated d.loan_id l db =
        liquidated_by env event d db t x
        ∙ change_status_new env event.ledger to_liquidated d.loan_id db l e
            (IsNew-is_replayed event.ledger l.last_event_ledger new) in
      rw same (
        find-changed_table env event.ledger to_liquidated d.loan_id db l e,
        find-update_self (has_livestock_id l.livestock_id) mark_verified (λ w h. h) db.livestock
            ∙ ap (map_option mark_verified) ev,
        λ c ne. other_loans env event.ledger to_liquidated d.loan_id c db l ne,
        λ i ne.
            find-update_other (has_livestock_id l.livestock_id) (has_livestock_id i) mark_verified
              (λ w h. let other = other_animal l.livestock_id i w ne h in (other, other))
              db.livestock,
        refl,
      )

  -- A loan that a LoanCreated event has put into the table stays ACTIVE when the LoanRepaid or
  -- AssetLiquidated event of the same ledger Follows: the guard takes that event for a replay.
  pub same_ledger_dropped :
      (env env' : Environment) (created closed : SorobanEvent A) (d d' : Payload A)
      (db : Database A) (u : User) (v : Livestock A)
      → created.topic ≡ named "LoanCreated"
      → created.value ≡ some d
      → (closed.topic ≡ named "LoanRepaid") ⊎ (closed.topic ≡ named "AssetLiquidated")
      → closed.value ≡ some d'
      → d'.loan_id ≡ d.loan_id
      → closed.ledger ≡ created.ledger
      → find_loan d.loan_id db ≡ none
      → find (has_public_key d.borrower) db.users ≡ some u
      → find (has_animal_id d.collateral_id) db.livestock ≡ some v
      → (process_event env' closed (process_event env created db) ≡ process_event env created db)
        × (find_loan d.loan_id (process_event env created db)
            ≡ some (created_loan env created.ledger d u v))
  same_ledger_dropped env env' created closed d d' db u v tc vc tz vz key ledger fresh eu ev =
      let made : process_event env created db ≡ upsert_loan env created.ledger d u v none db =
        created_by env created d db tc vc
        ∙ create_free env created.ledger d db (rw fresh)
        ∙ rw (eu, ev, fresh) in
      let found = find-created env created.ledger d db u v fresh in
      let stale = λ (change : StatusChange).
        change_status_stale env' closed.ledger change d'.loan_id
          (upsert_loan env created.ledger d u v none db) (created_loan env created.ledger d u v)
          (rw key found) (rw ledger) in
      rw made (
        elim tz [
          | inl r ↦ repaid_by env' closed d' _ r vz ∙ stale to_repaid
          | inr q ↦ liquidated_by env' closed d' _ q vz ∙ stale to_liquidated
        ],
        found,
      )
