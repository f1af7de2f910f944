-- ===== src/Indexer/Replay.antt =====
-- Replayed events, and the effect of new ones (src/services/soroban.service.ts).
use stellar_kraal_backend.Prelude.{
  Bool-cases, find, update, map_option, find-append_none, ℕ, String, ◌≡◌, refl, ap, ◌∙◌, inl, inr,
  true, false, Option, none, some, List, arith, eq_refl,
}
use stellar_kraal_backend.Number.{Arith}
use stellar_kraal_backend.Database.{
  Environment, Loan, Database, has_contract_loan_id, find_loan, User, Livestock, has_public_key,
  has_animal_id,
}
use stellar_kraal_backend.Indexer.{
  StatusChange, to_repaid, to_liquidated, is_replayed, changed, change_status, changed_table,
  Payload, Topic, absent, undecodable, named, SorobanEvent, touch, created_loan, upsert_loan,
  with_parties, blocks_creation, create_from, handle_loan_created, handle_loan_status_change,
  dispatch_event, process_event,
}
use stellar_kraal_backend.Indexer.Handlers.{find-update_key, changed-key}

pub is_replayed_self : (ledger : ℕ) → is_replayed ledger (some ledger) ≡ true
is_replayed_self ledger = ground arith

module _ {A : Type 0} ⦃n : Arith A⦄ where
  changed-ledger :
      (env : Environment) (ledger : ℕ) (change : StatusChange) (l : Loan A)
      → (changed env ledger change l).last_event_ledger ≡ some ledger
  changed-ledger env ledger to_repaid l = refl
  changed-ledger env ledger to_liquidated l = refl

  find-changed :
      (id : String) (f : Loan A → Loan A) (l : Loan A) (ls : List (Loan A))
      → ((k : Loan A) → (f k).contract_loan_id ≡ k.contract_loan_id)
      → find (has_contract_loan_id id) ls ≡ some l
      → find (has_contract_loan_id id) (update (has_contract_loan_id id) f ls) ≡ some (f l)
  find-changed id f l ls keeps e =
      find-update_key id id f keeps ls ∙ rw (eq_refl id) (ap (map_option f) e)

  -- A status change of a loan that the same ledger has already marked does nothing.
  pub change_status_stale :
      (env : Environment) (ledger : ℕ) (change : StatusChange) (id : String) (db : Database A)
      (l : Loan A)
      → find_loan id db ≡ some l
      → l.last_event_ledger ≡ some ledger
      → change_status env ledger change id db ≡ db
  unfolding change_status
  change_status_stale env ledger change id db l e k = rw e (rw k (rw (is_replayed_self ledger)))

  pub change_status_new :
      (env : Environment) (ledger : ℕ) (change : StatusChange) (id : String) (db : Database A)
      (l : Loan A)
      → find_loan id db ≡ some l
      → is_replayed ledger l.last_event_ledger ≡ false
      → change_status env ledger change id db ≡ changed_table env ledger change id l db
  unfolding change_status
  change_status_new env ledger change id db l e new = rw e (rw new)

  pub find-changed_table :
      (env : Environment) (ledger : ℕ) (change : StatusChange) (id : String) (db : Database A)
      (l : Loan A)
      → find_loan id db ≡ some l
      → find_loan id (changed_table env ledger change id l db) ≡ some (changed env ledger change l)
  find-changed_table env ledger change id db l e =
      find-changed id (changed env ledger change) l db.loans (changed-key env ledger change) e

  pub change_status_skips :
      (env : Environment) (ledger : ℕ) (change : StatusChange) (id : String) (db : Database A)
      (o : Option (Loan A))
      → find_loan id db ≡ o
      → ((l : Loan A) → o ≡ some l → is_replayed ledger l.last_event_ledger ≡ true)
      → change_status env ledger change id db ≡ db
  unfolding change_status
  change_status_skips env ledger change id db none e h = rw e
  change_status_skips env ledger change id db (some l) e h = rw e (rw (h l refl))

  change_status_twice :
      (env env' : Environment) (ledger : ℕ) (change : StatusChange) (id : String) (db : Database A)
      (o : Option (Loan A))
      → find_loan id db ≡ o
      → change_status env' ledger change id (change_status env ledger change id db)
        ≡ change_status env ledger change id db
  change_status_twice env env' ledger change id db none e =
      let skip = change_status_skips env ledger change id db none e (λ l k. cc) in
      rw skip (change_status_skips env' ledger change id db none e (λ l k. cc))
  change_status_twice env env' ledger change id db (some l) e =
      elim (Bool-cases (is_replayed ledger l.last_event_ledger)) [
        | inl old ↦
            let again =
              λ (m : Loan A) (k : some l ≡ some m). let same : l ≡ m = cc in rw same at old in
            let skip = change_status_skips env ledger change id db (some l) e again in
            rw skip (change_status_skips env' ledger change id db (some l) e again)
        | inr new ↦ rw (change_status_new env ledger change id db l e new) (
            change_status_stale env' ledger change id _ (changed env ledger change l)
              (find-changed_table env ledger change id db l e) (changed-ledger env ledger change l))
      ]

  pub create_blocked :
      (env : Environment) (ledger : ℕ) (d : Payload A) (db : Database A)
      → blocks_creation ledger (find_loan d.loan_id db) ≡ true
      → create_from env ledger d db ≡ db
  unfolding create_from
  create_blocked env ledger d db h = rw h

  pub create_free :
      (env : Environment) (ledger : ℕ) (d : Payload A) (db : Database A)
      → blocks_creation ledger (find_loan d.loan_id db) ≡ false
      → create_from env ledger d db
        ≡ with_parties env ledger d
            (find_loan d.loan_id db)
            db
            (find (has_public_key d.borrower) db.users)
            (find (has_animal_id d.collateral_id) db.livestock)
  unfolding create_from
  create_free env ledger d db h = rw h

  pub find-created :
      (env : Environment) (ledger : ℕ) (d : Payload A) (db : Database A) (u : User)
      (v : Livestock A)
      → find_loan d.loan_id db ≡ none
      → find_loan d.loan_id (upsert_loan env ledger d u v none db)
        ≡ some (created_loan env ledger d u v)
  unfolding find
  find-created env ledger d db u v e =
      find-append_none (has_contract_loan_id d.loan_id) db.loans _ e ∙ rw (eq_refl d.loan_id)

  blocks_after :
      (env : Environment) (ledger : ℕ) (d : Payload A) (db : Database A) (o : Option (Loan A))
      (u : User) (v : Livestock A)
      → find_loan d.loan_id db ≡ o
      → blocks_creation ledger (find_loan d.loan_id (upsert_loan env ledger d u v o db)) ≡ true
  blocks_after env ledger d db none u v e =
      rw (find-created env ledger d db u v e) (rw (is_replayed_self ledger))
  blocks_after env ledger d db (some l) u v e =
      rw (find-changed d.loan_id (touch env ledger) l db.loans (λ k. refl) e)
        (rw (is_replayed_self ledger))

  create_missing :
      (env env' : Environment) (ledger : ℕ) (d : Payload A) (db : Database A)
      → create_from env ledger d db ≡ db
      → ((e : Environment) → create_from e ledger d db ≡ db)
      → create_from env' ledger d (create_from env ledger d db) ≡ create_from env ledger d db
  create_missing env env' ledger d db h k = rw h (k env')

  create_twice :
      (env env' : Environment) (ledger : ℕ) (d : Payload A) (db : Database A) (u : Option User)
      (v : Option (Livestock A))
      → find (has_public_key d.borrower) db.users ≡ u
      → find (has_animal_id d.collateral_id) db.livestock ≡ v
      → blocks_creation ledger (find_loan d.loan_id db) ≡ false
      → create_from env' ledger d (create_from env ledger d db) ≡ create_from env ledger d db
  create_twice env env' ledger d db (some u) (some v) eu ev free =
      let made : create_from env ledger d db
          ≡ upsert_loan env ledger d u v (find_loan d.loan_id db) db =
        create_free env ledger d db free ∙ rw (eu, ev) in
      rw made (
        create_blocked env' ledger d _
          (blocks_after env ledger d db (find_loan d.loan_id db) u v refl))
  create_twice env env' ledger d db none v eu ev free =
      let idle = λ (x : Environment). create_free x ledger d db free ∙ rw eu in
      create_missing env env' ledger d db (idle env) idle
  create_twice env env' ledger d db (some u) none eu ev free =
      let idle = λ (x : Environment). create_free x ledger d db free ∙ rw (eu, ev) in
      create_missing env env' ledger d db (idle env) idle

  created_twice :
      (env env' : Environment) (ledger : ℕ) (d : Payload A) (db : Database A)
      → create_from env' ledger d (create_from env ledger d db) ≡ create_from env ledger d db
  created_twice env env' ledger d db =
      elim (Bool-cases (blocks_creation ledger (find_loan d.loan_id db))) [
        | inl blocked ↦
            create_missing env env' ledger d db (create_blocked env ledger d db blocked)
              (λ x. create_blocked x ledger d db blocked)
        | inr free ↦ create_twice env env' ledger d db _ _ refl refl free
      ]

  handled_created_twice :
      (env env' : Environment) (event : SorobanEvent A) (o : Option (Payload A)) (db : Database A)
      → handle_loan_created env' event o (handle_loan_created env event o db)
        ≡ handle_loan_created env event o db
  handled_created_twice env env' event none db = refl
  handled_created_twice env env' event (some d) db = created_twice env env' event.ledger d db

  handled_change_twice :
      (env env' : Environment) (event : SorobanEvent A) (change : StatusChange)
      (o : Option (Payload A)) (db : Database A)
      → handle_loan_status_change env' event change o
          (handle_loan_status_change env event change o db)
        ≡ handle_loan_status_change env event change o db
  handled_change_twice env env' event change none db = refl
  handled_change_twice env env' event change (some d) db =
      change_status_twice env env' event.ledger change d.loan_id db _ refl

  dispatched_twice :
      (env env' : Environment) (event : SorobanEvent A) (t : Topic) (db : Database A)
      → dispatch_event env' event t (dispatch_event env event t db) ≡ dispatch_event env event t db
  dispatched_twice env env' event absent db = refl
  dispatched_twice env env' event undecodable db = refl
  dispatched_twice env env' event (named name) db = ground (
    arith,
    handled_created_twice env env' event event.value db,
    handled_change_twice env env' event to_repaid event.value db,
    handled_change_twice env env' event to_liquidated event.value db,
  )

  -- Processing an event a second time, at any later time, changes nothing.
  pub process_event_idempotent :
      (env env' : Environment) (event : SorobanEvent A) (db : Database A)
      → process_event env' event (process_event env event db) ≡ process_event env event db
  unfolding process_event
  process_event_idempotent env env' event db = dispatched_twice env env' event event.topic db
