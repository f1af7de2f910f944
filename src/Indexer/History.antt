-- ===== src/Indexer/History.antt =====
-- What holds of the loan table over any sequence of polled events.
use stellar_kraal_backend.Prelude.{
  if◌then◌else◌, Bool-cases, update, map_option, find-append_some, ℕ, String, ◌≡◌, refl, sym, inl,
  inr, Bool, true, false, Option, none, some, List, [], ◌∷◌, ◌++◌, str_eq, eq_iff,
}
use stellar_kraal_backend.Number.{Arith}
use stellar_kraal_backend.Database.{
  Database, Loan, Livestock, User, Environment, find_loan, has_contract_loan_id,
}
use stellar_kraal_backend.Indexer.{
  create_from, Payload, SorobanEvent, StatusChange, Indexer, is_replayed, touch, created_loan,
  with_parties, blocks_creation, changed, change_found, change_status, process_event, poll_events,
  Topic, absent, undecodable, named, to_repaid, to_liquidated, upsert_loan, handle_loan_created,
  changed_table, handle_loan_status_change, dispatch_event,
}
use stellar_kraal_backend.Indexer.Handlers.{
  Advances, find-update_key, Advances-refl, Advances-trans, touch-Advances, changed-key,
  changed-Advances,
}

module _ {A : Type 0} ⦃n : Arith A⦄ where
  -- Each loan of the first table is in the second, and has advanced.
  abbrev pub Persists : Database A → Database A → Type 0
  Persists db db' =
      (c : String) (l : Loan A)
      → find_loan c db ≡ some l
      → (l' : Loan A) × (find_loan c db' ≡ some l') × Advances l l'

  Persists-refl : (db : Database A) → Persists db db
  Persists-refl db c l e = (l, e, Advances-refl l)

  Persists-trans : (a b d : Database A) → Persists a b → Persists b d → Persists a d
  Persists-trans a b d h k c l e =
      let (l', e', adv) = h c l e in
      let (l'', e'', adv') = k c l' e' in (l'', e'', Advances-trans l l' l'' adv adv')

  -- A change of the rows of one key, by a function that advances the loan of that key.
  update-Persists :
      (id : String) (f : Loan A → Loan A) (db db' : Database A)
      → ((l : Loan A) → (f l).contract_loan_id ≡ l.contract_loan_id)
      → ((l : Loan A) → find_loan id db ≡ some l → Advances l (f l))
      → db'.loans ≡ update (has_contract_loan_id id) f db.loans
      → Persists db db'
  update-Persists id f db db' keeps advances table c l e =
      let seen : find_loan c db' ≡ (if str_eq id c then map_option f (some l) else some l) =
        rw table (rw (find-update_key c id f keeps db.loans) (rw e)) in
      elim (Bool-cases (str_eq id c)) [
        | inl same ↦
            let key : c ≡ id = sym ((eq_iff id c).0 same) in
            (f l, rw same at seen, advances l (rw key at e))
        | inr other ↦ (l, rw other at seen, Advances-refl l)
      ]

  append-Persists :
      (new : Loan A) (db : Database A) → Persists db (record db { loans = db.loans ++ new ∷ [] })
  append-Persists new db c l e =
      (l, find-append_some (has_contract_loan_id c) db.loans (new ∷ []) l e, Advances-refl l)

  with_parties-Persists :
      (env : Environment) (ledger : ℕ) (d : Payload A) (db : Database A) (o : Option (Loan A))
      (u : Option User) (v : Option (Livestock A))
      → find_loan d.loan_id db ≡ o
      → blocks_creation ledger o ≡ false
      → Persists db (with_parties env ledger d o db u v)
  with_parties-Persists env ledger d db none (some u) (some v) e h =
      append-Persists (created_loan env ledger d u v) db
  with_parties-Persists env ledger d db (some l) (some u) (some v) e h =
      update-Persists d.loan_id (touch env ledger) db (upsert_loan env ledger d u v (some l) db)
        (λ k. refl) (λ k f. let same : l ≡ k = cc in touch-Advances env ledger k (rw (← same) h))
        refl
  with_parties-Persists env ledger d db none none v e h = Persists-refl db
  with_parties-Persists env ledger d db none (some u) none e h = Persists-refl db
  with_parties-Persists env ledger d db (some l) none v e h = Persists-refl db
  with_parties-Persists env ledger d db (some l) (some u) none e h = Persists-refl db

  create_from-Persists :
      (env : Environment) (ledger : ℕ) (d : Payload A) (db : Database A)
      → Persists db (create_from env ledger d db)
  unfolding create_from
  create_from-Persists env ledger d db =
      elim (Bool-cases (blocks_creation ledger (find_loan d.loan_id db))) [
        | inl blocked ↦ rw blocked (Persists-refl db)
        | inr free ↦
            rw free (with_parties-Persists env ledger d db (find_loan d.loan_id db) _ _ refl free)
      ]

  change_found-Persists :
      (env : Environment) (ledger : ℕ) (change : StatusChange) (id : String) (db : Database A)
      (o : Option (Loan A))
      → find_loan id db ≡ o
      → Persists db (change_found env ledger change id o db)
  change_found-Persists env ledger change id db none e = Persists-refl db
  change_found-Persists env ledger change id db (some l) e =
      elim (Bool-cases (is_replayed ledger l.last_event_ledger)) [
        | inl old ↦ rw old (Persists-refl db)
        | inr new ↦ rw new (
            update-Persists id (changed env ledger change) db
              (changed_table env ledger change id l db) (changed-key env ledger change)
              (λ k f.
                let same : l ≡ k = cc in changed-Advances env ledger change k (rw (← same) new))
              refl)
      ]

  change_status-Persists :
      (env : Environment) (ledger : ℕ) (change : StatusChange) (id : String) (db : Database A)
      → Persists db (change_status env ledger change id db)
  unfolding change_status
  change_status-Persists env ledger change id db =
      change_found-Persists env ledger change id db (find_loan id db) refl

  created-Persists :
      (env : Environment) (event : SorobanEvent A) (o : Option (Payload A)) (db : Database A)
      → Persists db (handle_loan_created env event o db)
  created-Persists env event none db = Persists-refl db
  created-Persists env event (some d) db = create_from-Persists env event.ledger d db

  status-Persists :
      (env : Environment) (event : SorobanEvent A) (change : StatusChange) (o : Option (Payload A))
      (db : Database A)
      → Persists db (handle_loan_status_change env event change o db)
  status-Persists env event change none db = Persists-refl db
  status-Persists env event change (some d) db =
      change_status-Persists env event.ledger change d.loan_id db

  if-Persists :
      (b : Bool) (db x y : Database A)
      → Persists db x
      → Persists db y
      → Persists db (if b then x else y)
  if-Persists true db x y h k = h
  if-Persists false db x y h k = k

  dispatch-Persists :
      (env : Environment) (event : SorobanEvent A) (t : Topic) (db : Database A)
      → Persists db (dispatch_event env event t db)
  dispatch-Persists env event absent db = Persists-refl db
  dispatch-Persists env event undecodable db = Persists-refl db
  dispatch-Persists env event (named name) db =
      if-Persists (str_eq name "LoanCreated") db _ _ (created-Persists env event event.value db) (
        if-Persists (str_eq name "LoanRepaid") db _ _
          (status-Persists env event to_repaid event.value db)
          (if-Persists (str_eq name "AssetLiquidated") db _ _
            (status-Persists env event to_liquidated event.value db) (Persists-refl db)))

  process_event-Persists :
      (env : Environment) (event : SorobanEvent A) (db : Database A)
      → Persists db (process_event env event db)
  unfolding process_event
  process_event-Persists env event db = dispatch-Persists env event event.topic db

  -- Whatever events are polled, and in whatever order, a loan in the table stays there, keeps its
  -- borrower, collateral and principal, its last event ledger never falls, and once it is not
  -- ACTIVE it is never ACTIVE again.
  pub poll_events-Advances :
      (events : List (Environment × SorobanEvent A)) (s : Indexer A) (c : String) (l : Loan A)
      → find_loan c s.database ≡ some l
      → (l' : Loan A) × (find_loan c (poll_events events s).database ≡ some l') × Advances l l'
  unfolding poll_events
  poll_events-Advances [] s c l e = (l, e, Advances-refl l)
  poll_events-Advances ((env, event) ∷ rest) s c l e =
      let (l', e', adv) = process_event-Persists env event s.database c l e in
      let (l'', e'', adv') = poll_events-Advances rest _ c l' e' in
      (l'', e'', Advances-trans l l' l'' adv adv')
