-- ===== src/Lifecycle/Tables.antt =====
-- What one action of src/controllers and src/services/soroban.service.ts does to a livestock row.
use stellar_kraal_backend.Prelude.{
  if◌then◌else◌, Bool-cases, find, update, map_option, find-update_self, find-update_other, ℕ,
  String, ◌≡◌, refl, ◌∙◌, subst, inl, inr, Bool, true, false, ◌&&◌, Option, none, some, List, arith,
  str_eq, eq_iff,
}
use stellar_kraal_backend.Database.{
  Livestock, is_verified, has_livestock_id, User, Loan, Database, Environment, has_public_key,
  has_animal_id, find_loan,
}
use stellar_kraal_backend.Lifecycle.{is_liquidation}
use stellar_kraal_backend.Number.{Arith}
use stellar_kraal_backend.Indexer.{
  Payload, SorobanEvent, to_liquidated, with_parties, blocks_creation, create_from, mark_verified,
  change_status, process_event, Topic, absent, undecodable, named, to_repaid, is_replayed,
  handle_loan_created, change_found, handle_loan_status_change, dispatch_event,
}

own : (b c : Bool) → c ≡ true → b ≡ (b && c)
own b c e = ground arith

-- What no action changes, and how a row may come to be verified.
pub record Keeps {A : Type 0} (vouched : Bool) (l l' : Livestock A) : Type 0 where
  pub same_id : l'.id ≡ l.id
  pub same_animal : l'.animal_id ≡ l.animal_id
  pub same_owner : l'.owner_id ≡ l.owner_id
  pub same_value : l'.appraised_value ≡ l.appraised_value
  pub vouched_for :
      vouched ≡ false
      → is_verified l.verification_status ≡ false
      → is_verified l'.verification_status ≡ false

module _ {A : Type 0} where
  abbrev pub Survives : Bool → String → Livestock A → Option (Livestock A) → Type 0
  Survives vouched id l found = (l' : Livestock A) × (found ≡ some l') × Keeps vouched l l'

  pub Keeps-refl : (b : Bool) (l : Livestock A) → Keeps b l l
  Keeps-refl b l = record {
    same_id = refl;
    same_animal = refl;
    same_owner = refl;
    same_value = refl;
    vouched_for = λ _ h. h;
  }

  pub same-Survives :
      (b : Bool) (id : String) (l : Livestock A) (xs ys : List (Livestock A))
      → ys ≡ xs
      → find (has_livestock_id id) xs ≡ some l
      → Survives b id l (find (has_livestock_id id) ys)
  same-Survives b id l xs ys e h = rw e (l, h, Keeps-refl b l)

  pub vouched-Survives :
      (b : Bool) (id : String) (l : Livestock A) (o : Option (Livestock A))
      → Survives b id l o
      → Survives true id l o
  vouched-Survives b id l o (l', found, k) = (
    l',
    found,
    record {
      same_id = k.same_id;
      same_animal = k.same_animal;
      same_owner = k.same_owner;
      same_value = k.same_value;
      vouched_for = λ h _. ground arith;
    },
  )

  pub find-update_id :
      (id j : String) (f : Livestock A → Livestock A)
      → ((l : Livestock A) → (f l).id ≡ l.id)
      → (xs : List (Livestock A))
      → find (has_livestock_id id) (update (has_livestock_id j) f xs) ≡ (
          if str_eq j id
          then map_option f (find (has_livestock_id id) xs)
          else find (has_livestock_id id) xs)
  find-update_id id j f keeps xs = elim (Bool-cases (str_eq j id)) [
    | inl e ↦
        let same : j ≡ id = (eq_iff j id).0 e in
        rw e (rw same (find-update_self (has_livestock_id id) f (λ l h. rw (keeps l) h) xs))
    | inr e ↦ rw e (
        find-update_other (has_livestock_id j) (has_livestock_id id) f
          (λ l h. let same : l.id ≡ j = (eq_iff _ _).0 h in (rw same e, rw (keeps l) (rw same e)))
          xs)
  ]

  -- A change of the rows of one id, kept by each and vouched for by `b` if it is the row's own.
  pub update-Survives :
      (b : Bool) (id j : String) (f : Livestock A → Livestock A)
      → ((l : Livestock A) → Keeps b l (f l))
      → (xs : List (Livestock A)) (l : Livestock A) → find (has_livestock_id id) xs ≡ some l
      → Survives
          (b && str_eq j id)
          id
          l
          (find (has_livestock_id id) (update (has_livestock_id j) f xs))
  update-Survives b id j f keeps xs l h =
      let at : find (has_livestock_id id) (update (has_livestock_id j) f xs)
          ≡ (if str_eq j id then some (f l) else some l) =
        find-update_id id j f (λ r. (keeps r).same_id) xs ∙ rw h refl in
      elim (Bool-cases (str_eq j id)) [
        | inl e ↦
            (f l, at ∙ rw e refl, subst (λ c. Keeps c l (f l)) (own b (str_eq j id) e) (keeps l))
        | inr e ↦ (l, at ∙ rw e refl, Keeps-refl (b && str_eq j id) l)
      ]

module _ {A : Type 0} ⦃n : Arith A⦄ where
  with_parties-livestock :
      (env : Environment) (ledger : ℕ) (d : Payload A) (o : Option (Loan A)) (db : Database A)
      (u : Option User) (r : Option (Livestock A))
      → (with_parties env ledger d o db u r).livestock ≡ db.livestock
  with_parties-livestock env ledger d o db none r = refl
  with_parties-livestock env ledger d o db (some u) none = refl
  with_parties-livestock env ledger d none db (some u) (some r) = refl
  with_parties-livestock env ledger d (some o) db (some u) (some r) = refl

  create_from-livestock :
      (env : Environment) (ledger : ℕ) (d : Payload A) (db : Database A)
      → (create_from env ledger d db).livestock ≡ db.livestock
  unfolding create_from
  create_from-livestock env ledger d db =
      elim (Bool-cases (blocks_creation ledger (find_loan d.loan_id db))) [
        | inl e ↦ rw e refl
        | inr e ↦ rw e (
            with_parties-livestock env ledger d (find_loan d.loan_id db) db
              (find (has_public_key d.borrower) db.users)
              (find (has_animal_id d.collateral_id) db.livestock))
      ]

  mark_verified-Keeps : (l : Livestock A) → Keeps true l (mark_verified l)
  mark_verified-Keeps l = record {
    same_id = refl;
    same_animal = refl;
    same_owner = refl;
    same_value = refl;
    vouched_for = λ h _. ground arith;
  }

  repaid-livestock :
      (env : Environment) (ledger : ℕ) (c : String) (o : Option (Loan A)) (db : Database A)
      → (change_found env ledger to_repaid c o db).livestock ≡ db.livestock
  repaid-livestock env ledger c none db = refl
  repaid-livestock env ledger c (some loan) db = ground arith

  liquidated-Survives :
      (env : Environment) (ledger : ℕ) (c id : String) (o : Option (Loan A)) (db : Database A)
      (l : Livestock A)
      → find (has_livestock_id id) db.livestock ≡ some l
      → Survives true id l
          (find (has_livestock_id id) (change_found env ledger to_liquidated c o db).livestock)
  liquidated-Survives env ledger c id none db l h = (l, h, Keeps-refl true l)
  liquidated-Survives env ledger c id (some loan) db l h =
      elim (Bool-cases (is_replayed ledger loan.last_event_ledger)) [
        | inl e ↦ rw e (l, h, Keeps-refl true l)
        | inr e ↦ rw e (
            vouched-Survives (true && str_eq loan.livestock_id id) id l _ (
              update-Survives true id loan.livestock_id mark_verified mark_verified-Keeps
                db.livestock l h))
      ]

  created-livestock :
      (env : Environment) (event : SorobanEvent A) (v : Option (Payload A)) (db : Database A)
      → (handle_loan_created env event v db).livestock ≡ db.livestock
  created-livestock env event none db = refl
  created-livestock env event (some d) db = create_from-livestock env event.ledger d db

  change-livestock :
      (env : Environment) (event : SorobanEvent A) (v : Option (Payload A)) (db : Database A)
      → (handle_loan_status_change env event to_repaid v db).livestock ≡ db.livestock
  unfolding change_status
  change-livestock env event none db = refl
  change-livestock env event (some d) db =
      repaid-livestock env event.ledger d.loan_id (find_loan d.loan_id db) db

  liquidation-Survives :
      (env : Environment) (event : SorobanEvent A) (v : Option (Payload A)) (id : String)
      (db : Database A) (l : Livestock A)
      → find (has_livestock_id id) db.livestock ≡ some l
      → Survives true id l (
          find
            (has_livestock_id id)
            (handle_loan_status_change env event to_liquidated v db).livestock)
  unfolding change_status
  liquidation-Survives env event none id db l h = (l, h, Keeps-refl true l)
  liquidation-Survives env event (some d) id db l h =
      liquidated-Survives env event.ledger d.loan_id id (find_loan d.loan_id db) db l h

  dispatch_event-Survives :
      (env : Environment) (event : SorobanEvent A) (topic : Topic) (id : String) (db : Database A)
      (l : Livestock A)
      → find (has_livestock_id id) db.livestock ≡ some l
      → Survives
          (is_liquidation topic)
          id
          l
          (find (has_livestock_id id) (dispatch_event env event topic db).livestock)
  dispatch_event-Survives env event absent id db l h = (l, h, Keeps-refl false l)
  dispatch_event-Survives env event undecodable id db l h = (l, h, Keeps-refl false l)
  dispatch_event-Survives env event (named name) id db l h =
      elim (Bool-cases (str_eq name "LoanCreated")) [
        | inl e ↦
            rw e
              (same-Survives _ id l db.livestock _ (created-livestock env event event.value db) h)
        | inr e ↦ rw e (elim (Bool-cases (str_eq name "LoanRepaid")) [
          | inl k ↦
              rw k
                (same-Survives _ id l db.livestock _ (change-livestock env event event.value db) h)
          | inr k ↦ rw k (elim (Bool-cases (str_eq name "AssetLiquidated")) [
            | inl j ↦ rw j (liquidation-Survives env event event.value id db l h)
            | inr j ↦ rw j (l, h, Keeps-refl false l)
          ])
        ])
      ]

  pub process_event-Survives :
      (env : Environment) (event : SorobanEvent A) (id : String) (db : Database A) (l : Livestock A)
      → find (has_livestock_id id) db.livestock ≡ some l
      → Survives
          (is_liquidation event.topic)
          id
          l
          (find (has_livestock_id id) (process_event env event db).livestock)
  unfolding process_event
  process_event-Survives env event id db l h =
      dispatch_event-Survives env event event.topic id db l h
