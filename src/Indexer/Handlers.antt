-- ===== src/Indexer/Handlers.antt =====
-- What each event handler of src/services/soroban.service.ts does to the loan table.
use stellar_kraal_backend.Prelude.{
  if◌then◌else◌, Bool-cases, find, update, map_option, find-update_self, find-update_other, ℕ, ◌≤◌,
  String, ◌≡◌, refl, ◌∙◌, inl, inr, false, Option, none, some, List, arith, str_eq, eq_iff,
}
use stellar_kraal_backend.Number.{Arith}
use stellar_kraal_backend.Database.{Loan, Environment, is_active, has_contract_loan_id}
use stellar_kraal_backend.Indexer.{
  StatusChange, to_repaid, to_liquidated, is_replayed, touch, blocks_creation, changed,
}

module _ {A : Type 0} where
  pub find-update_key :
      (c id : String) (f : Loan A → Loan A)
      → ((l : Loan A) → (f l).contract_loan_id ≡ l.contract_loan_id)
      → (ls : List (Loan A))
      → find (has_contract_loan_id c) (update (has_contract_loan_id id) f ls) ≡ (
          if str_eq id c
          then map_option f (find (has_contract_loan_id c) ls)
          else find (has_contract_loan_id c) ls)
  find-update_key c id f keeps ls = elim (Bool-cases (str_eq id c)) [
    | inl e ↦
        let same : id ≡ c = (eq_iff id c).0 e in
        rw e (rw same (find-update_self (has_contract_loan_id c) f (λ l h. rw (keeps l) h) ls))
    | inr e ↦ rw e (
        find-update_other (has_contract_loan_id id) (has_contract_loan_id c) f
          (λ l h.
            let same : l.contract_loan_id ≡ id = (eq_iff _ _).0 h in
            (rw same e, rw (keeps l) (rw same e)))
          ls)
  ]

abbrev pub NotAfter : Option ℕ → Option ℕ → Type 0
NotAfter none _ = Unit
NotAfter (some a) none = ⊥
NotAfter (some a) (some b) = a ≤ b

-- How a loan may change: it keeps its parties and terms, its last event ledger does not fall, and
-- once it is not active it is never active again.
pub record Advances {A : Type 0} (l l' : Loan A) : Type 0 where
  pub same_key : l'.contract_loan_id ≡ l.contract_loan_id
  pub same_borrower : l'.borrower_id ≡ l.borrower_id
  pub same_livestock : l'.livestock_id ≡ l.livestock_id
  pub same_principal : l'.principal ≡ l.principal
  pub not_before : NotAfter l.last_event_ledger l'.last_event_ledger
  pub stays_closed : is_active l.status ≡ false → is_active l'.status ≡ false

NotAfter-refl : (o : Option ℕ) → NotAfter o o
NotAfter-refl none = tt
NotAfter-refl (some a) = omega arith

NotAfter-trans : (a b c : Option ℕ) → NotAfter a b → NotAfter b c → NotAfter a c
NotAfter-trans none b c h k = tt
NotAfter-trans (some a) none c h k = absurd h
NotAfter-trans (some a) (some b) none h k = absurd k
NotAfter-trans (some a) (some b) (some c) h k = omega arith

NotAfter-new : (o : Option ℕ) (ledger : ℕ) → is_replayed ledger o ≡ false → NotAfter o (some ledger)
NotAfter-new none ledger h = tt
NotAfter-new (some a) ledger h = ground arith

module _ {A : Type 0} ⦃n : Arith A⦄ where
  pub Advances-refl : (l : Loan A) → Advances l l
  Advances-refl l = record {
    same_key = refl;
    same_borrower = refl;
    same_livestock = refl;
    same_principal = refl;
    not_before = NotAfter-refl l.last_event_ledger;
    stays_closed = λ h. h;
  }

  pub Advances-trans : (a b c : Loan A) → Advances a b → Advances b c → Advances a c
  Advances-trans a b c h k = record {
    same_key = k.same_key ∙ h.same_key;
    same_borrower = k.same_borrower ∙ h.same_borrower;
    same_livestock = k.same_livestock ∙ h.same_livestock;
    same_principal = k.same_principal ∙ h.same_principal;
    not_before =
        NotAfter-trans a.last_event_ledger b.last_event_ledger c.last_event_ledger h.not_before
          k.not_before;
    stays_closed = λ e. k.stays_closed (h.stays_closed e);
  }

  pub touch-Advances :
      (env : Environment) (ledger : ℕ) (l : Loan A)
      → blocks_creation ledger (some l) ≡ false
      → Advances l (touch env ledger l)
  touch-Advances env ledger l h = record {
    same_key = refl;
    same_borrower = refl;
    same_livestock = refl;
    same_principal = refl;
    not_before = NotAfter-new l.last_event_ledger ledger (ground arith);
    stays_closed = λ e. ground arith;
  }

  pub changed-key :
      (env : Environment) (ledger : ℕ) (change : StatusChange) (l : Loan A)
      → (changed env ledger change l).contract_loan_id ≡ l.contract_loan_id
  changed-key env ledger to_repaid l = refl
  changed-key env ledger to_liquidated l = refl

  pub changed-Advances :
      (env : Environment) (ledger : ℕ) (change : StatusChange) (l : Loan A)
      → is_replayed ledger l.last_event_ledger ≡ false
      → Advances l (changed env ledger change l)
  changed-Advances env ledger to_repaid l h = record {
    same_key = refl;
    same_borrower = refl;
    same_livestock = refl;
    same_principal = refl;
    not_before = NotAfter-new l.last_event_ledger ledger h;
    stays_closed = λ e. refl;
  }
  changed-Advances env ledger to_liquidated l h = record {
    same_key = refl;
    same_borrower = refl;
    same_livestock = refl;
    same_principal = refl;
    not_before = NotAfter-new l.last_event_ledger ledger h;
    stays_closed = λ e. refl;
  }
