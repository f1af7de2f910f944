-- ===== src/Lifecycle/Lending.antt =====
-- From the registration of a livestock, through the end of its transaction, to a loan request.
use stellar_kraal_backend.Prelude.{
  find, find-append_none, Map, String, ◌≡◌, refl, sym, ap, ◌∙◌, inl, inr, false, Option, none, some,
  List, [], ◌∷◌, ◌++◌, arith, eq_refl,
}
use stellar_kraal_backend.Livestock.{
  Json, bad_field, already_registered, appraisal_failed, JsonText, RegisterBody, RegisterResponse,
  registered, CheckedBody,
}
use stellar_kraal_backend.Number.{Arith, whole}
use stellar_kraal_backend.Database.{
  Database, Livestock, has_livestock_id, appraised, rejected, Environment,
}
use stellar_kraal_backend.Auth.Login.{TokenPayload, non_empty}
use stellar_kraal_backend.Livestock.Registration.{register_livestock, minted, mint_settled}
use stellar_kraal_backend.Loans.Request.{
  LoanRequest, request_loan, is_active_on, for_livestock, not_yet_verified, to_submit,
}
use stellar_kraal_backend.Appraisal.{LivestockMetadata, AppraisalResult, Appraised}
use stellar_kraal_backend.Livestock.{
  JsonText, RegisterBody, registered, CheckedBody, RegisterResponse,
}
use stellar_kraal_backend.Livestock.Outcome.{register_livestock-outcome, row_of}
use stellar_kraal_backend.Lifecycle.Tables.{find-update_id}

module _ {A : Type 0} ⦃n : Arith A⦄ where
  abbrev pub request_of : String → A → A → LoanRequest A
  request_of id p d = record { livestock_id = some id; principal = some p; duration_days = some d }

  abbrev pub MayAsk : String → A → A → Database A → Type 0
  MayAsk id p d db =
      (non_empty (some id) ≡ some id)
      × (n.le p (whole 0) ≡ false)
      × (n.lt d (whole 1) ≡ false)
      × (n.lt (whole 730) d ≡ false)
      × (find (is_active_on id) db.loans ≡ none)

  request-of_row :
      (user : TokenPayload) (id : String) (p d : A) (db : Database A) (row : Livestock A)
      → MayAsk id p d db
      → find (has_livestock_id id) db.livestock ≡ some row
      → request_loan user (request_of id p d) db ≡ for_livestock user p d db (some row)
  unfolding request_loan
  request-of_row user id p d db row (named, more, day, years, _) found =
      rw named (rw more (rw day (rw years (rw found refl))))

  registered-injective :
      (l l' : Livestock A) (a a' : AppraisalResult A)
      → ◌≡◌ {A = RegisterResponse A} (registered l a) (registered l' a')
      → (l ≡ l') × (a ≡ a')
  registered-injective l l' a a' h = (ground arith, ground arith)

  find_appended :
      (id : String) (xs : List (Livestock A)) (row : Livestock A)
      → find (has_livestock_id id) xs ≡ none
      → row.id ≡ id
      → find (has_livestock_id id) (xs ++ row ∷ []) ≡ some row
  unfolding find
  find_appended id xs row h same =
      find-append_none (has_livestock_id id) xs (row ∷ []) h ∙ rw same (rw (eq_refl id) refl)

  minted_id : (o : Option String) (l : Livestock A) → (minted o l).id ≡ l.id
  minted_id none l = refl
  minted_id (some tx_hash) l = refl

  settled_row :
      (id : String) (o : Option String) (db : Database A) (row : Livestock A)
      → find (has_livestock_id id) db.livestock ≡ some row
      → find (has_livestock_id id) (mint_settled id o db).livestock ≡ some (minted o row)
  unfolding mint_settled
  settled_row id o db row h =
      find-update_id id id (minted o) (minted_id o) db.livestock ∙ rw (eq_refl id) (rw h refl)

module _ {A : Type 0} ⦃n : Arith A⦄ (json : JsonText A)
    (appraise : LivestockMetadata A → Appraised A) (env : Environment) (user : TokenPayload)
    (b : RegisterBody A) (db : Database A) where
  -- The tables after the registration.
  abbrev pub after_registration : Database A
  after_registration = (register_livestock json appraise env user b db).1

  created_row :
      (row : Livestock A) (r : AppraisalResult A)
      → (register_livestock json appraise env user b db).0 ≡ registered row r
      → (c : CheckedBody A) × (fields : Map (Json A)) × (row
          ≡ row_of json appraise env user b db c r fields)
        × (after_registration ≡ record db { livestock = db.livestock ++ row ∷ [] })
  created_row row r h = elim (register_livestock-outcome json appraise env user b db) [
    | inl (_, (e, out)) ↦
        let same : bad_field e ≡ registered row r = ap (λ t. t.0) (sym out) ∙ h in
        absurd (ground arith)
    | inr (c, _, inl (old, _, out)) ↦
        let same : already_registered old.id ≡ registered row r = ap (λ t. t.0) (sym out) ∙ h in
        absurd (ground arith)
    | inr (c, _, inr (_, inl (e, _, out))) ↦
        let same : appraisal_failed e ≡ registered row r = ap (λ t. t.0) (sym out) ∙ h in
        absurd (ground arith)
    | inr (c, _, inr (_, inr (a, _, (fields, _, out)))) ↦
        let made = row_of json appraise env user b db c a fields in
        let (same_row, same_result) =
          registered-injective made row a r (ap (λ t. t.0) (sym out) ∙ h) in
        (
          c,
          fields,
          sym same_row ∙ ap (λ x. row_of json appraise env user b db c x fields) same_result,
          ap (λ t. t.1) out ∙ ap (λ x. record db { livestock = db.livestock ++ x ∷ [] }) same_row,
        )
  ]

  -- A livestock that `user` registers, under a row identifier that the tables do not use, is
  -- collateral for a loan once its transaction has succeeded and not before: with a positive
  -- principal up to its appraised value and a duration from 1 to 730 days, the user's request is
  -- refused as not yet verified right after the registration, refused as rejected when the
  -- transaction failed, and answered with the key, the tag and the numbers when it succeeded.
  pub register-request :
      (row : Livestock A) (r : AppraisalResult A) (p d : A) (tx_hash : String)
      → MayAsk env.cuid p d db
      → find (has_livestock_id env.cuid) db.livestock ≡ none
      → (register_livestock json appraise env user b db).0 ≡ registered row r
      → n.lt r.collateral_value p ≡ false
      → (request_loan user (request_of env.cuid p d) after_registration
          ≡ not_yet_verified appraised)
        × (request_loan user
              (request_of env.cuid p d)
              (mint_settled env.cuid none after_registration)
            ≡ not_yet_verified rejected)
        × (request_loan user
              (request_of env.cuid p d)
              (mint_settled env.cuid (some tx_hash) after_registration)
            ≡ to_submit (record {
              borrower = user.public_key;
              collateral_id = row.animal_id;
              principal = p;
              duration_days = d;
            }))
  unfolding mint_settled
  register-request row r p d tx_hash may fresh done covered =
      let (c, fields, is_new, tables) = created_row row r done in
      let found : find (has_livestock_id env.cuid) after_registration.livestock ≡ some row =
        rw tables (find_appended env.cuid db.livestock row fresh (rw is_new refl)) in
      let asks : MayAsk env.cuid p d after_registration = rw tables may in
      let (_, _, _, _, free) = asks in
      (
        request-of_row user env.cuid p d after_registration row asks found
            ∙ rw is_new (rw (eq_refl user.sub) refl),
        request-of_row user env.cuid p d (mint_settled env.cuid none after_registration)
              (minted none row) asks (settled_row env.cuid none after_registration row found)
            ∙ rw is_new (rw (eq_refl user.sub) refl),
        request-of_row user env.cuid p d (mint_settled env.cuid (some tx_hash) after_registration)
              (minted (some tx_hash) row) asks
              (settled_row env.cuid (some tx_hash) after_registration row found)
            ∙ rw is_new (rw (eq_refl user.sub) (rw covered (rw free refl))),
      )
