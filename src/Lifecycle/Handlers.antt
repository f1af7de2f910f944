-- ===== src/Lifecycle/Handlers.antt =====
-- What the handlers of src/controllers do to the livestock row of one id.
use stellar_kraal_backend.Prelude.{
  ltb, is_some, Bool-cases, Option-cases, length, find, find-append_some, has_duplicates, ℕ, String,
  ◌≡◌, refl, ◌∙◌, ◌⊎◌, inl, inr, false, ◌&&◌, Option, none, some, List, [], ◌∷◌, arith, str_eq,
}
use stellar_kraal_backend.Lifecycle.Tables.{Keeps-refl, Keeps, Survives, update-Survives}
use stellar_kraal_backend.Database.{
  Database, Livestock, Environment, VerificationStatus, is_verified, has_livestock_id, admin,
  farmer, investor, is_admin, Role, has_animal_id,
}
use stellar_kraal_backend.Appraisal.{LivestockMetadata, Appraised, ok, thrown}
use stellar_kraal_backend.Auth.Login.{TokenPayload}
use stellar_kraal_backend.Livestock.{JsonText, RegisterBody, UpdateBody, CheckedBody, FieldError}
use stellar_kraal_backend.Livestock.Registration.{
  register_livestock, mint_settled, minted, checked_body, register_checked, new_livestock,
  appraise_and_create, unless_registered,
}
use stellar_kraal_backend.Livestock.Upkeep.{
  update_livestock, edited, may_update, new_status, update_found,
}
use stellar_kraal_backend.Retirement.{
  Submission, RetirementChunkResult, RetirementChunkStatus, success, failed, skipped,
  retire_loans_on_chain,
}
use stellar_kraal_backend.Retirement.Handler.{
  LoanIds, Limits, bulk_retire_loans, store_chunks, store_chunk, not_array, array, Reason, strings,
  validation_errors, targets_of, execute, retire_strings, retire_items,
}
use stellar_kraal_backend.Lifecycle.{asks_verified}
use stellar_kraal_backend.Number.{Arith}

new_status-verified :
    (r : Role) (o : Option VerificationStatus) (s : VerificationStatus)
    → (is_admin r && asks_verified o) ≡ false
    → is_verified s ≡ false
    → is_verified (new_status r o s) ≡ false
new_status-verified admin none s h k = k
new_status-verified admin (some t) s h k = ground arith
new_status-verified farmer o s h k = k
new_status-verified investor o s h k = k

module _ {A : Type 0} where
  minted-Keeps : (o : Option String) (l : Livestock A) → Keeps (is_some o) l (minted o l)
  minted-Keeps none l = record {
    same_id = refl;
    same_animal = refl;
    same_owner = refl;
    same_value = refl;
    vouched_for = λ _ _. refl;
  }
  minted-Keeps (some tx_hash) l = record {
    same_id = refl;
    same_animal = refl;
    same_owner = refl;
    same_value = refl;
    vouched_for = λ h _. ground arith;
  }

  edited-Keeps :
      (json : JsonText A) (user : TokenPayload) (b : UpdateBody) (l : Livestock A)
      → Keeps (is_admin user.role && asks_verified b.verification_status) l (edited json user b l)
  edited-Keeps json user b l = record {
    same_id = refl;
    same_animal = refl;
    same_owner = refl;
    same_value = refl;
    vouched_for = new_status-verified user.role b.verification_status l.verification_status;
  }

  pub mint-Survives :
      (id j : String) (o : Option String) (db : Database A) (l : Livestock A)
      → find (has_livestock_id id) db.livestock ≡ some l
      → Survives
          (is_some o && str_eq j id)
          id
          l
          (find (has_livestock_id id) (mint_settled j o db).livestock)
  unfolding mint_settled
  mint-Survives id j o db l h =
      update-Survives (is_some o) id j (minted o) (minted-Keeps o) db.livestock l h

  update_found-Survives :
      (json : JsonText A) (user : TokenPayload) (j id : String) (b : UpdateBody)
      (o : Option (Livestock A)) (db : Database A) (l : Livestock A)
      → find (has_livestock_id id) db.livestock ≡ some l
      → Survives
          ((is_admin user.role && asks_verified b.verification_status) && str_eq j id)
          id
          l
          (find (has_livestock_id id) (update_found json user j b o db).1.livestock)
  update_found-Survives json user j id b none db l h = (l, h, Keeps-refl _ l)
  update_found-Survives json user j id b (some r) db l h = elim (Bool-cases (may_update user r)) [
    | inr e ↦ rw e (l, h, Keeps-refl _ l)
    | inl e ↦ rw e (
        update-Survives (is_admin user.role && asks_verified b.verification_status) id j
          (edited json user b) (edited-Keeps json user b) db.livestock l h)
  ]

  pub edit-Survives :
      (json : JsonText A) (user : TokenPayload) (j id : String) (b : UpdateBody) (db : Database A)
      (l : Livestock A)
      → find (has_livestock_id id) db.livestock ≡ some l
      → Survives
          ((is_admin user.role && asks_verified b.verification_status) && str_eq j id)
          id
          l
          (find (has_livestock_id id) (update_livestock json user j b db).1.livestock)
  unfolding update_livestock
  edit-Survives json user j id b db l h =
      update_found-Survives json user j id b (find (has_livestock_id j) db.livestock) db l h

module _ {A : Type 0} ⦃n : Arith A⦄ where
  appended :
      (json : JsonText A) (env : Environment) (user : TokenPayload) (b : RegisterBody A)
      (c : CheckedBody A) (db : Database A) (r : Appraised A) (id : String) (l : Livestock A)
      → find (has_livestock_id id) db.livestock ≡ some l
      → find (has_livestock_id id) (appraise_and_create json env user b c db r).1.livestock ≡ some l
  appended json env user b c db (thrown e) id l h = h
  appended json env user b c db (ok r) id l h =
      find-append_some (has_livestock_id id) db.livestock
        (new_livestock json env user.sub b c r ∷ []) l h

  unless_registered-livestock :
      (json : JsonText A) (appraise : LivestockMetadata A → Appraised A) (env : Environment)
      (user : TokenPayload) (b : RegisterBody A) (c : CheckedBody A) (db : Database A)
      (o : Option (Livestock A)) (id : String) (l : Livestock A)
      → find (has_livestock_id id) db.livestock ≡ some l
      → find (has_livestock_id id) (unless_registered json appraise env user b c db o).1.livestock
        ≡ some l
  unless_registered-livestock json appraise env user b c db (some r) id l h = h
  unless_registered-livestock json appraise env user b c db none id l h =
      appended json env user b c db (appraise c.metadata) id l h

  registered-livestock :
      (json : JsonText A) (appraise : LivestockMetadata A → Appraised A) (env : Environment)
      (user : TokenPayload) (b : RegisterBody A) (c : FieldError ⊎ CheckedBody A) (db : Database A)
      (id : String) (l : Livestock A)
      → find (has_livestock_id id) db.livestock ≡ some l
      → find (has_livestock_id id) (register_checked json appraise env user b c db).1.livestock
        ≡ some l
  registered-livestock json appraise env user b (inl e) db id l h = h
  registered-livestock json appraise env user b (inr c) db id l h =
      unless_registered-livestock json appraise env user b c db
        (find (has_animal_id c.animal_id) db.livestock) id l h

  pub registration-Survives :
      (json : JsonText A) (appraise : LivestockMetadata A → Appraised A) (env : Environment)
      (user : TokenPayload) (b : RegisterBody A) (db : Database A) (id : String) (l : Livestock A)
      → find (has_livestock_id id) db.livestock ≡ some l
      → Survives false id l
          (find (has_livestock_id id) (register_livestock json appraise env user b db).1.livestock)
  unfolding register_livestock
  registration-Survives json appraise env user b db id l h = (
    l,
    registered-livestock json appraise env user b (checked_body b) db id l h,
    Keeps-refl false l,
  )

module _ {A W : Type 0} (submit : List String → W → Submission × W) (limits : Limits) where
  store_chunk-livestock :
      (now : ℕ) (s : RetirementChunkStatus) (ids : List String) (db : Database A)
      → (store_chunk now s ids db).livestock ≡ db.livestock
  store_chunk-livestock now success ids db = refl
  store_chunk-livestock now failed ids db = refl
  store_chunk-livestock now skipped ids db = refl

  store_chunks-livestock :
      (now : ℕ) (rs : List RetirementChunkResult) (db : Database A)
      → (store_chunks now rs db).livestock ≡ db.livestock
  unfolding store_chunks
  store_chunks-livestock now [] db = refl
  store_chunks-livestock now (r ∷ rs) db =
      store_chunks-livestock now rs (store_chunk now r.status r.loan_ids db)
      ∙ store_chunk-livestock now r.status r.loan_ids db

  execute-livestock :
      (now : ℕ) (ids : List String) (db : Database A) (w : W) (es : List (String × Reason))
      → (execute submit limits now ids db w es).1.livestock ≡ db.livestock
  execute-livestock now ids db w (e ∷ es) = refl
  execute-livestock now ids db w [] =
      elim (Option-cases
        (retire_loans_on_chain submit (targets_of db ids) limits.max_ops_per_tx w)) [
          | inl e ↦ rw e refl
          | inr ((rs, w'), e) ↦ rw e (store_chunks-livestock now rs db)
        ]

  retire_items-livestock :
      (now : ℕ) (user : String) (o : Option (List String)) (db : Database A) (w : W)
      → (retire_items submit limits now user o db w).1.livestock ≡ db.livestock
  unfolding retire_strings
  retire_items-livestock now user none db w = refl
  retire_items-livestock now user (some ids) db w =
      elim (Bool-cases (ltb limits.max_batch_size (length ids))) [
        | inl e ↦ rw e refl
        | inr e ↦ rw e (elim (Bool-cases (has_duplicates ids)) [
          | inl k ↦ rw k refl
          | inr k ↦ rw k (execute-livestock now ids db w (validation_errors db user ids))
        ])
      ]

  pub retirement-livestock :
      (now : ℕ) (user : String) (ids : LoanIds) (db : Database A) (w : W)
      → (bulk_retire_loans submit limits now user ids db w).1.livestock ≡ db.livestock
  unfolding bulk_retire_loans
  retirement-livestock now user not_array db w = refl
  retirement-livestock now user (array []) db w = refl
  retirement-livestock now user (array (i ∷ is)) db w =
      retire_items-livestock now user (strings (i ∷ is)) db w
