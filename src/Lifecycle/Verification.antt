-- ===== src/Lifecycle/Verification.antt =====
-- Through any history of the handlers of src/controllers and src/services, what a livestock row
-- keeps and how it becomes verified.
use stellar_kraal_backend.Prelude.{
  find, String, ◌≡◌, sym, ap, ◌∙◌, ◌≢◌, Bool, false, ◌||◌, none, some, List, [], ◌∷◌, arith,
}
use stellar_kraal_backend.Number.{Arith}
use stellar_kraal_backend.Database.{Database, Livestock, has_livestock_id, is_verified}
use stellar_kraal_backend.Appraisal.{LivestockMetadata, Appraised}
use stellar_kraal_backend.Livestock.{JsonText}
use stellar_kraal_backend.Loans.Request.{LoanRequest, LoanParams, request_loan, to_submit}
use stellar_kraal_backend.Loans.Acceptance.{request_loan-submit_iff}
use stellar_kraal_backend.Retirement.{Submission}
use stellar_kraal_backend.Retirement.Handler.{Limits}
use stellar_kraal_backend.Lifecycle.{
  Action, registers, mint_ends, edits, indexes, retires, perform, run, vouches, any_vouches,
}
use stellar_kraal_backend.Lifecycle.Tables.{
  Keeps, Survives, Keeps-refl, same-Survives, process_event-Survives,
}
use stellar_kraal_backend.Lifecycle.Handlers.{
  mint-Survives, edit-Survives, registration-Survives, retirement-livestock,
}
use stellar_kraal_backend.Auth.Login.{TokenPayload, non_empty}

module _ {A W : Type 0} ⦃n : Arith A⦄ (json : JsonText A)
    (appraise : LivestockMetadata A → Appraised A) (submit : List String → W → Submission × W)
    (limits : Limits) where
  perform-Survives :
      (a : Action A W) (id : String) (db : Database A) (l : Livestock A)
      → find (has_livestock_id id) db.livestock ≡ some l
      → Survives
          (vouches id a)
          id
          l
          (find (has_livestock_id id) (perform json appraise submit limits a db).livestock)
  unfolding perform vouches
  perform-Survives (registers env user b) id db l h =
      registration-Survives json appraise env user b db id l h
  perform-Survives (mint_ends j none) id db l h = mint-Survives id j none db l h
  perform-Survives (mint_ends j (some tx_hash)) id db l h = mint-Survives id j (some tx_hash) db l h
  perform-Survives (edits user j b) id db l h = edit-Survives json user j id b db l h
  perform-Survives (indexes env event) id db l h = process_event-Survives env event id db l h
  perform-Survives (retires now user ids w) id db l h =
      same-Survives false id l db.livestock _ (retirement-livestock submit limits now user ids db w)
        h

  Keeps-trans :
      (b c : Bool) (l₁ l₂ l₃ : Livestock A) → Keeps b l₁ l₂ → Keeps c l₂ l₃ → Keeps (b || c) l₁ l₃
  Keeps-trans b c l₁ l₂ l₃ h k = record {
    same_id = k.same_id ∙ h.same_id;
    same_animal = k.same_animal ∙ h.same_animal;
    same_owner = k.same_owner ∙ h.same_owner;
    same_value = k.same_value ∙ h.same_value;
    vouched_for =
        λ unvouched before. k.vouched_for (ground arith) (h.vouched_for (ground arith) before);
  }

  run-Survives :
      (actions : List (Action A W)) (id : String) (db : Database A) (l : Livestock A)
      → find (has_livestock_id id) db.livestock ≡ some l
      → Survives
          (any_vouches id actions)
          id
          l
          (find (has_livestock_id id) (run json appraise submit limits actions db).livestock)
  unfolding run any_vouches
  run-Survives [] id db l h = (l, h, Keeps-refl false l)
  run-Survives (a ∷ rest) id db l h =
      let (l₁, found₁, k₁) = perform-Survives a id db l h in
      let (l₂, found₂, k₂) =
        run-Survives rest id (perform json appraise submit limits a db) l₁ found₁ in
      (l₂, found₂, Keeps-trans (vouches id a) (any_vouches id rest) l l₁ l₂ k₁ k₂)

  -- After any list of registrations, ends of registration transactions, edits, chain events and
  -- bulk retirements, by any users and in any order, a livestock row is still found by its id, with
  -- the tag, the owner and the appraised value that it had.
  pub run-keeps_row :
      (actions : List (Action A W)) (id : String) (db : Database A) (l : Livestock A)
      → find (has_livestock_id id) db.livestock ≡ some l
      → (l' : Livestock A) × (find
            (has_livestock_id id)
            (run json appraise submit limits actions db).livestock
          ≡ some l')
        × (l'.animal_id ≡ l.animal_id)
        × (l'.owner_id ≡ l.owner_id)
        × (l'.appraised_value ≡ l.appraised_value)
  run-keeps_row actions id db l h =
      let (l', found, k) = run-Survives actions id db l h in
      (l', found, k.same_animal, k.same_owner, k.same_value)

  -- No loan is granted on a livestock that was not verified and that no action of the history
  -- vouches for: whatever registrations, ends of other transactions, failures of its own
  -- transaction, edits by users who are no administrators, events other than liquidations and bulk
  -- retirements happen, a request that names it is not answered with parameters for the chain.
  pub unvouched-refused :
      (actions : List (Action A W)) (id : String) (db : Database A) (l : Livestock A)
      (user : TokenPayload) (b : LoanRequest A) (q : LoanParams A)
      → find (has_livestock_id id) db.livestock ≡ some l
      → is_verified l.verification_status ≡ false
      → any_vouches id actions ≡ false
      → non_empty b.livestock_id ≡ some id
      → request_loan user b (run json appraise submit limits actions db) ≢ to_submit q
  unvouched-refused actions id db l user b q h before unvouched named granted =
      let (l', found, k) = run-Survives actions id db l h in
      let a =
        (request_loan-submit_iff user b (run json appraise submit limits actions db) q).0 granted in
      let same : a.id ≡ id = ground (arith, a.named_livestock) in
      let row : some a.row ≡ some l' =
        sym a.found
        ∙ ap (λ i. find (has_livestock_id i) (run json appraise submit limits actions db).livestock)
            same
        ∙ found in
      let unverified = k.vouched_for unvouched before in
      ground (arith, a.verified_row, ap (λ s. is_verified s) a.verified_row)
