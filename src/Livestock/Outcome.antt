-- ===== src/Livestock/Outcome.antt =====
-- The outcomes of `registerLivestock`.
use stellar_kraal_backend.Prelude.{
  Option-cases, find, Map, ◌≡◌, refl, sym, ◌∙◌, ◌⊎◌, inl, inr, none, some, [], ◌∷◌, ◌++◌,
}
use stellar_kraal_backend.Number.{Arith}
use stellar_kraal_backend.Database.{Database, Livestock, Environment, has_animal_id, appraised}
use stellar_kraal_backend.Appraisal.{
  LivestockMetadata, Appraised, AppraisalResult, AppraisalError, ok, thrown,
}
use stellar_kraal_backend.Auth.Login.{TokenPayload}
use stellar_kraal_backend.Livestock.{
  Json, JsonText, RegisterBody, CheckedBody, FieldError, bad_field, already_registered,
  appraisal_failed, registered,
}
use stellar_kraal_backend.Livestock.Checks.{
  IsChecked, IsMetadata, checked_body-IsChecked, IsChecked-checked_body, metadata_of-IsMetadata,
}
use stellar_kraal_backend.Livestock.Registration.{
  Registered, register_livestock, checked_body, register_checked, unless_registered,
  appraise_and_create, metadata_of,
}

module _ {A : Type 0} ⦃n : Arith A⦄ (json : JsonText A)
    (appraise : LivestockMetadata A → Appraised A) (env : Environment) (user : TokenPayload)
    (b : RegisterBody A) (db : Database A) where
  -- The new row, with the text of a metadata object.
  abbrev pub row_of : CheckedBody A → AppraisalResult A → Map (Json A) → Livestock A
  row_of c a fields = record {
    id = env.cuid;
    animal_id = c.animal_id;
    owner_id = user.sub;
    metadata = json.stringify fields;
    appraised_value = some a.collateral_value;
    appraisal_tx_hash = none;
    verification_status = appraised;
  }

  -- The row is answered, is the last of its table, and its transaction starts.
  abbrev pub IsCreated : CheckedBody A → AppraisalResult A → Registered A → Type 0
  IsCreated c a out =
      (fields : Map (Json A)) × IsMetadata b c.metadata fields
      × (out ≡ (
        registered (row_of c a fields) a,
        record db { livestock = db.livestock ++ row_of c a fields ∷ [] },
        some (record {
          livestock_id = env.cuid;
          animal_id = c.animal_id;
          owner_public_key = user.public_key;
          appraised_value = a.collateral_value;
        }),
      ))

  -- A refusal changes nothing: there is a row with the tag, or the appraisal throws.
  abbrev pub IsSettled : CheckedBody A → Registered A → Type 0
  IsSettled c out =
      ((old : Livestock A) × (find (has_animal_id c.animal_id) db.livestock ≡ some old)
        × (out ≡ (already_registered old.id, db, none)))
      ⊎ ((find (has_animal_id c.animal_id) db.livestock ≡ none)
          × (((e : AppraisalError) × (appraise c.metadata ≡ thrown e)
                × (out ≡ (appraisal_failed e, db, none)))
              ⊎ ((a : AppraisalResult A) × (appraise c.metadata ≡ ok a) × IsCreated c a out)))

  appraise_and_create-outcome :
      (c : CheckedBody A) (r : Appraised A)
      → ((e : AppraisalError) × (r ≡ thrown e)
          × (appraise_and_create json env user b c db r ≡ (appraisal_failed e, db, none)))
        ⊎ ((a : AppraisalResult A) × (r ≡ ok a)
            × IsCreated c a (appraise_and_create json env user b c db r))
  appraise_and_create-outcome c (thrown e) = inl (e, refl, refl)
  appraise_and_create-outcome c (ok a) =
      inr (a, refl, (metadata_of b c.metadata, metadata_of-IsMetadata b c.metadata, refl))

  unless_registered-IsSettled :
      (c : CheckedBody A)
      → IsSettled c (
          unless_registered json appraise env user b c db
            (find (has_animal_id c.animal_id) db.livestock))
  unless_registered-IsSettled c =
      elim (Option-cases (find (has_animal_id c.animal_id) db.livestock)) [
        | inr (old, e) ↦ inl (old, e, rw e refl)
        | inl e ↦ inr (e, rw e (appraise_and_create-outcome c (appraise c.metadata)))
      ]

  -- A body that no checks accept is answered with the first field at fault, and changes nothing.
  abbrev pub IsRefused : Registered A → Type 0
  IsRefused out =
      ((c : CheckedBody A) → IsChecked b c → ⊥)
      × ((e : FieldError) × (out ≡ (bad_field e, db, none)))

  register_checked-outcome :
      (checked : FieldError ⊎ CheckedBody A)
      → checked ≡ checked_body b
      → IsRefused (register_checked json appraise env user b checked db)
        ⊎ ((c : CheckedBody A) × IsChecked b c
            × IsSettled c (register_checked json appraise env user b checked db))
  register_checked-outcome (inl e) same =
      inl ((λ c valid. absurd (differ e c (same ∙ IsChecked-checked_body b c valid))), (e, refl))
    where
      differ :
          (x : FieldError) (y : CheckedBody A)
          → ◌≡◌ {A = FieldError ⊎ CheckedBody A} (inl x) (inr y)
          → ⊥
      differ x y k = cc
  register_checked-outcome (inr c) same =
      inr (c, checked_body-IsChecked b c (sym same), unless_registered-IsSettled c)

  -- A registration has one of four outcomes. A body that does not pass the checks (a tag, a known
  -- type, a breed, a weight that is not 0 or less, an age that is not negative, a known health), is
  -- refused. Of one that passes: if a row has its tag, it is refused with that row's identifier; if
  -- the appraisal throws, it is refused; these three leave the tables and the chain alone. Otherwise
  -- one row is added at the end of the livestock table, with the new identifier, the user as owner,
  -- the metadata of the body, the collateral value of the appraisal and the status APPRAISED, it is
  -- answered with the appraisal, and the transaction for that row, tag, key and value starts.
  pub register_livestock-outcome :
      IsRefused (register_livestock json appraise env user b db)
      ⊎ ((c : CheckedBody A) × IsChecked b c
          × IsSettled c (register_livestock json appraise env user b db))
  unfolding register_livestock
  register_livestock-outcome = register_checked-outcome (checked_body b) refl
