-- ===== src/Livestock/Registration.antt =====
-- `registerLivestock`: the checks, the row, and the transaction that is left running.
use stellar_kraal_backend.Prelude.{
  if◌then◌else◌, find, update, Map, assign, String, ◌⊎◌, inl, inr, Option, none, some, [], ◌∷◌,
  ◌++◌,
}
use stellar_kraal_backend.Number.{Arith, whole}
use stellar_kraal_backend.Database.{
  Database, Livestock, Environment, appraised, verified, rejected, has_animal_id, has_livestock_id,
}
use stellar_kraal_backend.Appraisal.{LivestockMetadata, Appraised, AppraisalResult, ok, thrown}
use stellar_kraal_backend.Auth.Login.{TokenPayload, non_empty}
use stellar_kraal_backend.Livestock.{
  JsonText, RegisterBody, Json, text, number, FieldError, animal_id_required, type_invalid,
  breed_required, weight_not_positive_number, age_not_natural, health_invalid, animal_type,
  health_status_of, Mint, RegisterResponse, bad_field, already_registered, appraisal_failed,
  registered, CheckedBody, or_error, ◌>>=◌, type_name, health_name, option_then,
}

abbrev pub Registered : Type 0 → Type 0
Registered A = RegisterResponse A × Database A × Option (Mint A)

module _ {A : Type 0} ⦃n : Arith A⦄ where
  open n use {hundredths, lt, le}

  abbrev pub positive : A → Option A
  positive a = if le a (whole 0) then none else some a

  abbrev pub not_negative : A → Option A
  not_negative a = if lt a (whole 0) then none else some a

  -- The checks of the body, in order.
  unfoldable pub checked_body : RegisterBody A → FieldError ⊎ CheckedBody A
  unfolding animal_type health_status_of
  checked_body b = do
    id ← or_error animal_id_required (non_empty b.animal_id)
    t ← or_error type_invalid (option_then (non_empty b.type) animal_type)
    breed ← or_error breed_required (non_empty b.breed)
    w ← or_error weight_not_positive_number (option_then b.weight_kg positive)
    age ← or_error age_not_natural (option_then b.age_months not_negative)
    h ← or_error health_invalid (option_then (non_empty b.health_status) health_status_of)
    inr (record {
      animal_id = id;
      metadata = record {
        type = t;
        breed = breed;
        weight_kg = w;
        age_months = age;
        health_status = h;
      };
    })

  abbrev pub with_text : String → Option String → Map (Json A) → Map (Json A)
  with_text key none fields = fields
  with_text key (some s) fields = assign key (text s) fields

  -- The metadata object; an empty link or place is left out.
  unfoldable pub metadata_of : RegisterBody A → LivestockMetadata A → Map (Json A)
  metadata_of b m = with_text "location" (non_empty b.location) (
      with_text "imageUrl" (non_empty b.image_url) (
        assign "type" (text (type_name m.type)) (
          assign "breed" (text m.breed) (
            assign "weightKg" (number m.weight_kg) (
              assign "ageMonths" (number m.age_months)
                (assign "healthStatus" (text (health_name m.health_status)) []))))))

  -- The row that `livestock.create` makes.
  abbrev pub new_livestock :
      JsonText A
      → Environment
      → String
      → RegisterBody A
      → CheckedBody A
      → AppraisalResult A
      → Livestock A
  new_livestock json env owner b c r = record {
    id = env.cuid;
    animal_id = c.animal_id;
    owner_id = owner;
    metadata = json.stringify (metadata_of b c.metadata);
    appraised_value = some r.collateral_value;
    appraisal_tx_hash = none;
    verification_status = appraised;
  }

  abbrev pub mint_of : TokenPayload → Livestock A → AppraisalResult A → Mint A
  mint_of user row r = record {
    livestock_id = row.id;
    animal_id = row.animal_id;
    owner_public_key = user.public_key;
    appraised_value = r.collateral_value;
  }

  abbrev pub appraise_and_create :
      JsonText A
      → Environment
      → TokenPayload
      → RegisterBody A
      → CheckedBody A
      → Database A
      → Appraised A
      → Registered A
  appraise_and_create json env user b c db (thrown e) = (appraisal_failed e, db, none)
  appraise_and_create json env user b c db (ok r) =
      let row = new_livestock json env user.sub b c r in
      (
        registered row r,
        record db { livestock = db.livestock ++ row ∷ [] },
        some (mint_of user row r),
      )

  abbrev pub unless_registered :
      JsonText A
      → (LivestockMetadata A → Appraised A)
      → Environment
      → TokenPayload
      → RegisterBody A
      → CheckedBody A
      → Database A
      → Option (Livestock A)
      → Registered A
  unless_registered json appraise env user b c db (some existing) =
      (already_registered existing.id, db, none)
  unless_registered json appraise env user b c db none =
      appraise_and_create json env user b c db (appraise c.metadata)

  abbrev pub register_checked :
      JsonText A
      → (LivestockMetadata A → Appraised A)
      → Environment
      → TokenPayload
      → RegisterBody A
      → FieldError ⊎ CheckedBody A
      → Database A
      → Registered A
  register_checked json appraise env user b (inl e) db = (bad_field e, db, none)
  register_checked json appraise env user b (inr c) db =
      unless_registered json appraise env user b c db
        (find (has_animal_id c.animal_id) db.livestock)

  -- `appraise` is `appraiseLivestock` with its oracles and its threshold.
  unfoldable pub register_livestock :
      JsonText A
      → (LivestockMetadata A → Appraised A)
      → Environment
      → TokenPayload
      → RegisterBody A
      → Database A
      → Registered A
  unfolding checked_body metadata_of
  register_livestock json appraise env user b db =
      register_checked json appraise env user b (checked_body b) db

module _ {A : Type 0} where
  abbrev pub minted : Option String → Livestock A → Livestock A
  minted (some tx_hash) l = record l {
    verification_status = verified;
    appraisal_tx_hash = some tx_hash;
  }
  minted none l = record l { verification_status = rejected }

  -- The end of the transaction of a registration: its hash, or `none` for an error. Without the row
  -- the update throws, and the update in the `catch` does too and is caught.
  unfoldable pub mint_settled : String → Option String → Database A → Database A
  mint_settled id outcome db = record db {
    livestock = update (has_livestock_id id) (minted outcome) db.livestock;
  }
