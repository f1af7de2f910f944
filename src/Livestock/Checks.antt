-- ===== src/Livestock/Checks.antt =====
-- What the checks of the body of `registerLivestock` accept, and the metadata that it stores.
use stellar_kraal_backend.Prelude.{
  Bool-cases, Option-cases, Map, lookup, assign, String, ◌≡◌, refl, sym, ap, ◌∙◌, subst, ◌≢◌, ◌⊎◌,
  inl, inr, false, Option, none, some, arith, str_eq, eq_iff,
}
use stellar_kraal_backend.Number.{Arith, whole}
use stellar_kraal_backend.Appraisal.{
  LivestockMetadata, AnimalType, HealthStatus, cattle, goat, sheep, pig, donkey, excellent, good,
  fair, poor,
}
use stellar_kraal_backend.Auth.Login.{non_empty}
use stellar_kraal_backend.Livestock.{
  Json, text, number, type_name, health_name, ◌>>=◌, RegisterBody, CheckedBody, FieldError,
  animal_type, health_status_of, option_then, or_error,
}
use stellar_kraal_backend.Livestock.Registration.{checked_body, metadata_of, positive, not_negative}

-- The texts of a body that name a type or a state of health.
abbrev pub NamesType : String → AnimalType → Type 0
NamesType s cattle = s ≡ "CATTLE"
NamesType s goat = s ≡ "GOAT"
NamesType s sheep = s ≡ "SHEEP"
NamesType s pig = s ≡ "PIG"
NamesType s donkey = s ≡ "DONKEY"

abbrev pub NamesHealth : String → HealthStatus → Type 0
NamesHealth s excellent = s ≡ "EXCELLENT"
NamesHealth s good = s ≡ "GOOD"
NamesHealth s fair = s ≡ "FAIR"
NamesHealth s poor = s ≡ "POOR"

animal_type-NamesType : (s : String) (t : AnimalType) → animal_type s ≡ some t → NamesType s t
unfolding animal_type
animal_type-NamesType s cattle h = ground (arith, eq_iff s "CATTLE")
animal_type-NamesType s goat h = ground (arith, eq_iff s "GOAT")
animal_type-NamesType s sheep h = ground (arith, eq_iff s "SHEEP")
animal_type-NamesType s pig h = ground (arith, eq_iff s "PIG")
animal_type-NamesType s donkey h = ground (arith, eq_iff s "DONKEY")

NamesType-animal_type : (s : String) (t : AnimalType) → NamesType s t → animal_type s ≡ some t
unfolding animal_type
NamesType-animal_type s cattle h = rw h refl
NamesType-animal_type s goat h = rw h refl
NamesType-animal_type s sheep h = rw h refl
NamesType-animal_type s pig h = rw h refl
NamesType-animal_type s donkey h = rw h refl

health_status_of-NamesHealth :
    (s : String) (t : HealthStatus) → health_status_of s ≡ some t → NamesHealth s t
unfolding health_status_of
health_status_of-NamesHealth s excellent h = ground (arith, eq_iff s "EXCELLENT")
health_status_of-NamesHealth s good h = ground (arith, eq_iff s "GOOD")
health_status_of-NamesHealth s fair h = ground (arith, eq_iff s "FAIR")
health_status_of-NamesHealth s poor h = ground (arith, eq_iff s "POOR")

NamesHealth-health_status_of :
    (s : String) (t : HealthStatus) → NamesHealth s t → health_status_of s ≡ some t
unfolding health_status_of
NamesHealth-health_status_of s excellent h = rw h refl
NamesHealth-health_status_of s good h = rw h refl
NamesHealth-health_status_of s fair h = rw h refl
NamesHealth-health_status_of s poor h = rw h refl

abbrev pub IsFilled : Option String → String → Type 0
IsFilled o s = (o ≡ some s) × (s ≢ "")

IsFilled-non_empty : (o : Option String) (s : String) → IsFilled o s → non_empty o ≡ some s
IsFilled-non_empty o s (e, full) =
    let f : str_eq s "" ≡ false = ground (arith, eq_iff s "") in rw e (rw f refl)

non_empty-IsFilled : (o : Option String) (s : String) → non_empty o ≡ some s → IsFilled o s
non_empty-IsFilled none s h = absurd (ground arith)
non_empty-IsFilled (some x) s h = elim (Bool-cases (str_eq x "")) [
  | inl e ↦ absurd (ground arith)
  | inr e ↦
      let same : x ≡ s = ground arith in
      (ap some same, λ empty. absurd (ground (arith, eq_iff x "")))
]

bind-eq-inr :
    {A B : Type 0} (e : FieldError) (o : Option A) (f : A → FieldError ⊎ B) (b : B)
    → (or_error e o >>= f) ≡ inr b
    → (a : A) × (o ≡ some a) × (f a ≡ inr b)
bind-eq-inr e none f b h = absurd (ground arith)
bind-eq-inr e (some a) f b h = (a, refl, h)

option_then-eq-some :
    {A B : Type 0} (o : Option A) (f : A → Option B) (b : B)
    → option_then o f ≡ some b
    → (a : A) × (o ≡ some a) × (f a ≡ some b)
option_then-eq-some none f b h = absurd (ground arith)
option_then-eq-some (some a) f b h = (a, refl, h)

type-IsFilled :
    (o : Option String) (t : AnimalType)
    → option_then (non_empty o) animal_type ≡ some t
    → (s : String) × IsFilled o s × NamesType s t
type-IsFilled o t h =
    let (s, full, names) = option_then-eq-some (non_empty o) animal_type t h in
    (s, non_empty-IsFilled o s full, animal_type-NamesType s t names)

health-IsFilled :
    (o : Option String) (t : HealthStatus)
    → option_then (non_empty o) health_status_of ≡ some t
    → (s : String) × IsFilled o s × NamesHealth s t
health-IsFilled o t h =
    let (s, full, names) = option_then-eq-some (non_empty o) health_status_of t h in
    (s, non_empty-IsFilled o s full, health_status_of-NamesHealth s t names)

module _ {A : Type 0} ⦃n : Arith A⦄ where
  open n use {lt, le}

  weight_positive :
      (o : Option A) (a : A)
      → option_then o positive ≡ some a
      → (o ≡ some a) × (le a (whole 0) ≡ false)
  weight_positive none a h = absurd (ground arith)
  weight_positive (some x) a h = elim (Bool-cases (le x (whole 0))) [
    | inl e ↦ absurd (ground arith)
    | inr e ↦
        let same : x ≡ a = ground arith in (ap some same, ap (λ y. le y (whole 0)) (sym same) ∙ e)
  ]

  age_natural :
      (o : Option A) (a : A)
      → option_then o not_negative ≡ some a
      → (o ≡ some a) × (lt a (whole 0) ≡ false)
  age_natural none a h = absurd (ground arith)
  age_natural (some x) a h = elim (Bool-cases (lt x (whole 0))) [
    | inl e ↦ absurd (ground arith)
    | inr e ↦
        let same : x ≡ a = ground arith in (ap some same, ap (λ y. lt y (whole 0)) (sym same) ∙ e)
  ]

  -- The checks that a body passes, and what they make of it.
  abbrev pub IsChecked : RegisterBody A → CheckedBody A → Type 0
  IsChecked b c =
      IsFilled b.animal_id c.animal_id
      × ((t : String) × IsFilled b.type t × NamesType t c.metadata.type)
      × IsFilled b.breed c.metadata.breed
      × ((b.weight_kg ≡ some c.metadata.weight_kg) × (le c.metadata.weight_kg (whole 0) ≡ false))
      × ((b.age_months ≡ some c.metadata.age_months) × (lt c.metadata.age_months (whole 0) ≡ false))
      × ((h : String) × IsFilled b.health_status h × NamesHealth h c.metadata.health_status)

  pub IsChecked-checked_body :
      (b : RegisterBody A) (c : CheckedBody A) → IsChecked b c → checked_body b ≡ inr c
  unfolding checked_body
  IsChecked-checked_body b c
        (id, (t, type, names), breed, (w, heavy), (m, old), (h, health, state)) =
      rw (IsFilled-non_empty b.animal_id c.animal_id id) (
        rw (IsFilled-non_empty b.type t type) (
          rw (NamesType-animal_type t c.metadata.type names) (
            rw (IsFilled-non_empty b.breed c.metadata.breed breed) (
              rw w (
                rw heavy (
                  rw m (
                    rw old (
                      rw (IsFilled-non_empty b.health_status h health) (
                        rw (NamesHealth-health_status_of h c.metadata.health_status state)
                          refl)))))))))

  pub checked_body-IsChecked :
      (b : RegisterBody A) (c : CheckedBody A) → checked_body b ≡ inr c → IsChecked b c
  unfolding checked_body
  checked_body-IsChecked b c e =
      let (id, of_id, e1) = bind-eq-inr _ _ _ c e in
      let (t, of_type, e2) = bind-eq-inr _ _ _ c e1 in
      let (breed, of_breed, e3) = bind-eq-inr _ _ _ c e2 in
      let (w, of_weight, e4) = bind-eq-inr _ _ _ c e3 in
      let (m, of_age, e5) = bind-eq-inr _ _ _ c e4 in
      let (h, of_health, e6) = bind-eq-inr _ _ _ c e5 in
      subst (IsChecked b) (inr-injective _ c e6) (
        non_empty-IsFilled b.animal_id id of_id,
        type-IsFilled b.type t of_type,
        non_empty-IsFilled b.breed breed of_breed,
        weight_positive b.weight_kg w of_weight,
        age_natural b.age_months m of_age,
        health-IsFilled b.health_status h of_health,
      )
    where
      inr-injective :
          (x y : CheckedBody A) → ◌≡◌ {A = FieldError ⊎ CheckedBody A} (inr x) (inr y) → x ≡ y
      inr-injective x y k = cc

  abbrev pub text_of : Option String → Option (Json A)
  text_of none = none
  text_of (some s) = some (text s)

  -- The metadata object, field by field; no link or place is stored where it is empty.
  abbrev pub IsMetadata : RegisterBody A → LivestockMetadata A → Map (Json A) → Type 0
  IsMetadata b m fields =
      (lookup "type" fields ≡ some (text (type_name m.type)))
      × (lookup "breed" fields ≡ some (text m.breed))
      × (lookup "weightKg" fields ≡ some (number m.weight_kg))
      × (lookup "ageMonths" fields ≡ some (number m.age_months))
      × (lookup "healthStatus" fields ≡ some (text (health_name m.health_status)))
      × (lookup "location" fields ≡ text_of (non_empty b.location))
      × (lookup "imageUrl" fields ≡ text_of (non_empty b.image_url))

  pub metadata_of-IsMetadata :
      (b : RegisterBody A) (m : LivestockMetadata A) → IsMetadata b m (metadata_of b m)
  unfolding metadata_of lookup assign
  metadata_of-IsMetadata b m = elim (Option-cases (non_empty b.location)) [
    | inl e ↦ elim (Option-cases (non_empty b.image_url)) [
      | inl k ↦ rw e (rw k (refl, refl, refl, refl, refl, refl, refl))
      | inr (x, k) ↦ rw e (rw k (refl, refl, refl, refl, refl, refl, refl))
    ]
    | inr (s, e) ↦ elim (Option-cases (non_empty b.image_url)) [
      | inl k ↦ rw e (rw k (refl, refl, refl, refl, refl, refl, refl))
      | inr (x, k) ↦ rw e (rw k (refl, refl, refl, refl, refl, refl, refl))
    ]
  ]
