-- ===== src/Livestock.antt =====
-- src/controllers/livestock.controller.ts. A field of a body that is absent, or not of its type, is
-- `none`. The metadata column is JSON text; `JSON.stringify`, and `JSON.parse` of an object (whose
-- fields the spread copies), are the argument `json`. The requests of one handler do not interleave
-- between its look-ups and its write; the chain call that `registerLivestock` leaves running ends in
-- a step of its own, `mint_settled`. Rows are in the order of their creation.
pub mod Registration
pub mod Checks
pub mod Outcome
pub mod Upkeep
use stellar_kraal_backend.Prelude.{
  if◌then◌else◌, Map, String, ◌⊎◌, inl, inr, Option, none, some, str_eq,
}
use stellar_kraal_backend.Database.{Livestock, VerificationStatus}
use stellar_kraal_backend.Appraisal.{
  AnimalType, LivestockMetadata, cattle, goat, sheep, pig, donkey, HealthStatus, excellent, good,
  fair, poor, AppraisalResult, AppraisalError,
}

-- A value of a metadata object.
pub data Json (A : Type 0) : Type 0 where
  text : String → Json A
  number : A → Json A

pub record JsonText (A : Type 0) : Type 0 where
  pub stringify : Map (Json A) → String
  pub parse_object : String → Map (Json A)

pub record RegisterBody (A : Type 0) : Type 0 where
  pub animal_id : Option String
  pub type : Option String
  pub breed : Option String
  pub weight_kg : Option A
  pub age_months : Option A
  pub health_status : Option String
  pub image_url : Option String
  pub location : Option String

pub data FieldError : Type 0 where
  animal_id_required type_invalid breed_required : FieldError
  weight_not_positive_number age_not_natural health_invalid : FieldError

unfoldable pub animal_type : String → Option AnimalType
animal_type s =
    if str_eq s "CATTLE"
    then some cattle
    else if str_eq s "GOAT"
    then some goat
    else if str_eq s "SHEEP"
    then some sheep
    else if str_eq s "PIG"
    then some pig
    else if str_eq s "DONKEY"
    then some donkey
    else none

unfoldable pub health_status_of : String → Option HealthStatus
health_status_of s =
    if str_eq s "EXCELLENT"
    then some excellent
    else if str_eq s "GOOD"
    then some good
    else if str_eq s "FAIR"
    then some fair
    else if str_eq s "POOR"
    then some poor
    else none

-- The transaction that a registration leaves running.
pub record Mint (A : Type 0) : Type 0 where
  pub livestock_id : String
  pub animal_id : String
  pub owner_public_key : String
  pub appraised_value : A

pub data RegisterResponse (A : Type 0) : Type 0 where
  bad_field : FieldError → RegisterResponse A
  already_registered : (livestock_id : String) → RegisterResponse A
  appraisal_failed : AppraisalError → RegisterResponse A
  registered : Livestock A → AppraisalResult A → RegisterResponse A

pub record CheckedBody (A : Type 0) : Type 0 where
  pub animal_id : String
  pub metadata : LivestockMetadata A

pub data UpdateResponse (A : Type 0) : Type 0 where
  not_found forbidden : UpdateResponse A
  updated : Livestock A → UpdateResponse A

pub record UpdateBody : Type 0 where
  pub image_url : Option String
  pub location : Option String
  pub verification_status : Option VerificationStatus

abbrev pub or_error {ℓ} : {A : Type ℓ} → FieldError → Option A → FieldError ⊎ A
or_error e none = inl e
or_error e (some a) = inr a

abbrev pub type_name : AnimalType → String
type_name cattle = "CATTLE"
type_name goat = "GOAT"
type_name sheep = "SHEEP"
type_name pig = "PIG"
type_name donkey = "DONKEY"

abbrev pub health_name : HealthStatus → String
health_name excellent = "EXCELLENT"
health_name good = "GOOD"
health_name fair = "FAIR"
health_name poor = "POOR"

infixl 5 ◌>>=◌
abbrev pub ◌>>=◌ {ℓ κ} :
    {A : Type ℓ} {B : Type κ} → FieldError ⊎ A → (A → FieldError ⊎ B) → FieldError ⊎ B
inl e >>= f = inl e
inr a >>= f = f a

abbrev pub option_then {ℓ κ} : {A : Type ℓ} {B : Type κ} → Option A → (A → Option B) → Option B
option_then none f = none
option_then (some a) f = f a
