-- ===== src/Livestock/Upkeep.antt =====
-- `getMyKraal`, `getLivestockById` and `updateLivestock`.
use stellar_kraal_backend.Prelude.{
  if◌then◌else◌, take, filter, find, update, Map, assign, String, Bool, true, false, ◌&&◌, ◌||◌,
  Option, none, some, List, map, str_eq,
}
use stellar_kraal_backend.Database.{
  Database, Livestock, Loan, Role, VerificationStatus, admin, appraised, verified, is_admin,
  has_livestock_id, is_active,
}
use stellar_kraal_backend.Auth.Login.{TokenPayload}
use stellar_kraal_backend.Livestock.{
  JsonText, Json, text, UpdateResponse, not_found, forbidden, updated, UpdateBody,
}
use mathlib.Core.List.{reverse}

-- The status of a row as `getMyKraal` selects it.
abbrev pub is_collateral : VerificationStatus → Bool
is_collateral verified = true
is_collateral appraised = true
is_collateral _ = false

abbrev pub new_status : Role → Option VerificationStatus → VerificationStatus → VerificationStatus
new_status admin (some status) old = status
new_status _ _ old = old

module _ {A : Type 0} where
  abbrev pub active_loans_on : List (Loan A) → Livestock A → Livestock A × List (Loan A)
  active_loans_on ls row =
      (row, filter (λ l. str_eq l.livestock_id row.id && is_active l.status) ls)

  unfoldable pub get_my_kraal : String → Bool → Database A → List (Livestock A × List (Loan A))
  get_my_kraal user show_all db = map (active_loans_on db.loans) (
      reverse (
        filter (λ l. str_eq l.owner_id user && (show_all || is_collateral l.verification_status))
          db.livestock))

  abbrev pub loans_on : String → List (Loan A) → List (Loan A)
  loans_on id ls = take 5 (reverse (filter (λ l. str_eq l.livestock_id id) ls))

  abbrev pub with_loans :
      Option (Livestock A) → List (Loan A) → Option (Livestock A × List (Loan A))
  with_loans none ls = none
  with_loans (some row) ls = some (row, loans_on row.id ls)

  -- The row with its last five loans; `none` is the 404.
  unfoldable pub get_livestock_by_id : String → Database A → Option (Livestock A × List (Loan A))
  get_livestock_by_id id db = with_loans (find (has_livestock_id id) db.livestock) db.loans

  abbrev pub present_text : String → Option String → Map (Json A) → Map (Json A)
  present_text key none fields = fields
  present_text key (some s) fields = assign key (text s) fields

  abbrev pub edited : JsonText A → TokenPayload → UpdateBody → Livestock A → Livestock A
  edited json user b l = record l {
    metadata = json.stringify (
        present_text "location" b.location
          (present_text "imageUrl" b.image_url (json.parse_object l.metadata)));
    verification_status = new_status user.role b.verification_status l.verification_status;
  }

  abbrev pub may_update : TokenPayload → Livestock A → Bool
  may_update user l = is_admin user.role || str_eq l.owner_id user.sub

  abbrev pub update_found :
      JsonText A
      → TokenPayload
      → String
      → UpdateBody
      → Option (Livestock A)
      → Database A
      → UpdateResponse A × Database A
  update_found json user id b none db = (not_found, db)
  update_found json user id b (some l) db =
      if may_update user l
      then (
        updated (edited json user b l),
        record db { livestock = update (has_livestock_id id) (edited json user b) db.livestock },
      )
      else (forbidden, db)

  unfoldable pub update_livestock :
      JsonText A → TokenPayload → String → UpdateBody → Database A → UpdateResponse A × Database A
  update_livestock json user id b db =
      update_found json user id b (find (has_livestock_id id) db.livestock) db
