-- ===== src/Lifecycle.antt =====
-- The handlers that write the livestock and loan tables, over one database: registration and the
-- end of its transaction, the edit of a row, an event of the chain, and a bulk retirement
-- (src/controllers/livestock.controller.ts, src/services/soroban.service.ts,
-- src/controllers/retirements.controller.ts). A history is a list of actions, in any order.
pub mod Tables
pub mod Handlers
pub mod Verification
pub mod Lending
use stellar_kraal_backend.Prelude.{
  ℕ, String, Bool, false, ◌&&◌, ◌||◌, Option, none, some, List, [], ◌∷◌, str_eq,
}
use stellar_kraal_backend.Number.{Arith}
use stellar_kraal_backend.Database.{
  Database, Environment, VerificationStatus, is_verified, is_admin,
}
use stellar_kraal_backend.Appraisal.{LivestockMetadata, Appraised}
use stellar_kraal_backend.Auth.Login.{TokenPayload}
use stellar_kraal_backend.Livestock.{JsonText, RegisterBody, UpdateBody}
use stellar_kraal_backend.Livestock.Registration.{register_livestock, mint_settled}
use stellar_kraal_backend.Livestock.Upkeep.{update_livestock}
use stellar_kraal_backend.Indexer.{SorobanEvent, Topic, absent, undecodable, named, process_event}
use stellar_kraal_backend.Retirement.{Submission}
use stellar_kraal_backend.Retirement.Handler.{LoanIds, Limits, bulk_retire_loans}

pub data Action (A W : Type 0) : Type 0 where
  registers : Environment → TokenPayload → RegisterBody A → Action A W
  mint_ends : (livestock_id : String) → Option String → Action A W
  edits : TokenPayload → String → UpdateBody → Action A W
  indexes : Environment → SorobanEvent A → Action A W
  retires : ℕ → String → LoanIds → W → Action A W

abbrev pub asks_verified : Option VerificationStatus → Bool
asks_verified none = false
asks_verified (some status) = is_verified status

abbrev pub is_liquidation : Topic → Bool
is_liquidation absent = false
is_liquidation undecodable = false
is_liquidation (named name) = str_eq name "AssetLiquidated"

-- The actions that may mark a livestock as verified: the success of its transaction, an
-- administrator, or a liquidation.
unfoldable pub vouches : {A W : Type 0} → String → Action A W → Bool
vouches id (registers env user b) = false
vouches id (mint_ends j none) = false
vouches id (mint_ends j (some tx_hash)) = str_eq j id
vouches id (edits user j b) =
    is_admin user.role && asks_verified b.verification_status && str_eq j id
vouches id (indexes env event) = is_liquidation event.topic
vouches id (retires now user ids w) = false

unfoldable pub any_vouches : {A W : Type 0} → String → List (Action A W) → Bool
unfolding vouches
any_vouches id [] = false
any_vouches id (a ∷ rest) = vouches id a || any_vouches id rest

module _ {A W : Type 0} ⦃n : Arith A⦄ (json : JsonText A)
    (appraise : LivestockMetadata A → Appraised A) (submit : List String → W → Submission × W)
    (limits : Limits) where
  unfoldable pub perform : Action A W → Database A → Database A
  unfolding register_livestock mint_settled update_livestock process_event bulk_retire_loans
  perform (registers env user b) db = (register_livestock json appraise env user b db).1
  perform (mint_ends id outcome) db = mint_settled id outcome db
  perform (edits user id b) db = (update_livestock json user id b db).1
  perform (indexes env event) db = process_event env event db
  perform (retires now user ids w) db = (bulk_retire_loans submit limits now user ids db w).1

  unfoldable pub run : List (Action A W) → Database A → Database A
  unfolding perform
  run [] db = db
  run (a ∷ rest) db = run rest (perform a db)
