-- ===== src/Wallet.antt =====
-- The wallet of the frontend: src/frontend/src/lib/wallet/types.ts and registry.ts. What an adapter
-- answers is an argument; `none` is a promise that rejects.
pub mod Manager
pub mod Sessions
pub mod Connection
use stellar_kraal_backend.Prelude.{
  or_default, ℕ, String, Bool, true, false, ◌||◌, Option, none, some, List, [], ◌∷◌, map,
}

pub data WalletId : Type 0 where
  freighter xbull lobstr wallet_connect : WalletId

pub data WalletState : Type 0 where
  disconnected connecting connected failed_state : WalletState

pub record WalletMetadata : Type 0 where
  pub id : WalletId
  pub name : String
  pub download_url : Option String
  pub is_installed : Bool
  pub is_available : Bool

pub record WalletSession : Type 0 where
  pub address : String
  pub wallet_id : WalletId
  pub connected_at : ℕ

pub data WalletError : Type 0 where
  not_installed : WalletId → WalletError
  session_expired detection_failed : WalletError
  -- What the adapter throws.
  adapter_error : (message : String) → WalletError

abbrev pub session_max_age : ℕ
session_max_age = 86400000

abbrev pub default_order : List WalletId
default_order = freighter ∷ xbull ∷ lobstr ∷ wallet_connect ∷ []

abbrev pub wallet_name : WalletId → String
wallet_name freighter = "Freighter"
wallet_name xbull = "xBull"
wallet_name lobstr = "LOBSTR"
wallet_name wallet_connect = "WalletConnect"

abbrev pub download_url_of : WalletId → Option String
download_url_of freighter = some "https://freighter.app"
download_url_of xbull = some "https://xbull.app"
download_url_of lobstr = some "https://lobstr.co"
download_url_of wallet_connect = none

abbrev pub is_wallet_connect : WalletId → Bool
is_wallet_connect wallet_connect = true
is_wallet_connect _ = false

-- A wallet that `detect` answers for, with `detected` its answers.
abbrev pub metadata_of_wallet : (WalletId → Option Bool) → WalletId → WalletMetadata
metadata_of_wallet detected id = record {
  id = id;
  name = wallet_name id;
  download_url = download_url_of id;
  is_installed = or_default (detected id) false;
  is_available = or_default (detected id) false || is_wallet_connect id;
}

unfoldable pub detect_wallets : (WalletId → Option Bool) → List WalletMetadata
detect_wallets detected = map (metadata_of_wallet detected) default_order
