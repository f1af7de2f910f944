-- ===== src/Bridge.antt =====
-- The oracle bridge (oracle-bridge/src): its state file, backups, restore, promotion, and the loops
-- of index.ts as steps of a process. A JSON file is the value it holds; a state directory is the
-- content of its `state.json`; a backup directory is `latest.json` and the timestamped files, by
-- their time. Dates are milliseconds and prices hundredths.
pub mod Backups
pub mod Roles
pub mod Submission
use stellar_kraal_backend.Prelude.{
  ◌==◌, if◌then◌else◌, or_default, is_some, ℕ, ◌+◌, String, Bool, true, false, Option, none, some,
  List, [], ◌∷◌, str_eq,
}

pub data BridgeRole : Type 0 where
  primary standby : BridgeRole

pub record BridgeConfig : Type 0 where
  pub role : BridgeRole
  pub contract_id : String
  pub network : String
  pub rpc_url : String
  pub signing_key_secret_ref : String

pub record BridgeState : Type 0 where
  pub role : BridgeRole
  pub contract_id : String
  pub network : String
  pub rpc_url : String
  pub signing_key_secret_ref : String
  pub last_submitted_price : Option ℕ
  pub last_submitted_at : Option ℕ
  pub last_processed_ledger : ℕ
  pub updated_at : ℕ

pub record BackupManifest : Type 0 where
  pub format_version : ℕ
  pub created_at : ℕ
  pub state : BridgeState

abbrev pub StateDir : Type 0
StateDir = Option BridgeState

pub record BackupDir : Type 0 where
  pub latest : Option BackupManifest
  pub files : List (ℕ × BackupManifest)

-- What is thrown.
pub data BridgeError : Type 0 where
  no_state no_backup unsupported_version secret_unavailable : BridgeError
  missing_field : String → BridgeError

pub data Result {ℓ} (A : Type ℓ) : Type ℓ where
  ok : A → Result A
  err : BridgeError → Result A

abbrev pub is_primary : BridgeRole → Bool
is_primary primary = true
is_primary standby = false

-- state.ts

unfoldable pub default_state : ℕ → BridgeConfig → BridgeState
default_state now config = record {
  role = config.role;
  contract_id = config.contract_id;
  network = config.network;
  rpc_url = config.rpc_url;
  signing_key_secret_ref = config.signing_key_secret_ref;
  last_submitted_price = none;
  last_submitted_at = none;
  last_processed_ledger = 0;
  updated_at = now;
}

-- `saveState`: what it returns and, as `some` of it, what the directory then holds.
abbrev pub saved : ℕ → BridgeState → BridgeState
saved now s = record s { updated_at = now }

unfoldable pub load_or_init_state : ℕ → BridgeConfig → StateDir → BridgeState
unfolding default_state
load_or_init_state now config dir = or_default dir (default_state now config)

-- backup.ts

abbrev pub backup_format_version : ℕ
backup_format_version = 1

abbrev pub manifest_of : ℕ → BridgeState → BackupManifest
manifest_of now s = record { format_version = backup_format_version; created_at = now; state = s }

abbrev pub write_backup : ℕ → BackupManifest → BackupDir → BackupDir
write_backup now m dir = record { latest = some m; files = (now, m) ∷ dir.files }

unfoldable pub create_backup : ℕ → StateDir → BackupDir → Result (BackupManifest × BackupDir)
create_backup now none dir = err no_state
create_backup now (some s) dir = ok (manifest_of now s, write_backup now (manifest_of now s) dir)

unfoldable pub read_backup_file : ℕ → List (ℕ × BackupManifest) → Option BackupManifest
read_backup_file file [] = none
read_backup_file file ((f, m) ∷ rest) = if f == file then some m else read_backup_file file rest

-- restore.ts

abbrev pub chosen_backup : Option ℕ → BackupDir → Option BackupManifest
chosen_backup none dir = dir.latest
chosen_backup (some file) dir = read_backup_file file dir.files

-- The first required field that is empty.
unfoldable pub missing : BridgeState → Option String
missing s =
    if str_eq s.contract_id ""
    then some "contractId"
    else if str_eq s.network ""
    then some "network"
    else if str_eq s.rpc_url ""
    then some "rpcUrl"
    else if str_eq s.signing_key_secret_ref ""
    then some "signingKeySecretRef"
    else none

abbrev pub checked_fields : BridgeState → Option String → Result BridgeState
checked_fields s none = ok s
checked_fields s (some field) = err (missing_field field)

unfoldable pub accept_manifest : Option BackupManifest → Result BridgeState
unfolding missing
accept_manifest none = err no_backup
accept_manifest (some m) =
    if m.format_version == 1
    then checked_fields m.state (missing m.state)
    else err unsupported_version

abbrev pub restored : ℕ → Option BridgeRole → BridgeState → BridgeState
restored now as_role s = saved now (record s { role = or_default as_role s.role })

-- The state that is returned and written to the target directory; an error writes nothing.
abbrev pub restored_from : ℕ → Option BridgeRole → Result BridgeState → Result BridgeState
restored_from now as_role (err e) = err e
restored_from now as_role (ok s) = ok (restored now as_role s)

unfoldable pub restore_from_backup :
    ℕ → Option ℕ → Option BridgeRole → BackupDir → Result BridgeState
unfolding accept_manifest
restore_from_backup now from_file as_role dir =
    restored_from now as_role (accept_manifest (chosen_backup from_file dir))

-- What a call leaves in the target directory: its result, or what was there.
abbrev pub written : Result BridgeState → StateDir → StateDir
written (ok s) dir = some s
written (err e) dir = dir

-- promote.ts. The result, and the state directory after the call: the restore has written to it
-- before the secret is resolved.
abbrev pub promote_restored :
    ℕ → (String → Option String) → Result BridgeState → StateDir → Result BridgeState × StateDir
promote_restored now resolve_secret (err e) dir = (err e, dir)
promote_restored now resolve_secret (ok s) dir =
    if is_some (resolve_secret s.signing_key_secret_ref)
    then (
      ok (saved now (record s { role = primary })),
      some (saved now (record s { role = primary })),
    )
    else (err secret_unavailable, some s)

unfoldable pub promote :
    ℕ → (String → Option String) → BackupDir → StateDir → Result BridgeState × StateDir
unfolding restore_from_backup
promote now resolve_secret backups dir =
    promote_restored now resolve_secret (restore_from_backup now none none backups) dir

-- index.ts. The mode is the set of timers that run: submission and backup, or sync.

pub record Bridge : Type 0 where
  pub state : BridgeState
  pub mode : BridgeRole
  pub dir : StateDir
  pub last_backup_at : Option ℕ

abbrev pub backed_up :
    ℕ → Bridge → Result (BackupManifest × BackupDir) → BackupDir → Bridge × BackupDir
backed_up now b (ok (m, backups')) backups = (record b { last_backup_at = some now }, backups')
backed_up now b (err e) backups = (b, backups)

-- One tick of the backup timer, also taken when the primary loops start.
unfoldable pub backup_tick : ℕ → Bridge → BackupDir → Bridge × BackupDir
unfolding create_backup
backup_tick now b backups = backed_up now b (create_backup now b.dir backups) backups

unfoldable pub start : ℕ → BridgeConfig → StateDir → BackupDir → Bridge × BackupDir
unfolding load_or_init_state backup_tick
start now config dir backups =
    let s = load_or_init_state now config dir in
    let b : Bridge = record {
      state = s;
      mode = s.role;
      dir = some (saved now s);
      last_backup_at = none;
    } in
    if is_primary s.role then backup_tick now b backups else (b, backups)

unfoldable pub switch_to_primary : ℕ → BridgeConfig → Bridge → BackupDir → Bridge × BackupDir
unfolding load_or_init_state backup_tick
switch_to_primary now config b backups =
    backup_tick now (record b { state = load_or_init_state now config b.dir; mode = primary })
      backups

abbrev pub role_on_disk : StateDir → Option BridgeRole
role_on_disk none = none
role_on_disk (some s) = some s.role

abbrev pub synced : ℕ → BridgeConfig → Result BridgeState → Bridge → Bridge
synced now config (err e) b = b
synced now config (ok s) b = record b { state = s; dir = some s }

abbrev pub sync : ℕ → BridgeConfig → Option BridgeRole → Bridge → BackupDir → Bridge × BackupDir
sync now config (some primary) b backups = switch_to_primary now config b backups
sync now config _ b backups =
    (synced now config (restore_from_backup now none (some standby) backups) b, backups)

-- One tick of a standby's sync timer.
unfoldable pub standby_tick : ℕ → BridgeConfig → Bridge → BackupDir → Bridge × BackupDir
unfolding switch_to_primary restore_from_backup
standby_tick now config b backups = sync now config (role_on_disk b.dir) b backups

abbrev pub submitted : ℕ → Bridge → Option ℕ → Bridge
submitted now b none = b
submitted now b (some price) =
    let s = record b.state {
      last_submitted_price = some price;
      last_submitted_at = some now;
      last_processed_ledger = b.state.last_processed_ledger + 1;
    } in
    record b { state = s; dir = some (saved now s) }

-- One tick of the submission timer. The outcome of resolving the key and submitting is the argument
-- `submit_price`, given the key; `none` where either throws.
abbrev pub submit_with : (String → Option ℕ) → Option String → Option ℕ
submit_with submit_price none = none
submit_with submit_price (some secret) = submit_price secret

unfoldable pub submit_tick : ℕ → (String → Option String) → (String → Option ℕ) → Bridge → Bridge
submit_tick now resolve_secret submit_price b =
    submitted now b (submit_with submit_price (resolve_secret b.state.signing_key_secret_ref))
