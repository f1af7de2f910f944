-- ===== src/Tests/Bridge.antt =====
-- A bridge that submits, backs up and fails over.
use stellar_kraal_backend.Prelude.{
  if◌then◌else◌, ◌≤◌, String, ◌≡◌, refl, ◌↔◌, Option, none, some, List, [], ◌∷◌, str_eq,
}
use stellar_kraal_backend.Bridge.{
  BridgeState, primary, standby, BridgeConfig, BackupManifest, BackupDir, secret_unavailable, ok,
  err, manifest_of, create_backup, missing, accept_manifest, restore_from_backup, promote, Bridge,
  backup_tick, standby_tick, submit_tick,
}
use stellar_kraal_backend.Bridge.Backups.{
  restore-create_backup, restore-eq-ok, IsComplete, IsChosen,
}
use stellar_kraal_backend.Bridge.Roles.{
  standby_ticks-IsStandby, IsStandby, standby_ticks, promote-without_key,
}
use stellar_kraal_backend.Bridge.Submission.{
  Tick, submission, backup, run_tick, run_ticks, failover_resumes,
}

abbrev config : BridgeConfig
config = record {
  role = standby;
  contract_id = "C";
  network = "testnet";
  rpc_url = "http://rpc";
  signing_key_secret_ref = "KEY";
}

abbrev state : BridgeState
state = record {
  role = primary;
  contract_id = "C";
  network = "testnet";
  rpc_url = "http://rpc";
  signing_key_secret_ref = "KEY";
  last_submitted_price = some 900;
  last_submitted_at = some 40;
  last_processed_ledger = 7;
  updated_at = 41;
}

abbrev backups : BackupDir
backups = record { latest = some (manifest_of 50 state); files = (50, manifest_of 50 state) ∷ [] }

abbrev no_backups : BackupDir
no_backups = record { latest = none; files = [] }

abbrev idle : Bridge
idle = record {
  state = record state { role = standby };
  mode = standby;
  dir = some (record state { role = standby });
  last_backup_at = none;
}

abbrev leader : Bridge
leader = record { state = state; mode = primary; dir = some state; last_backup_at = none }

abbrev keys : String → Option String
keys ref = if str_eq ref "KEY" then some "secret" else none

abbrev no_keys : String → Option String
no_keys ref = none

abbrev restored_again : BridgeState
restored_again = record state { role = standby; updated_at = 70 }

restore-create_backup_example :
    (m : BackupManifest) × (backups' : BackupDir) × (create_backup 60 (some state) no_backups
      ≡ ok (m, backups'))
    × (restore_from_backup 70 none (some standby) backups' ≡ ok restored_again)
    × (restore_from_backup 70 (some 60) (some standby) backups' ≡ ok restored_again)
unfolding missing
restore-create_backup_example = restore-create_backup 60 70 state no_backups (some standby) refl

restore-eq-ok_example :
    (restore_from_backup 70 none (some standby) backups
      ≡ ok (record state { role = standby; updated_at = 70 }))
    ↔ ((m : BackupManifest) × IsChosen none backups m
        × (m.format_version ≡ 1)
        × IsComplete m.state
        × (◌≡◌ {A = BridgeState}
            (record state { role = standby; updated_at = 70 })
            (record m.state { role = standby; updated_at = 70 })))
restore-eq-ok_example =
    restore-eq-ok 70 none (some standby) backups (record state { role = standby; updated_at = 70 })

idle-IsStandby : IsStandby idle
idle-IsStandby = (refl, cc)

standby_ticks-IsStandby_example :
    IsStandby (standby_ticks config ((60, backups) ∷ (61, no_backups) ∷ []) idle)
standby_ticks-IsStandby_example =
    standby_ticks-IsStandby config ((60, backups) ∷ (61, no_backups) ∷ []) idle idle-IsStandby

abbrev promoted : BridgeState
promoted = record state { role = primary; updated_at = 70 }

promote_test : promote 70 keys backups none ≡ (ok promoted, some promoted)
unfolding promote restore_from_backup accept_manifest missing
promote_test = refl

promote-without_key_example :
    let (result, dir') = promote 70 no_keys backups idle.dir in
    (result ≡ err secret_unavailable)
    × ((standby_tick 80 config (record idle { dir = dir' }) backups).0.mode ≡ primary)
unfolding missing
promote-without_key_example =
    promote-without_key 70 80 config no_keys backups idle (manifest_of 50 state) refl refl refl refl
      refl

-- A submission that fails, one that succeeds and a backup.
abbrev ticks : List Tick
ticks = submission 51 keys (λ key. none) ∷ submission 52 keys (λ key. some 950) ∷ backup 53 ∷ []

ticks_test : (run_ticks ticks (leader, no_backups)).0.state.last_processed_ledger ≡ 8
unfolding run_ticks run_tick submit_tick backup_tick create_backup
ticks_test = refl

failover_resumes_example :
    let (b', backups') = run_ticks ticks (leader, no_backups) in
    let (_, backups'') = backup_tick 60 b' backups' in
    (s : BridgeState) × (promote 70 keys backups'' none ≡ (ok s, some s))
    × (s.role ≡ primary)
    × (s.last_processed_ledger ≡ b'.state.last_processed_ledger)
    × (7 ≤ s.last_processed_ledger)
    × (s.last_submitted_price ≡ b'.state.last_submitted_price)
unfolding missing
failover_resumes_example =
    failover_resumes ticks leader no_backups 60 70 keys "secret" none (41, refl) refl refl
