-- ===== src/Bridge/Submission.antt =====
-- The submission and backup loops of a primary (oracle-bridge/src/index.ts), and failover.
use stellar_kraal_backend.Prelude.{
  ℕ, ◌≤◌, String, ◌≡◌, refl, ap, ◌∙◌, Option, none, some, List, [], ◌∷◌, arith,
}
use stellar_kraal_backend.Bridge.{
  BackupDir, saved, Bridge, backup_tick, submitted, submit_tick, manifest_of, create_backup,
  missing, primary, BridgeState, StateDir, ok, accept_manifest, restore_from_backup, promote, sync,
}

-- The state on disk is the state in memory, up to the date of the write.
abbrev pub InSync : Bridge → Type 0
InSync b = (t : ℕ) × (b.dir ≡ some (saved t b.state))

-- The timers of a primary: submissions, each with the outcome of the key and of the call, and
-- backups.
pub data Tick : Type 0 where
  submission : ℕ → (String → Option String) → (String → Option ℕ) → Tick
  backup : ℕ → Tick

unfoldable pub run_tick : Tick → Bridge × BackupDir → Bridge × BackupDir
unfolding submit_tick backup_tick
run_tick (submission now resolve_secret submit_price) (b, backups) =
    (submit_tick now resolve_secret submit_price b, backups)
run_tick (backup now) (b, backups) = backup_tick now b backups

unfoldable pub run_ticks : List Tick → Bridge × BackupDir → Bridge × BackupDir
unfolding run_tick
run_ticks [] s = s
run_ticks (t ∷ ts) s = run_ticks ts (run_tick t s)

-- What the timers keep of a primary's state, from `b` to `b'`.
abbrev pub Continues : Bridge → Bridge → Type 0
Continues b b' =
    (b.state.last_processed_ledger ≤ b'.state.last_processed_ledger)
    × (b'.state.signing_key_secret_ref ≡ b.state.signing_key_secret_ref)
    × (missing b'.state ≡ missing b.state)

Continues-trans : (a b c : Bridge) → Continues a b → Continues b c → Continues a c
Continues-trans a b c (l, k, m) (l', k', m') = (omega arith, k' ∙ k, m' ∙ m)

submitted-InSync :
    (now : ℕ) (b : Bridge) (o : Option ℕ)
    → InSync b
    → InSync (submitted now b o) × Continues b (submitted now b o)
unfolding missing
submitted-InSync now b none h = (h, (omega arith, refl, refl))
submitted-InSync now b (some price) h = ((now, refl), (omega arith, refl, refl))

backup_tick-InSync :
    (now : ℕ) (b : Bridge) (backups : BackupDir)
    → InSync b
    → let (b', backups') = backup_tick now b backups in
      InSync b'
      × Continues b b'
      × ((t : ℕ) × (backups'.latest ≡ some (manifest_of now (saved t b.state))))
unfolding backup_tick create_backup
backup_tick-InSync now b backups (t, h) = rw h ((t, refl), (omega arith, refl, refl), (t, refl))

run_tick-InSync :
    (t : Tick) (b : Bridge) (backups : BackupDir)
    → InSync b
    → let (b', _) = run_tick t (b, backups) in InSync b' × Continues b b'
unfolding run_tick submit_tick
run_tick-InSync (submission now resolve_secret submit_price) b backups h =
    submitted-InSync now b _ h
run_tick-InSync (backup now) b backups h =
    let (kept, continues, _) = backup_tick-InSync now b backups h in (kept, continues)

-- However its submission and backup timers interleave, and whichever submissions fail, the state
-- file of a primary that was in step with its memory stays in step, and the ledger number never
-- goes back.
pub run_ticks-InSync :
    (ts : List Tick) (b : Bridge) (backups : BackupDir)
    → InSync b
    → let (b', _) = run_ticks ts (b, backups) in InSync b' × Continues b b'
unfolding run_ticks
run_ticks-InSync [] b backups h = (h, (omega arith, refl, refl))
run_ticks-InSync (t ∷ ts) b backups h =
    let (kept, first) = run_tick-InSync t b backups h in
    let (b', backups') = run_tick t (b, backups) in
    let (kept', rest) = run_ticks-InSync ts b' backups' kept in
    (kept', Continues-trans b b' (run_ticks ts (b', backups')).0 first rest)

missing-saved : (t : ℕ) (s : BridgeState) → missing (saved t s) ≡ missing s
unfolding missing
missing-saved t s = refl

promote_latest :
    (now at : ℕ) (resolve_secret : String → Option String) (backups : BackupDir) (dir : StateDir)
    (s : BridgeState) (key : String)
    → backups.latest ≡ some (manifest_of at s)
    → missing s ≡ none
    → resolve_secret s.signing_key_secret_ref ≡ some key
    → promote now resolve_secret backups dir ≡ (
      ok (saved now (record s { role = primary })),
      some (saved now (record s { role = primary })),
    )
unfolding promote restore_from_backup accept_manifest
promote_latest now at resolve_secret backups dir s key l full k = rw l (rw full (rw k refl))

-- Failover loses no progress that was backed up: when a primary in step with its state file, with
-- no required field empty, has run any timers and then backed up, a promotion on another machine
-- that can resolve the same signing key succeeds, whatever its directory held, and resumes as
-- primary at the ledger number and the last price of the failed primary.
pub failover_resumes :
    (ts : List Tick) (b : Bridge) (backups : BackupDir) (now later : ℕ)
    (resolve_secret : String → Option String) (key : String) (dir : StateDir)
    → InSync b
    → missing b.state ≡ none
    → resolve_secret b.state.signing_key_secret_ref ≡ some key
    → let (b', backups') = run_ticks ts (b, backups) in
      let (_, backups'') = backup_tick now b' backups' in
      (s : BridgeState) × (promote later resolve_secret backups'' dir ≡ (ok s, some s))
      × (s.role ≡ primary)
      × (s.last_processed_ledger ≡ b'.state.last_processed_ledger)
      × (b.state.last_processed_ledger ≤ s.last_processed_ledger)
      × (s.last_submitted_price ≡ b'.state.last_submitted_price)
failover_resumes ts b backups now later resolve_secret key dir sync full k =
    let (b', backups') = run_ticks ts (b, backups) in
    let (kept, (ledger, ref, same)) = run_ticks-InSync ts b backups sync in
    let (_, _, (t, latest)) = backup_tick-InSync now b' backups' kept in
    let promoted =
      promote_latest later now resolve_secret (backup_tick now b' backups').1 dir (saved t b'.state)
        key latest (missing-saved t b'.state ∙ same ∙ full) (ap resolve_secret ref ∙ k) in
    (_, promoted, refl, refl, ledger, refl)
