-- ===== src/Bridge/Roles.antt =====
-- Who is primary: the sync loop of oracle-bridge/src/index.ts and promote.ts.
use stellar_kraal_backend.Prelude.{
  Option-cases, ℕ, String, ◌≡◌, refl, sym, ap, ◌∙◌, ◌≢◌, inl, inr, Option, none, some, List, [],
  ◌∷◌,
}
use stellar_kraal_backend.Bridge.{
  BridgeRole, primary, standby, BridgeConfig, BridgeState, BackupDir, Result, ok, err, restored,
  restore_from_backup, Bridge, role_on_disk, synced, sync, standby_tick, BackupManifest, StateDir,
  secret_unavailable, manifest_of, write_backup, missing, promote, BridgeError,
}
use stellar_kraal_backend.Bridge.Backups.{restore_from_backup-cases}

-- A standby whose directory does not say primary.
abbrev pub IsStandby : Bridge → Type 0
IsStandby b = (b.mode ≡ standby) × (role_on_disk b.dir ≢ some primary)

standby-ne-primary : some standby ≢ some primary
standby-ne-primary = cc

restored-standby :
    (now : ℕ) (backups : BackupDir) (s : BridgeState)
    → restore_from_backup now none (some standby) backups ≡ ok s
    → s.role ≡ standby
restored-standby now backups s e =
    elim (restore_from_backup-cases now none (some standby) backups none) [
      | inl (m, _, _, _, found, _) ↦
          role_of (restored now (some standby) m.state) s (sym found ∙ e) refl
      | inr (x, failed, _) ↦ cc
    ]
  where
    role_of : (r t : BridgeState) → ok r ≡ ok t → r.role ≡ standby → t.role ≡ standby
    role_of r t same h = cc

synced-IsStandby :
    (now : ℕ) (config : BridgeConfig) (backups : BackupDir) (b : Bridge) (r : Result BridgeState)
    → restore_from_backup now none (some standby) backups ≡ r
    → IsStandby b
    → IsStandby (synced now config r b)
synced-IsStandby now config backups b (err e) h keep = keep
synced-IsStandby now config backups b (ok s) h (mode, _) =
    (mode, rw (restored-standby now backups s h) (λ e. cc))

sync-IsStandby :
    (now : ℕ) (config : BridgeConfig) (o : Option BridgeRole) (b : Bridge) (backups : BackupDir)
    → o ≢ some primary
    → IsStandby b
    → IsStandby (sync now config o b backups).0 × ((sync now config o b backups).1 ≡ backups)
sync-IsStandby now config none b backups ne keep =
    (synced-IsStandby now config backups b _ refl keep, refl)
sync-IsStandby now config (some primary) b backups ne keep = absurd (ne refl)
sync-IsStandby now config (some standby) b backups ne keep =
    (synced-IsStandby now config backups b _ refl keep, refl)

-- The ticks of the sync timer, each with the time and the shared backup directory of that moment.
unfoldable pub standby_ticks : BridgeConfig → List (ℕ × BackupDir) → Bridge → Bridge
unfolding standby_tick
standby_ticks config [] b = b
standby_ticks config ((now, backups) ∷ rest) b =
    standby_ticks config rest (standby_tick now config b backups).0

-- A standby never becomes primary by itself: after any number of ticks, whatever the backups, it
-- runs as standby, and its directory does not say primary. A backup names its writer as primary;
-- the sync does not take that over.
pub standby_ticks-IsStandby :
    (config : BridgeConfig) (ticks : List (ℕ × BackupDir)) (b : Bridge)
    → IsStandby b
    → IsStandby (standby_ticks config ticks b)
unfolding standby_ticks standby_tick
standby_ticks-IsStandby config [] b h = h
standby_ticks-IsStandby config ((now, backups) ∷ rest) b h =
    standby_ticks-IsStandby config rest (standby_tick now config b backups).0
      (sync-IsStandby now config (role_on_disk b.dir) b backups h.1 h).0

-- The next tick of a standby whose directory says primary runs it as primary on that state.
tick-primary :
    (now : ℕ) (config : BridgeConfig) (b : Bridge) (backups : BackupDir) (s : BridgeState)
    → b.dir ≡ some s
    → s.role ≡ primary
    → let (b', backups') = standby_tick now config b backups in
      (b'.mode ≡ primary)
      × (b'.state ≡ s)
      × (b'.dir ≡ some s)
      × (backups' ≡ write_backup now (manifest_of now s) backups)
unfolding standby_tick
tick-primary now config b backups s d p = rw d (rw p (refl, refl, refl, refl))

ok-injective : (r t : BridgeState) → ok r ≡ ok t → r ≡ t
ok-injective r t h = cc

promote-eq-ok :
    (now : ℕ) (resolve_secret : String → Option String) (backups : BackupDir) (dir dir' : StateDir)
    (s : BridgeState)
    → promote now resolve_secret backups dir ≡ (ok s, dir')
    → (m : BackupManifest) × (backups.latest ≡ some m)
      × (s ≡ record m.state { role = primary; updated_at = now })
      × (dir' ≡ some s)
unfolding promote
promote-eq-ok now resolve_secret backups dir dir' s e =
    elim (restore_from_backup-cases now none none backups dir) [
      | inl (m, found, _, _, done, _) ↦
          let e' = rw done at e in
          elim (Option-cases (resolve_secret m.state.signing_key_secret_ref)) [
            | inl absent ↦ absurd (failed (ap (λ t. t.0) (rw absent at e')))
            | inr (key, k) ↦
                let e'' = rw k at e' in
                let same = ok-injective _ s (ap (λ t. t.0) e'') in
                (m, found, sym same, sym (ap (λ t. t.1) e'') ∙ ap some same)
          ]
      | inr (x, bad, _) ↦ absurd (failed (ap (λ t. t.0) (rw bad at e)))
    ]
  where
    failed : {x : BridgeError} → err x ≡ ok s → ⊥
    failed h = cc

-- After a promotion that succeeds, the directory holds the state that was returned, which is that
-- of the latest backup with the role primary; and at its next tick the instance runs as primary on
-- that state and backs it up, so that the latest backup is its own.
pub promote-takes_over :
    (now later : ℕ) (config : BridgeConfig) (resolve_secret : String → Option String)
    (backups : BackupDir) (b : Bridge) (dir' : StateDir) (s : BridgeState)
    → promote now resolve_secret backups b.dir ≡ (ok s, dir')
    → (m : BackupManifest) × (backups.latest ≡ some m)
      × (s ≡ record m.state { role = primary; updated_at = now })
      × (dir' ≡ some s)
      × (let (b', backups') = standby_tick later config (record b { dir = dir' }) backups in
          (b'.mode ≡ primary) × (b'.state ≡ s) × (backups'.latest ≡ some (manifest_of later s)))
promote-takes_over now later config resolve_secret backups b dir' s e =
    let (m, found, same, held) = promote-eq-ok now resolve_secret backups b.dir dir' s e in
    let b' : Bridge = record b { dir = dir' } in
    let (mode, state, _, written_to) =
      tick-primary later config b' backups s held (ap (λ t. t.role) same) in
    (m, found, same, held, (mode, state, ap (λ d. d.latest) written_to))

-- A promotion that fails only because the signing key cannot be resolved is not undone: the restore
-- before it has already written the role of the backup's writer, a primary, to the directory, and
-- the standby's next tick runs it as primary.
pub promote-without_key :
    (now later : ℕ) (config : BridgeConfig) (resolve_secret : String → Option String)
    (backups : BackupDir) (b : Bridge) (m : BackupManifest)
    → backups.latest ≡ some m
    → m.format_version ≡ 1
    → missing m.state ≡ none
    → m.state.role ≡ primary
    → resolve_secret m.state.signing_key_secret_ref ≡ none
    → let (result, dir') = promote now resolve_secret backups b.dir in
      (result ≡ err secret_unavailable)
      × ((standby_tick later config (record b { dir = dir' }) backups).0.mode ≡ primary)
unfolding promote standby_tick
promote-without_key now later config resolve_secret backups b m l v full p key =
    rw l (rw v (rw full (rw key (refl, rw p))))
