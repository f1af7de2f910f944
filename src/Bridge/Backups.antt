-- ===== src/Bridge/Backups.antt =====
-- Backup and restore (oracle-bridge/src/backup.ts, restore.ts).
use stellar_kraal_backend.Prelude.{
  ◌==◌, or_default, Bool-cases, Option-cases, ℕ, ◌≡◌, refl, sym, ap, ◌∙◌, ◌≢◌, ◌↔◌, ◌⊎◌, inl, inr,
  true, Option, none, some, arith, eq_iff,
}
use stellar_kraal_backend.Bridge.{
  create_backup, BridgeRole, BridgeState, BackupManifest, BackupDir, ok, err, read_backup_file,
  chosen_backup, missing, restored, restored_from, accept_manifest, Result, restore_from_backup,
  manifest_of, write_backup, StateDir, BridgeError, no_backup, unsupported_version, missing_field,
  written,
}

same_number : (n : ℕ) → (n == n) ≡ true
same_number n = ground arith

-- A state whose required fields are filled, once backed up, is restored from `latest.json` and from
-- the timestamped file: every field but the role and the date of the write is what was backed up,
-- and the role is the one asked for, or else the one in the backup.
pub restore-create_backup :
    (now later : ℕ) (s : BridgeState) (backups : BackupDir) (as_role : Option BridgeRole)
    → missing s ≡ none
    → (m : BackupManifest) × (backups' : BackupDir) × (create_backup now (some s) backups
        ≡ ok (m, backups'))
      × (restore_from_backup later none as_role backups'
          ≡ ok (record s { role = or_default as_role s.role; updated_at = later }))
      × (restore_from_backup later (some now) as_role backups'
          ≡ ok (record s { role = or_default as_role s.role; updated_at = later }))
unfolding create_backup restore_from_backup read_backup_file
restore-create_backup now later s backups as_role full = (
  manifest_of now s,
  write_backup now (manifest_of now s) backups,
  refl,
  rw full,
  rw (same_number now) (rw full),
)

-- The two outcomes of a restore, with what they leave in the target directory.
pub restore_from_backup-cases :
    (now : ℕ) (from_file : Option ℕ) (as_role : Option BridgeRole) (backups : BackupDir)
    (dir : StateDir)
    → ((m : BackupManifest) × (chosen_backup from_file backups ≡ some m)
        × (m.format_version ≡ 1)
        × (missing m.state ≡ none)
        × (restore_from_backup now from_file as_role backups ≡ ok (restored now as_role m.state))
        × (written (restore_from_backup now from_file as_role backups) dir
            ≡ some (restored now as_role m.state)))
      ⊎ ((e : BridgeError) × (restore_from_backup now from_file as_role backups ≡ err e)
          × (written (restore_from_backup now from_file as_role backups) dir ≡ dir))
unfolding restore_from_backup
restore_from_backup-cases now from_file as_role backups dir =
    elim (Option-cases (chosen_backup from_file backups)) [
      | inl absent ↦ inr (no_backup, rw absent, rw absent)
      | inr (m, found) ↦ elim (Bool-cases (m.format_version == 1)) [
        | inl v1 ↦ elim (Option-cases (missing m.state)) [
          | inl full ↦
              inl (
                m,
                found,
                ground arith,
                full,
                rw found (rw v1 (rw full)),
                rw found (rw v1 (rw full)),
              )
          | inr (field, gap) ↦
              inr (missing_field field, rw found (rw v1 (rw gap)), rw found (rw v1 (rw gap)))
        ]
        | inr other ↦ inr (unsupported_version, rw (found, other), rw (found, other))
      ]
    ]

-- The fields without which a restore fails.
abbrev pub IsComplete : BridgeState → Type 0
IsComplete s =
    (s.contract_id ≢ "") × (s.network ≢ "") × (s.rpc_url ≢ "") × (s.signing_key_secret_ref ≢ "")

missing-IsComplete : (s : BridgeState) → missing s ≡ none → IsComplete s
unfolding missing
missing-IsComplete s h = (
  (λ e. ground (arith, eq_iff s.contract_id "")),
  (λ e. ground (arith, eq_iff s.network "")),
  (λ e. ground (arith, eq_iff s.rpc_url "")),
  (λ e. ground (arith, eq_iff s.signing_key_secret_ref "")),
)

IsComplete-missing : (s : BridgeState) → IsComplete s → missing s ≡ none
unfolding missing
IsComplete-missing s (a, b, c, d) = ground (
  arith,
  eq_iff s.contract_id "",
  eq_iff s.network "",
  eq_iff s.rpc_url "",
  eq_iff s.signing_key_secret_ref "",
)

-- The latest backup, or the one of a file that is named.
abbrev pub IsChosen : Option ℕ → BackupDir → BackupManifest → Type 0
IsChosen none backups m = backups.latest ≡ some m
IsChosen (some file) backups m = read_backup_file file backups.files ≡ some m

IsChosen-chosen_backup :
    (from_file : Option ℕ) (backups : BackupDir) (m : BackupManifest)
    → IsChosen from_file backups m
    → chosen_backup from_file backups ≡ some m
IsChosen-chosen_backup none backups m h = h
IsChosen-chosen_backup (some file) backups m h = h

chosen_backup-IsChosen :
    (from_file : Option ℕ) (backups : BackupDir) (m : BackupManifest)
    → chosen_backup from_file backups ≡ some m
    → IsChosen from_file backups m
chosen_backup-IsChosen none backups m h = h
chosen_backup-IsChosen (some file) backups m h = h

accept_manifest-eq-ok :
    (o : Option BackupManifest) (s : BridgeState)
    → accept_manifest o ≡ ok s
    → (m : BackupManifest) × (o ≡ some m)
      × (m.format_version ≡ 1)
      × (missing m.state ≡ none)
      × (m.state ≡ s)
unfolding accept_manifest
accept_manifest-eq-ok none s h = absurd (ground arith)
accept_manifest-eq-ok (some m) s h = elim (Bool-cases (m.format_version == 1)) [
  | inl v1 ↦ elim (Option-cases (missing m.state)) [
    | inl full ↦
        let same : ◌≡◌ {A = Result BridgeState} (ok m.state) (ok s) = (rw (v1, full) refl) ∙ h in
        (m, refl, ground arith, full, ground arith)
    | inr (field, gap) ↦ absurd (ground arith)
  ]
  | inr other ↦ absurd (ground arith)
]

restored_from-eq-ok :
    (now : ℕ) (as_role : Option BridgeRole) (r : Result BridgeState) (s : BridgeState)
    → restored_from now as_role r ≡ ok s
    → (t : BridgeState) × (r ≡ ok t) × (s ≡ restored now as_role t)
restored_from-eq-ok now as_role (ok t) s h = (t, refl, ground arith)
restored_from-eq-ok now as_role (err e) s h = absurd (ground arith)

-- A restore succeeds exactly with the backup that is chosen, the latest one or the one of the file
-- named, if it exists, has format version 1, and its contract, network, URL and key reference are
-- not empty; and exactly with that backup's state, written now, in the role that was asked for or
-- else its own.
pub restore-eq-ok :
    (now : ℕ) (from_file : Option ℕ) (as_role : Option BridgeRole) (backups : BackupDir)
    (s : BridgeState)
    → (restore_from_backup now from_file as_role backups ≡ ok s) ↔ (
        (m : BackupManifest) × IsChosen from_file backups m
        × (m.format_version ≡ 1)
        × IsComplete m.state
        × (s ≡ record m.state { role = or_default as_role m.state.role; updated_at = now }))
unfolding restore_from_backup accept_manifest
restore-eq-ok now from_file as_role backups s = (
  (λ h.
      let (t, accepted, same) = restored_from-eq-ok now as_role _ s h in
      let (m, found, v1, full, state) = accept_manifest-eq-ok _ t accepted in
      (
        m,
        chosen_backup-IsChosen from_file backups m found,
        v1,
        missing-IsComplete m.state full,
        same ∙ ap (restored now as_role) (sym state),
      )),
  (λ (m, chosen, v1, full, same).
      let v : (m.format_version == 1) ≡ true = ground arith in
      rw (IsChosen-chosen_backup from_file backups m chosen)
        (rw v (rw (IsComplete-missing m.state full) (ap ok (sym same))))),
)
