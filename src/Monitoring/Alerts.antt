-- ===== src/Monitoring/Alerts.antt =====
-- src/monitoring/alerting: the deduplication of alerts, and the dispatcher.
use stellar_kraal_backend.Prelude.{
  ltb, if◌then◌else◌, Map, lookup, assign, ℕ, ◌+◌, String, Bool, true, false, Option, none, some,
  List, [], ◌∷◌, ◌++◌, map,
}
use stellar_kraal_backend.Number.{Arith}
use stellar_kraal_backend.Monitoring.{
  NormalizedInvocation, MonitorConfig, Anomaly, WindowState, large_value_rule,
  unauthorized_entry_point_rule,
}
use stellar_kraal_backend.Monitoring.Windows.{oracle_deviation_rule, volume_spike_rule, spikes}

-- An alert for the key less than the cooldown ago.
abbrev pub cooling : ℕ → ℕ → Option ℕ → Bool
cooling cooldown now none = false
cooling cooldown now (some last) = ltb now (last + cooldown)

unfoldable pub should_alert : ℕ → String → ℕ → Map ℕ → Bool × Map ℕ
unfolding lookup assign
should_alert cooldown key now last_alerted_at =
    if cooling cooldown now (lookup key last_alerted_at)
    then (false, last_alerted_at)
    else (true, assign key now last_alerted_at)

-- The loop over anomalies: those that are sent, each at its own time.
unfoldable pub dispatch : ℕ → List (ℕ × Anomaly) → Map ℕ → List (ℕ × Anomaly) × Map ℕ
unfolding should_alert
dispatch cooldown [] m = ([], m)
dispatch cooldown ((now, a) ∷ rest) m =
    let (alert, m') = should_alert cooldown a.dedup_key now m in
    let (sent, m'') = dispatch cooldown rest m' in (if alert then (now, a) ∷ sent else sent, m'')

pub record Monitor (A : Type 0) : Type 0 where
  pub deviations : Map (List A)
  pub windows : Map WindowState
  pub last_alerted_at : Map ℕ

module _ {A : Type 0} ⦃n : Arith A⦄ where
  abbrev pub dispatched :
      ℕ
      → ℕ
      → List Anomaly
      → Map (List A)
      → Option (List Anomaly × Map WindowState)
      → Map ℕ
      → Option (List (ℕ × Anomaly) × Monitor A)
  dispatched cooldown now first history none m = none
  dispatched cooldown now first history (some (spikes, windows)) m =
      let (sent, m') = dispatch cooldown (map (λ a. (now, a)) (first ++ spikes)) m in
      some (sent, record { deviations = history; windows = windows; last_alerted_at = m' })

  -- One invocation through the default rules, in their order, at one time. `none` means that a loop
  -- does not end.
  unfoldable pub handle_invocation :
      MonitorConfig A
      → ℕ
      → ℕ
      → NormalizedInvocation A
      → Monitor A
      → Option (List (ℕ × Anomaly) × Monitor A)
  unfolding dispatch large_value_rule oracle_deviation_rule unauthorized_entry_point_rule
      volume_spike_rule
  handle_invocation config cooldown now i s =
      let (deviating, history) = oracle_deviation_rule config i s.deviations in
      dispatched cooldown now
        (large_value_rule config i ++ deviating ++ unauthorized_entry_point_rule config i) history
        (volume_spike_rule config i s.windows) s.last_alerted_at
