-- ===== src/Tests/Monitoring.antt =====
-- Alerts, samples and windows of the anomaly rules.
use stellar_kraal_backend.Prelude.{
  All, contains, lookup, remove, assign, ℕ, ◌+◌, ◌<◌, String, ◌≡◌, refl, ◌⊎◌, true, Option, none,
  some, List, [], ◌∷◌, map,
}
use stellar_kraal_backend.Number.Cents.{cents}
use stellar_kraal_backend.Monitoring.{
  Anomaly, NormalizedInvocation, MonitorConfig, WindowState, number, array, opaque, end, value,
  critical,
}
use stellar_kraal_backend.Monitoring.Alerts.{dispatch, handle_invocation, Monitor, should_alert}
use stellar_kraal_backend.Monitoring.Cooldown.{Spaced, Sent, dispatch-deduplicates}

abbrev anomaly : String → Anomaly
anomaly key = record {
  rule_id = "rule";
  severity = critical;
  contract_id = "C";
  tx_hash = "tx";
  ledger = 1;
  function_name = none;
  source_account = "GA";
  dedup_key = key;
  occurred_at = none;
}

abbrev calls : List (ℕ × Anomaly)
calls = (10, anomaly "a") ∷ (15, anomaly "a") ∷ (16, anomaly "b") ∷ (20, anomaly "a") ∷ []

dispatch_test :
    (dispatch 10 calls []).0 ≡ (10, anomaly "a") ∷ (16, anomaly "b") ∷ (20, anomaly "a") ∷ []
unfolding dispatch should_alert lookup assign remove
dispatch_test = refl

dispatch-deduplicates_example :
    let sent = (dispatch 10 calls []).0 in
    Spaced 10 sent
    × All
        (λ call. (t : ℕ) × Sent call.1.dedup_key t sent × ((call.0 < t + 10) ⊎ (call.0 ≡ t)))
        calls
dispatch-deduplicates_example = dispatch-deduplicates 10 calls

abbrev samples : List ℕ
samples = 1 ∷ 2 ∷ 3 ∷ 4 ∷ []

abbrev first_window : WindowState
first_window = record { window_start = 100; count = 7; history = [] }

-- A retirement of 500 units by an account that is not on the list, above the threshold of 100.
abbrev config : MonitorConfig ℕ
config = record {
  large_value_functions = "retire" ∷ [];
  large_value_threshold = 10000;
  oracle_price_functions = "set_price" ∷ [];
  oracle_deviation_min_samples = 3;
  oracle_deviation_threshold_pct = 2000;
  privileged_functions = "retire" ∷ [];
  allowed_invoker_accounts = "GOOD" ∷ [];
  volume_window_ms = 60000;
  volume_baseline_windows = 10;
  volume_spike_multiplier = 300;
  volume_spike_min_count = 10;
}

abbrev invocation : NormalizedInvocation ℕ
invocation = record {
  contract_id = "C";
  tx_hash = "tx";
  ledger = 9;
  occurred_at = some 5000;
  source_account = "BAD";
  function_name = some "retire";
  args = value (array (value opaque (value (number 50000) end))) end;
  successful = true;
}

abbrev fresh_monitor : Monitor ℕ
fresh_monitor = record { deviations = []; windows = []; last_alerted_at = [] }

abbrev sent_rules : Option (List (ℕ × Anomaly) × Monitor ℕ) → List String
sent_rules none = []
sent_rules (some (sent, m)) = map (λ a. a.1.rule_id) sent

handle_test :
    sent_rules (handle_invocation config 900 6000 invocation fresh_monitor)
    ≡ "large-value-invocation" ∷ "unauthorized-entry-point" ∷ []
unfolding handle_invocation contains
handle_test = refl
