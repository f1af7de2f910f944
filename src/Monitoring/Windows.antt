-- ===== src/Monitoring/Windows.antt =====
-- The rules that keep a state: oracleDeviation.rule.ts and volumeSpike.rule.ts of
-- src/monitoring/rules.
use stellar_kraal_backend.Prelude.{
  ltb, leb, if◌then◌else◌, or_default, length, drop, Map, lookup, assign, ℕ, zero, suc, ◌+◌, String,
  Bool, ◌&&◌, Option, none, some, List, [], ◌∷◌, ◌++◌, map,
}
use stellar_kraal_backend.Number.{Arith, whole}
use stellar_kraal_backend.Monitoring.{
  NormalizedInvocation, MonitorConfig, mean, extract_largest_numeric_arg, warning, critical,
  Anomaly, WindowState, is_watched, joined, anomaly_of, name_or,
}

abbrev pub history_limit : ℕ
history_limit = 50

-- `samples.push(v)`, then `samples.shift()` if there are too many.
abbrev pub push_limited {ℓ} : {A : Type ℓ} → ℕ → A → List A → List A
push_limited limit v samples =
    let pushed = samples ++ v ∷ [] in if ltb limit (length pushed) then drop 1 pushed else pushed

abbrev pub new_window : ℕ → WindowState
new_window now = record { window_start = now; count = 0; history = [] }

-- The windows that have passed, one for each round; `none` means that the fuel ran out.
unfoldable pub roll_forward : ℕ → ℕ → ℕ → ℕ → WindowState → Option WindowState
roll_forward zero now window_ms baseline_windows s = none
roll_forward (suc fuel) now window_ms baseline_windows s =
    let rest = roll_forward fuel now window_ms baseline_windows (record {
      window_start = s.window_start + window_ms;
      count = 0;
      history = push_limited baseline_windows s.count s.history;
    }) in
    if leb (s.window_start + window_ms) now then rest else some s

module _ {A : Type 0} ⦃n : Arith A⦄ where
  open n use {hundredths, sub, mul, div, abs, lt, eq}

  abbrev pub deviation_from : A → A → A
  deviation_from baseline observed =
      if eq baseline (hundredths 0)
      then (if eq observed (hundredths 0) then hundredths 0 else whole 100)
      else mul (div (abs (sub observed baseline)) (abs baseline)) (whole 100)

  abbrev pub deviates : MonitorConfig A → A → List A → Bool
  deviates config observed samples =
      leb config.oracle_deviation_min_samples (length samples)
      && lt config.oracle_deviation_threshold_pct (deviation_from (mean samples) observed)

  abbrev pub compared :
      MonitorConfig A
      → NormalizedInvocation A
      → String
      → A
      → List A
      → Map (List A)
      → List Anomaly × Map (List A)
  compared config i key observed samples history = (
    (if deviates config observed samples
        then anomaly_of i "oracle-price-deviation" critical
            (joined "oracle-price-deviation" (key ∷ []))
          ∷ []
        else []),
    assign key (push_limited history_limit observed samples) history,
  )

  abbrev pub observe :
      MonitorConfig A
      → NormalizedInvocation A
      → Option A
      → Map (List A)
      → List Anomaly × Map (List A)
  observe config i none history = ([], history)
  observe config i (some observed) history =
      let key = joined i.contract_id (name_or "" i ∷ []) in
      compared config i key observed (or_default (lookup key history) []) history

  unfoldable pub oracle_deviation_rule :
      MonitorConfig A → NormalizedInvocation A → Map (List A) → List Anomaly × Map (List A)
  unfolding extract_largest_numeric_arg joined lookup assign mean
  oracle_deviation_rule config i history =
      if i.successful && is_watched config.oracle_price_functions i.function_name
      then observe config i (extract_largest_numeric_arg i.args) history
      else ([], history)

  abbrev pub spikes : MonitorConfig A → WindowState → Bool
  spikes config s =
      let baseline = mean (map whole s.history) in
      ltb 0 (length s.history)
      && leb config.volume_spike_min_count s.count
      && lt (hundredths 0) baseline
      && lt (mul baseline config.volume_spike_multiplier) (whole s.count)

  -- What follows the loop.
  abbrev pub counted :
      MonitorConfig A
      → NormalizedInvocation A
      → Option WindowState
      → Map WindowState
      → Option (List Anomaly × Map WindowState)
  counted config i none states = none
  counted config i (some s) states =
      let s' = record s { count = s.count + 1 } in
      some (
        (if spikes config s'
            then anomaly_of i "transaction-volume-spike" warning
                (joined "transaction-volume-spike" (i.contract_id ∷ []))
              ∷ []
            else []),
        assign i.contract_id s' states,
      )

  abbrev pub volume_at :
      MonitorConfig A
      → NormalizedInvocation A
      → Option ℕ
      → Map WindowState
      → Option (List Anomaly × Map WindowState)
  volume_at config i none states = some ([], states)
  volume_at config i (some now) states =
      counted config i
        (roll_forward (suc now) now config.volume_window_ms config.volume_baseline_windows
          (or_default (lookup i.contract_id states) (new_window now)))
        states

  -- `none` means that the loop does not end.
  unfoldable pub volume_spike_rule :
      MonitorConfig A
      → NormalizedInvocation A
      → Map WindowState
      → Option (List Anomaly × Map WindowState)
  unfolding roll_forward joined lookup assign mean
  volume_spike_rule config i states = volume_at config i i.occurred_at states
