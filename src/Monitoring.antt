-- ===== src/Monitoring.antt =====
-- src/monitoring: the anomaly rules (rules/*.rule.ts and rules/common.ts), and the deduplication and
-- dispatch of alerts (alerting/dedup.ts, alerting/dispatcher.ts). The texts of an anomaly that are
-- only displayed (observed value, threshold, message) are left out. Numbers are finite ones of
-- `Number`; a timestamp is its milliseconds, or `none` where it is no date.
pub mod Windows
pub mod Alerts
pub mod Cooldown
pub mod Baseline
use stellar_kraal_backend.Prelude.{
  ltb, if◌then◌else◌, or_default, length, contains, append, ℕ, String, Bool, false, not, ◌&&◌,
  Option, none, some, List, [], ◌∷◌, str_eq,
}
use stellar_kraal_backend.Number.{Arith, whole}

-- A decoded argument: a `bigint`, a `number`, an array, an object by its values, or anything else.
mutual
  pub data Value (A : Type 0) : Type 0 where
    bigint number : A → Value A
    array object : Values A → Value A
    opaque : Value A

  pub data Values (A : Type 0) : Type 0 where
    end : Values A
    value : Value A → Values A → Values A

pub record NormalizedInvocation (A : Type 0) : Type 0 where
  pub contract_id : String
  pub tx_hash : String
  pub ledger : ℕ
  pub occurred_at : Option ℕ
  pub source_account : String
  pub function_name : Option String
  pub args : Values A
  pub successful : Bool

pub data AnomalySeverity : Type 0 where
  warning critical : AnomalySeverity

pub record Anomaly : Type 0 where
  pub rule_id : String
  pub severity : AnomalySeverity
  pub contract_id : String
  pub tx_hash : String
  pub ledger : ℕ
  pub function_name : Option String
  pub source_account : String
  pub dedup_key : String
  pub occurred_at : Option ℕ

pub record MonitorConfig (A : Type 0) : Type 0 where
  pub large_value_functions : List String
  pub large_value_threshold : A
  pub oracle_price_functions : List String
  pub oracle_deviation_min_samples : ℕ
  pub oracle_deviation_threshold_pct : A
  pub privileged_functions : List String
  pub allowed_invoker_accounts : List String
  pub volume_window_ms : ℕ
  pub volume_baseline_windows : ℕ
  pub volume_spike_multiplier : A
  pub volume_spike_min_count : ℕ

pub record WindowState : Type 0 where
  pub window_start : ℕ
  pub count : ℕ
  pub history : List ℕ

-- A decoded, non-empty function name that is in the list.
abbrev pub is_watched : List String → Option String → Bool
is_watched functions none = false
is_watched functions (some name) = not (str_eq name "") && contains name functions

-- Texts joined by colons.
unfoldable pub joined : String → List String → String
unfolding append
joined s [] = s
joined s (t ∷ ts) = append s (append ":" (joined t ts))

module _ {A : Type 0} ⦃n : Arith A⦄ where
  open n use {hundredths, add, sub, mul, div, abs, lt, eq}

  -- The candidate replaces the maximum if its magnitude is larger.
  abbrev pub consider : A → Option A → Option A
  consider candidate none = some candidate
  consider candidate (some m) = if lt (abs m) (abs candidate) then some candidate else some m

  unfoldable mutual
    pub visit : Value A → Option A → Option A
    visit (bigint a) m = consider (div a (whole 10000000)) m
    visit (number a) m = consider a m
    visit (array vs) m = visit_all vs m
    visit (object vs) m = visit_all vs m
    visit opaque m = m

    pub visit_all : Values A → Option A → Option A
    visit_all end m = m
    visit_all (value v vs) m = visit_all vs (visit v m)

  unfoldable pub extract_largest_numeric_arg : Values A → Option A
  unfolding visit_all
  extract_largest_numeric_arg args = visit_all args none

  unfoldable pub sum_from : A → List A → A
  sum_from s [] = s
  sum_from s (v ∷ vs) = sum_from (add s v) vs

  unfoldable pub mean : List A → A
  unfolding sum_from
  mean [] = hundredths 0
  mean (v ∷ vs) = div (sum_from (hundredths 0) (v ∷ vs)) (whole (length (v ∷ vs)))

  abbrev pub anomaly_of : NormalizedInvocation A → String → AnomalySeverity → String → Anomaly
  anomaly_of i rule severity dedup_key = record {
    rule_id = rule;
    severity = severity;
    contract_id = i.contract_id;
    tx_hash = i.tx_hash;
    ledger = i.ledger;
    function_name = i.function_name;
    source_account = i.source_account;
    dedup_key = dedup_key;
    occurred_at = i.occurred_at;
  }

  abbrev pub name_or : String → NormalizedInvocation A → String
  name_or default i = or_default i.function_name default

  -- largeValue.rule.ts

  abbrev pub exceeds : MonitorConfig A → Option A → Bool
  exceeds config none = false
  exceeds config (some observed) = lt config.large_value_threshold (abs observed)

  unfoldable pub large_value_rule : MonitorConfig A → NormalizedInvocation A → List Anomaly
  unfolding extract_largest_numeric_arg joined
  large_value_rule config i =
      if i.successful
        && is_watched config.large_value_functions i.function_name
        && exceeds config (extract_largest_numeric_arg i.args)
      then anomaly_of i "large-value-invocation" critical
          (joined "large-value-invocation" (i.contract_id ∷ name_or "" i ∷ i.source_account ∷ []))
        ∷ []
      else []

  -- unauthorizedEntryPoint.rule.ts

  unfoldable pub unauthorized_entry_point_rule :
      MonitorConfig A → NormalizedInvocation A → List Anomaly
  unfolding joined
  unauthorized_entry_point_rule config i =
      if not i.successful
      then anomaly_of i "unauthorized-entry-point" critical (
          joined "unauthorized-entry-point"
            ("failed" ∷ i.contract_id ∷ name_or "unknown" i ∷ i.source_account ∷ []))
        ∷ []
      else if is_watched config.privileged_functions i.function_name
          && ltb 0 (length config.allowed_invoker_accounts)
          && not (contains i.source_account config.allowed_invoker_accounts)
      then anomaly_of i "unauthorized-entry-point" critical (
          joined "unauthorized-entry-point"
            ("unauthorized" ∷ i.contract_id ∷ name_or "" i ∷ i.source_account ∷ []))
        ∷ []
      else []
