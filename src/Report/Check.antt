-- ===== src/Report/Check.antt =====
-- internal/report/report.go: statuses and check results, with the details that
-- internal/evaluator/evaluator.go and matches.go attach to a result.
use otel_policy_lab.Prelude.{ℕ, List, Option, Text, Map, Bool, true, false, Eq, ◌≡◌, ◌↔◌, arith}

pub data Status : Type 0 where
  status_pass status_fail status_warn status_inconclusive status_error : Status

-- `==` on `Status`.
abbrev pub same_status : Status → Status → Bool
same_status status_pass status_pass = true
same_status status_fail status_fail = true
same_status status_warn status_warn = true
same_status status_inconclusive status_inconclusive = true
same_status status_error status_error = true
same_status _ _ = false

pub same_status_iff : (a b : Status) → (same_status a b ≡ true) ↔ (a ≡ b)
same_status_iff a b = ground arith

instance abbrev pub status_Eq : Eq Status
status_Eq = record { beq = same_status; beq_iff = same_status_iff }

-- The strings "logs", "traces", "metrics" and "pipeline" of a result's `Signal`.
pub data Signal : Type 0 where
  logs traces metrics pipeline : Signal

abbrev pub same_signal : Signal → Signal → Bool
same_signal logs logs = true
same_signal traces traces = true
same_signal metrics metrics = true
same_signal pipeline pipeline = true
same_signal _ _ = false

pub same_signal_iff : (a b : Signal) → (same_signal a b ≡ true) ↔ (a ≡ b)
same_signal_iff a b = ground arith

instance abbrev pub signal_Eq : Eq Signal
signal_Eq = record { beq = same_signal; beq_iff = same_signal_iff }

-- The strings of a result's `Check`.
pub data Check : Type 0 where
  forbidden_data : Check
  forbidden_labels : Check
  required_resource_attributes : Check
  preserve_error_traces : Check
  max_series_per_metric : Check
  runner_warning : Check
  runner_execution : Check

abbrev pub same_check : Check → Check → Bool
same_check forbidden_data forbidden_data = true
same_check forbidden_labels forbidden_labels = true
same_check required_resource_attributes required_resource_attributes = true
same_check preserve_error_traces preserve_error_traces = true
same_check max_series_per_metric max_series_per_metric = true
same_check runner_warning runner_warning = true
same_check runner_execution runner_execution = true
same_check _ _ = false

pub same_check_iff : (a b : Check) → (same_check a b ≡ true) ↔ (a ≡ b)
same_check_iff a b = ground arith

instance abbrev pub check_Eq : Eq Check
check_Eq = record { beq = same_check; beq_iff = same_check_iff }

-- The strings of a match's `Kind`.
pub data Kind : Type 0 where
  resource_key resource_value attribute_key attribute_value : Kind
  label_key label_value body span_name : Kind

-- `forbiddenMatch`: what matched, without the value that matched.
pub record ForbiddenMatch : Type 0 where
  pub kind : Kind
  pub key : Text
  pub pattern : Text
  pub value_length : ℕ
  pub index : ℕ
  pub metric : Text

-- An entry of `example_records`.
pub record Example : Type 0 where
  pub index : ℕ
  pub missing : List Text

-- The maps that the evaluator builds for `Details`, one constructor for each set of keys. The
-- float `percent` of a preservation check is the quotient of its two counts.
pub data Details : Type 0 where
  match_details : List ForbiddenMatch → Details
  preservation_details : (preserved total : ℕ) → Details
  series_details : (metric : Text) (unique_series_count datapoint_count limit : ℕ) → Details
  resource_details :
      (total_records : ℕ) (missing_counts : Map Text ℕ) (example_records : List Example) → Details

pub record CheckResult : Type 0 where
  pub status : Status
  pub signal : Signal
  pub check : Check
  pub message : Text
  pub details : Option Details
