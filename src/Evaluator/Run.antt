-- ===== src/Evaluator/Run.antt =====
-- internal/evaluator/evaluator.go: `EvaluateWithOptions`, which runs the checks and then weighs
-- them against the evidence that there is.
pub mod Reliable
use otel_policy_lab.Prelude.{
  ℕ, ◌+◌, List, [], ◌∷◌, ◌++◌, map, Bool, true, false, not, ◌&&◌, ◌||◌, Option, none, some, Text,
  codes, text_Eq, nat_Eq, Map, lookup, length, ltb, join, is_positive, magnitude, ◌==◌,
  if◌then◌else◌, Result, ok, err,
}
use otel_policy_lab.Telemetry.{Json, Set, Metric}
use otel_policy_lab.Policy.{
  LogsAssertions, TracesAssertions, MetricsAssertions, Policy, is_nonempty, canonical_preserve,
  normalize_preserve_expression,
}
use otel_policy_lab.Report.Check.{
  Signal, logs, traces, metrics, pipeline, signal_Eq, check_Eq, Check, forbidden_data,
  forbidden_labels, required_resource_attributes, preserve_error_traces, max_series_per_metric,
  runner_warning, runner_execution, Details, match_details, preservation_details, series_details,
  resource_details, ForbiddenMatch, CheckResult, status_pass, status_fail, status_warn,
  status_inconclusive, status_Eq,
}
use otel_policy_lab.Library.{Library}
use otel_policy_lab.Evaluator.Signals.{eval_logs, eval_traces, eval_metrics}
use otel_policy_lab.Evaluator.Results.{pass, fail}
use otel_policy_lab.Evaluator.Matches.Find.{PatternError, invalid_pattern}
use otel_policy_lab.Evaluator.Matches.Dedupe.{summarize_forbidden_matches}
use otel_policy_lab.Evaluator.Matches.Search.{
  find_forbidden_log_matches, find_forbidden_span_matches, find_forbidden_metric_matches,
}
use otel_policy_lab.Evaluator.Required.{
  check_required_log_resource_attributes, check_required_span_resource_attributes,
  check_required_metric_resource_attributes, required_results,
}
use otel_policy_lab.Evaluator.Preserve.{error_spans, eval_error_trace_preservation}
use otel_policy_lab.Evaluator.Cardinality.{eval_max_series}

pub record Options : Type 0 where
  pub require_applicable_input : Bool
  pub unreliable_output_reasons : List Text
  pub unreliable_signals : Map Signal (List Text)

abbrev pub default_options : Options
default_options = record {
  require_applicable_input = false;
  unreliable_output_reasons = [];
  unreliable_signals = [];
}

unfoldable pub check_text : Check → Text
check_text forbidden_data = codes "forbidden_data"
check_text forbidden_labels = codes "forbidden_labels"
check_text required_resource_attributes = codes "required_resource_attributes"
check_text preserve_error_traces = codes "preserve_error_traces"
check_text max_series_per_metric = codes "max_series_per_metric"
check_text runner_warning = codes "runner_warning"
check_text runner_execution = codes "runner_execution"

-- The sum of the datapoints over the metrics.
unfoldable pub count_points : List Metric → ℕ
count_points [] = 0
count_points (m ∷ ms) = length m.datapoints + count_points ms

-- `check.Details["total_records"].(int)`, zero where there is none
unfoldable pub total_records_of : Option Details → ℕ
total_records_of (some (resource_details total counts examples)) = total
total_records_of _ = 0

-- The `switch` of `conclusiveObservation` on a failed check.
unfoldable pub conclusive_failure : Check → Option Details → Bool
unfolding total_records_of
conclusive_failure forbidden_data d = true
conclusive_failure forbidden_labels d = true
conclusive_failure max_series_per_metric d = true
conclusive_failure required_resource_attributes d = ltb 0 (total_records_of d)
conclusive_failure _ d = false

module _ (lib : Library) where
  unfoldable pub conclusive_observation : CheckResult → Set → Bool
  unfolding conclusive_failure
  conclusive_observation r input =
      if r.check == preserve_error_traces
        && r.status == status_pass
        && ltb 0 (length (error_spans lib input))
      then true
      else if not (r.status == status_fail)
      then false
      else conclusive_failure r.check r.details

  -- Why the fixture has nothing that a check could apply to; empty if it has.
  unfoldable pub inapplicable_reason : Signal → Check → Set → Text
  unfolding count_points
  inapplicable_reason logs check input =
      if length input.logs == 0 then codes "no logs in fixture" else []
  inapplicable_reason traces check input =
      if check == preserve_error_traces && length (error_spans lib input) == 0
      then codes "no error spans in fixture"
      else if length input.spans == 0
      then codes "no spans in fixture"
      else []
  inapplicable_reason metrics check input =
      if count_points input.metrics == 0 then codes "no metric datapoints in fixture" else []
  inapplicable_reason pipeline check input = []

  -- `options.UnreliableSignals[signal]`, nil for a missing key
  unfoldable pub scoped_reasons : Options → Signal → List Text
  unfolding lookup
  scoped_reasons options signal = elim (lookup options.unreliable_signals signal) [
    | none ↦ []
    | some reasons ↦ reasons
  ]

  -- The reason that the loop arrives at: the scoped one, else the general one, else the fixture's.
  unfoldable pub reason_for : Options → Set → CheckResult → Text
  unfolding inapplicable_reason scoped_reasons
  reason_for options input r =
      let first : Text =
        if options.require_applicable_input
        then inapplicable_reason r.signal r.check input
        else [] in
      let second : Text =
        if is_nonempty options.unreliable_output_reasons
        then join (codes "; ") options.unreliable_output_reasons
        else first in
      if is_nonempty (scoped_reasons options r.signal)
      then join (codes "; ") (scoped_reasons options r.signal)
      else second

  -- The body of the loop over the results.
  unfoldable pub weigh : Options → Set → CheckResult → CheckResult
  unfolding check_text
  weigh options input r =
      if not (reason_for options input r == []) && not (conclusive_observation r input)
      then record r {
        status = status_inconclusive;
        message =
            check_text r.check
            ++ (codes " cannot be evaluated reliably: " ++ reason_for options input r);
        details = none;
      }
      else r

  unfoldable pub warning_result : Text → CheckResult
  warning_result warning = record {
    status = status_warn;
    signal = pipeline;
    check = runner_warning;
    message = warning;
    details = none;
  }

  -- The results of the three signals, before they are weighed.
  unfoldable pub policy_results : Json → Policy → Set → Set → List Text → List CheckResult
  unfolding eval_logs eval_traces eval_metrics
  policy_results json p input output warnings =
      let of_logs : List CheckResult = elim p.assertions.logs [
        | none ↦ []
        | some a ↦ eval_logs lib a output
      ] in
      let of_traces : List CheckResult = elim p.assertions.traces [
        | none ↦ []
        | some a ↦ eval_traces lib a input output warnings
      ] in
      let of_metrics : List CheckResult = elim p.assertions.metrics [
        | none ↦ []
        | some a ↦ eval_metrics lib json a output
      ] in
      of_logs ++ (of_traces ++ of_metrics)

  unfoldable pub evaluate_with_options :
      Json → Policy → Set → Set → List Text → Options → List CheckResult
  unfolding policy_results weigh warning_result
  evaluate_with_options json p input output runner_warnings options =
      map (weigh options input) (policy_results json p input output runner_warnings)
      ++ map warning_result runner_warnings

  unfoldable pub evaluate : Json → Policy → Set → Set → List Text → List CheckResult
  unfolding evaluate_with_options
  evaluate json p input output runner_warnings =
      evaluate_with_options json p input output runner_warnings default_options
