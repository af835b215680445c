-- ===== src/Evaluator/Signals.antt =====
-- internal/evaluator/evaluator.go: the checks of each signal.
pub mod Verdict
pub mod Statuses
use otel_policy_lab.Prelude.{
  ℕ, ◌+◌, List, [], ◌∷◌, ◌++◌, map, Bool, true, false, not, ◌&&◌, ◌||◌, Option, none, some, Text,
  codes, text_Eq, nat_Eq, Map, lookup, length, ltb, join, is_positive, magnitude, ◌==◌,
  if◌then◌else◌, Result, ok, err,
}
use otel_policy_lab.Telemetry.{Json, Set, Metric}
use otel_policy_lab.Policy.{
  LogsAssertions, TracesAssertions, MetricsAssertions, Policy, is_nonempty, canonical_preserve,
  normalize_preserve_expression,
}
use otel_policy_lab.Report.Check.{
  Signal, logs, traces, metrics, pipeline, signal_Eq, Check, forbidden_data, forbidden_labels,
  required_resource_attributes, preserve_error_traces, max_series_per_metric, runner_warning,
  runner_execution, Details, match_details, preservation_details, series_details, resource_details,
  ForbiddenMatch, CheckResult, status_pass, status_fail, status_warn, status_inconclusive,
  status_Eq,
}
use otel_policy_lab.Library.{Library}
use otel_policy_lab.Evaluator.Results.{pass, fail}
use otel_policy_lab.Evaluator.Matches.Find.{PatternError, invalid_pattern}
use otel_policy_lab.Evaluator.Matches.Dedupe.{summarize_forbidden_matches}
use otel_policy_lab.Evaluator.Matches.Search.{
  find_forbidden_log_matches, find_forbidden_span_matches, find_forbidden_metric_matches,
}
use otel_policy_lab.Evaluator.Required.{
  check_required_log_resource_attributes, check_required_span_resource_attributes,
  check_required_metric_resource_attributes, required_results,
}
use otel_policy_lab.Evaluator.Preserve.{error_spans, eval_error_trace_preservation}
use otel_policy_lab.Evaluator.Cardinality.{eval_max_series}

-- The message of a search that found nothing, and the start of one that found something.
abbrev pub no_log_data : Text
no_log_data = codes "no forbidden log resource attributes, attributes, values, or bodies exported"

abbrev pub log_data : Text
log_data = codes "forbidden log data exported: "

abbrev pub no_span_data : Text
no_span_data = codes "no forbidden span resource attributes, attributes, values, or names exported"

abbrev pub span_data : Text
span_data = codes "forbidden span data exported: "

abbrev pub no_label_data : Text
no_label_data = codes "no forbidden metric resource attributes, labels, or label values exported"

abbrev pub label_data : Text
label_data = codes "forbidden metric labels exported: "

module _ (lib : Library) where
  -- `err.Error()` of a pattern that does not compile
  unfoldable pub error_text : PatternError → Text
  error_text (invalid_pattern pattern reason) =
      codes "invalid forbidden value/body pattern " ++ (lib.quote pattern ++ (codes ": " ++ reason))

  -- The three branches on the outcome of a search: an error fails the check.
  unfoldable pub forbidden_result :
      Signal → Check → Text → Text → Result PatternError (List ForbiddenMatch) → CheckResult
  unfolding pass fail
  forbidden_result signal check none_found found (err e) = fail signal check (error_text e) none
  forbidden_result signal check none_found found (ok []) = pass signal check none_found
  forbidden_result signal check none_found found (ok (m ∷ ms)) =
      fail signal check (found ++ summarize_forbidden_matches lib (m ∷ ms))
        (some (match_details (m ∷ ms)))

  unfoldable pub eval_logs : LogsAssertions → Set → List CheckResult
  unfolding forbidden_result required_results
  eval_logs a output =
      (if is_nonempty a.forbidden_attributes
          || is_nonempty a.forbidden_value_patterns
          || is_nonempty a.forbidden_body_patterns
        then forbidden_result logs forbidden_data no_log_data log_data
            (find_forbidden_log_matches lib output a)
          ∷ []
        else [])
      ++ required_results logs (codes "logs") a.required_resource_attributes
          (check_required_log_resource_attributes output a.required_resource_attributes)

  -- One preservation result for each expression of the supported form.
  unfoldable pub eval_preserve : List Text → Set → Set → List Text → List CheckResult
  eval_preserve [] input output warnings = []
  eval_preserve (expr ∷ exprs) input output warnings =
      let rest = eval_preserve exprs input output warnings in
      if normalize_preserve_expression expr == canonical_preserve
      then eval_error_trace_preservation lib input output warnings ∷ rest
      else rest

  unfoldable pub eval_traces : TracesAssertions → Set → Set → List Text → List CheckResult
  unfolding forbidden_result required_results eval_preserve
  eval_traces a input output warnings =
      eval_preserve a.preserve input output warnings
      ++ ((if is_nonempty a.forbidden_attributes || is_nonempty a.forbidden_value_patterns
            then forbidden_result traces forbidden_data no_span_data span_data
                (find_forbidden_span_matches lib output a)
              ∷ []
            else [])
          ++ required_results traces (codes "traces") a.required_resource_attributes
              (check_required_span_resource_attributes output a.required_resource_attributes))

  unfoldable pub eval_metrics : Json → MetricsAssertions → Set → List CheckResult
  unfolding forbidden_result required_results
  eval_metrics json a output =
      (if is_nonempty a.forbidden_labels || is_nonempty a.forbidden_label_value_patterns
        then forbidden_result metrics forbidden_labels no_label_data label_data
            (find_forbidden_metric_matches lib output a)
          ∷ []
        else [])
      ++ ((if is_positive a.max_series_per_metric
            then eval_max_series json output (magnitude a.max_series_per_metric)
            else [])
          ++ required_results metrics (codes "metrics") a.required_resource_attributes
              (check_required_metric_resource_attributes output a.required_resource_attributes))
