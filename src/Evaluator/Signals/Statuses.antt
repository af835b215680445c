-- ===== src/Evaluator/Signals/Statuses.antt =====
-- The checks of the policy itself either pass or fail.
use otel_policy_lab.Prelude.{
  ℕ, ◌≡◌, refl, ◌⊎◌, inl, inr, List, [], ◌∷◌, ◌++◌, Bool, true, false, Text, codes, text_Eq, nat_Eq,
  Map, All, All-append, Result, ok, err, if◌then◌else◌, ◌==◌, arith, length, ltb, Bool-cases,
  is_positive, magnitude, sort_texts, keys,
}
use otel_policy_lab.Telemetry.{Json, Set}
use otel_policy_lab.Policy.{
  LogsAssertions, TracesAssertions, MetricsAssertions, canonical_preserve,
  normalize_preserve_expression,
}
use otel_policy_lab.Report.Check.{
  Signal, Check, logs, traces, metrics, forbidden_data, forbidden_labels, ForbiddenMatch,
  CheckResult, status_pass, status_fail,
}
use otel_policy_lab.Library.{Library}
use otel_policy_lab.Evaluator.Matches.Find.{PatternError}
use otel_policy_lab.Evaluator.Required.{
  RequiredResourceCheck, check_required_log_resource_attributes,
  check_required_span_resource_attributes, check_required_metric_resource_attributes,
  required_results,
}
use otel_policy_lab.Evaluator.Preserve.{preservation_result, eval_error_trace_preservation}
use otel_policy_lab.Evaluator.Cardinality.{
  series_at, series_violation, series_violations, or_pass, series_by_name, point_counts,
  eval_max_series,
}
use otel_policy_lab.Evaluator.Matches.Search.{
  find_forbidden_log_matches, find_forbidden_span_matches, find_forbidden_metric_matches,
}
use otel_policy_lab.Evaluator.Signals.{
  no_log_data, log_data, no_span_data, span_data, no_label_data, label_data, forbidden_result,
  eval_logs, eval_preserve, eval_traces, eval_metrics,
}

abbrev pub IsVerdict : CheckResult → Type 0
IsVerdict r = (r.status ≡ status_pass) ⊎ (r.status ≡ status_fail)

abbrev pub AllVerdicts : List CheckResult → Type 0
AllVerdicts = All IsVerdict

append_verdicts :
    (xs ys : List CheckResult) → AllVerdicts xs → AllVerdicts ys → AllVerdicts (xs ++ ys)
append_verdicts xs ys h k = (All-append IsVerdict xs ys).1 (h, k)

if_verdicts :
    (b : Bool) (rs : List CheckResult) → AllVerdicts rs → AllVerdicts (if b then rs else [])
if_verdicts true rs h = h
if_verdicts false rs h = tt

required_verdicts :
    (signal : Signal) (name : Text) (required : List Text) (check : RequiredResourceCheck)
    → AllVerdicts (required_results signal name required check)
unfolding required_results
required_verdicts signal name [] check = tt
required_verdicts signal name (req ∷ required) check = elim (Bool-cases check.failed) [
  | inl e ↦ rw e (inr refl, tt)
  | inr e ↦ rw e (inl refl, tt)
]

violation_verdicts :
    (limit : ℕ) (counts : Map Text ℕ) (by_name : Map Text (List Text)) (n : Text)
    → AllVerdicts (series_violation limit counts by_name n)
unfolding series_violation
violation_verdicts limit counts by_name n =
    elim (Bool-cases (ltb limit (length (series_at by_name n)))) [
      | inl e ↦ rw e (inr refl, tt)
      | inr e ↦ rw e tt
    ]

violations_verdicts :
    (limit : ℕ) (counts : Map Text ℕ) (by_name : Map Text (List Text)) (names : List Text)
    → AllVerdicts (series_violations limit counts by_name names)
unfolding series_violations
violations_verdicts limit counts by_name [] = tt
violations_verdicts limit counts by_name (n ∷ names) =
    append_verdicts (series_violation limit counts by_name n)
      (series_violations limit counts by_name names) (violation_verdicts limit counts by_name n)
      (violations_verdicts limit counts by_name names)

or_pass_verdicts :
    (limit : ℕ) (rs : List CheckResult) → AllVerdicts rs → AllVerdicts (or_pass limit rs)
unfolding or_pass
or_pass_verdicts limit [] h = (inl refl, tt)
or_pass_verdicts limit (r ∷ rs) h = h

max_series_verdicts :
    (json : Json) (output : Set) (limit : ℕ) → AllVerdicts (eval_max_series json output limit)
unfolding eval_max_series
max_series_verdicts json output limit =
    let by_name = series_by_name json [] output.metrics in
    let counts = point_counts json [] output.metrics in
    or_pass_verdicts limit (series_violations limit counts by_name (sort_texts (keys by_name)))
      (violations_verdicts limit counts by_name (sort_texts (keys by_name)))

module _ (lib : Library) where
  forbidden_verdict :
      (signal : Signal) (check : Check) (s t : Text) (r : Result PatternError (List ForbiddenMatch))
      → AllVerdicts (forbidden_result lib signal check s t r ∷ [])
  unfolding forbidden_result
  forbidden_verdict signal check s t (err e) = (inr refl, tt)
  forbidden_verdict signal check s t (ok []) = (inl refl, tt)
  forbidden_verdict signal check s t (ok (m ∷ ms)) = (inr refl, tt)

  preservation-IsVerdict :
      (input output : Set) (warnings : List Text)
      → IsVerdict (eval_error_trace_preservation lib input output warnings)
  unfolding eval_error_trace_preservation preservation_result
  preservation-IsVerdict input output warnings = ground arith

  preserve_verdicts :
      (exprs : List Text) (input output : Set) (warnings : List Text)
      → AllVerdicts (eval_preserve lib exprs input output warnings)
  unfolding eval_preserve
  preserve_verdicts [] input output warnings = tt
  preserve_verdicts (expr ∷ exprs) input output warnings =
      elim (Bool-cases (normalize_preserve_expression expr == canonical_preserve)) [
        | inl e ↦ rw e (
          preservation-IsVerdict input output warnings,
          preserve_verdicts exprs input output warnings,
        )
        | inr e ↦ rw e (preserve_verdicts exprs input output warnings)
      ]

  pub eval_logs-AllVerdicts :
      (a : LogsAssertions) (output : Set) → AllVerdicts (eval_logs lib a output)
  unfolding eval_logs
  eval_logs-AllVerdicts a output =
      append_verdicts (if _ then _ ∷ [] else [])
        (required_results logs (codes "logs") a.required_resource_attributes
          (check_required_log_resource_attributes output a.required_resource_attributes))
        (if_verdicts _ (_ ∷ []) (
          forbidden_verdict logs forbidden_data no_log_data log_data
            (find_forbidden_log_matches lib output a)))
        (required_verdicts logs (codes "logs") a.required_resource_attributes
          (check_required_log_resource_attributes output a.required_resource_attributes))

  pub eval_traces-AllVerdicts :
      (a : TracesAssertions) (input output : Set) (warnings : List Text)
      → AllVerdicts (eval_traces lib a input output warnings)
  unfolding eval_traces
  eval_traces-AllVerdicts a input output warnings =
      append_verdicts (eval_preserve lib a.preserve input output warnings)
        ((if _ then _ ∷ [] else [])
          ++ required_results traces (codes "traces") a.required_resource_attributes
              (check_required_span_resource_attributes output a.required_resource_attributes))
        (preserve_verdicts a.preserve input output warnings)
        (append_verdicts (if _ then _ ∷ [] else [])
          (required_results traces (codes "traces") a.required_resource_attributes
            (check_required_span_resource_attributes output a.required_resource_attributes))
          (if_verdicts _ (_ ∷ []) (
            forbidden_verdict traces forbidden_data no_span_data span_data
              (find_forbidden_span_matches lib output a)))
          (required_verdicts traces (codes "traces") a.required_resource_attributes
            (check_required_span_resource_attributes output a.required_resource_attributes)))

  pub eval_metrics-AllVerdicts :
      (json : Json) (a : MetricsAssertions) (output : Set)
      → AllVerdicts (eval_metrics lib json a output)
  unfolding eval_metrics
  eval_metrics-AllVerdicts json a output =
      append_verdicts (if _ then _ ∷ [] else [])
        ((if is_positive a.max_series_per_metric
            then eval_max_series json output (magnitude a.max_series_per_metric)
            else [])
          ++ required_results metrics (codes "metrics") a.required_resource_attributes
              (check_required_metric_resource_attributes output a.required_resource_attributes))
        (if_verdicts _ (_ ∷ []) (
          forbidden_verdict metrics forbidden_labels no_label_data label_data
            (find_forbidden_metric_matches lib output a)))
        (append_verdicts
          (if is_positive a.max_series_per_metric
            then eval_max_series json output (magnitude a.max_series_per_metric)
            else [])
          (required_results metrics (codes "metrics") a.required_resource_attributes
            (check_required_metric_resource_attributes output a.required_resource_attributes))
          (if_verdicts (is_positive a.max_series_per_metric)
            (eval_max_series json output (magnitude a.max_series_per_metric))
            (max_series_verdicts json output (magnitude a.max_series_per_metric)))
          (required_verdicts metrics (codes "metrics") a.required_resource_attributes
            (check_required_metric_resource_attributes output a.required_resource_attributes)))
