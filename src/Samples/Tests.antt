-- ===== src/Samples/Tests.antt =====
-- Whole runs on the sample fixture.
use otel_policy_lab.Policy.{
  squeeze, normalize_preserve_expression, logs_has_checks, traces_has_checks, metrics_has_checks,
  has_assertions, preserve_exprs, check_preserve, validate, parse, load,
}
use otel_policy_lab.Telemetry.{
  copy_entries, clone_map, clone_log, clone_span, clone_datapoint, clone_metric, clone, series_key,
  seen_series, unique_series_keys, unique_series_count, seen_of_metric, seen_of_metrics,
  count_series, summary_stats,
}
use otel_policy_lab.Evaluator.Matches.Find.{
  sorted_keys, value_at, glob_matches, match_folded, match_key, find_forbidden_attribute_matches,
  find_forbidden_value_matches, find_forbidden_string_matches, fold_pattern, compile_pattern,
  compile_patterns, log_matches, span_matches, datapoint_matches, metric_matches,
}
use otel_policy_lab.Evaluator.Matches.Dedupe.{
  kind_text, dedupe_key, drop_seen, match_less, sort_forbidden_matches, dedupe_forbidden_matches,
  summary_part, summarize_forbidden_matches,
}
use otel_policy_lab.Evaluator.Matches.Search.{
  find_forbidden_log_matches, find_forbidden_span_matches, find_forbidden_metric_matches,
}
use otel_policy_lab.Evaluator.Required.{
  count_at, missing_in, count_missing, note_record, check_records, zero_counts,
  check_required_resource_attributes, check_required_log_resource_attributes,
  check_required_span_resource_attributes, check_required_metric_resource_attributes,
  sorted_missing_keys, missing_part, message, details, required_results,
}
use otel_policy_lab.Evaluator.Preserve.{
  span_key, is_error, collect_errors, error_spans, count_preserved, is_fixture_local_trace_check,
  preservation_result, eval_error_trace_preservation,
}
use otel_policy_lab.Evaluator.Cardinality.{
  series_at, points_at, add_all, series_violation, series_violations, or_pass, series_by_name,
  point_counts, eval_max_series,
}
use otel_policy_lab.Evaluator.Signals.{
  error_text, forbidden_result, eval_logs, eval_preserve, eval_traces, eval_metrics,
}
use otel_policy_lab.Evaluator.Run.{
  check_text, count_points, total_records_of, conclusive_failure, conclusive_observation,
  inapplicable_reason, scoped_reasons, reason_for, weigh, warning_result, policy_results,
  evaluate_with_options, evaluate,
}
use otel_policy_lab.Evaluator.Results.{pass, fail}
use otel_policy_lab.Evaluator.Signals.{no_log_data, log_data}
use otel_policy_lab.Evaluator.Run.{Options, default_options}
use otel_policy_lab.Evaluator.Run.Reliable.{IsViolation, evaluate_with_options-violation}
use otel_policy_lab.Prelude.{
  In, inl, ◌≡◌, refl, List, [], ◌∷◌, map, codes, text_eq, sort_by_key, any, keep, place, sort_by,
  sort_texts, contains, add, lookup, has_key, insert, keys, text_lt, has_prefix, contains_text,
  replace_byte, before, join, digits, itoa, to_lower, to_upper,
}
use otel_policy_lab.Telemetry.{Set}
use otel_policy_lab.Samples.{literals, plain, shop, shop_output, rules, log_rules, log_of}
use otel_policy_lab.Report.Check.{
  CheckResult, Status, status_pass, status_fail, logs, forbidden_data,
}

abbrev pub statuses_of : Set → List Status
statuses_of output =
    map (λ (r : CheckResult). r.status) (policy_results literals plain rules shop output [])

-- All eight checks pass on what the sample policy allows.
clean_output : statuses_of shop_output ≡ (
    status_pass ∷ status_pass ∷ status_pass ∷ status_pass ∷ status_pass ∷ status_pass ∷ status_pass
    ∷ status_pass ∷ [])
unfolding squeeze normalize_preserve_expression logs_has_checks traces_has_checks metrics_has_checks
    has_assertions preserve_exprs check_preserve validate parse load copy_entries clone_map
    clone_log clone_span clone_datapoint clone_metric clone series_key seen_series
    unique_series_keys unique_series_count seen_of_metric seen_of_metrics count_series summary_stats
    sorted_keys value_at glob_matches match_folded match_key find_forbidden_attribute_matches
    find_forbidden_value_matches find_forbidden_string_matches fold_pattern compile_pattern
    compile_patterns log_matches span_matches datapoint_matches metric_matches kind_text dedupe_key
    drop_seen match_less sort_forbidden_matches dedupe_forbidden_matches summary_part
    summarize_forbidden_matches find_forbidden_log_matches find_forbidden_span_matches
    find_forbidden_metric_matches count_at missing_in count_missing note_record check_records
    zero_counts check_required_resource_attributes check_required_log_resource_attributes
    check_required_span_resource_attributes check_required_metric_resource_attributes
    sorted_missing_keys missing_part message details required_results span_key is_error
    collect_errors error_spans count_preserved is_fixture_local_trace_check preservation_result
    eval_error_trace_preservation series_at points_at add_all series_violation series_violations
    or_pass series_by_name point_counts eval_max_series error_text forbidden_result eval_logs
    eval_preserve eval_traces eval_metrics check_text count_points total_records_of
    conclusive_failure conclusive_observation inapplicable_reason scoped_reasons reason_for weigh
    warning_result policy_results evaluate_with_options evaluate pass fail text_eq sort_by_key any
    keep place sort_by sort_texts contains add lookup has_key insert keys text_lt has_prefix
    contains_text replace_byte before join digits itoa to_lower to_upper
clean_output = refl

-- A token in a body and lost spans are each seen by the check that is for them.
leaking_output :
    statuses_of (record shop_output { logs = log_of (codes "token 1") ∷ []; spans = [] }) ≡ (
      status_fail ∷ status_pass ∷ status_fail ∷ status_pass ∷ status_fail ∷ status_pass
      ∷ status_pass ∷ status_pass ∷ [])
unfolding squeeze normalize_preserve_expression logs_has_checks traces_has_checks metrics_has_checks
    has_assertions preserve_exprs check_preserve validate parse load copy_entries clone_map
    clone_log clone_span clone_datapoint clone_metric clone series_key seen_series
    unique_series_keys unique_series_count seen_of_metric seen_of_metrics count_series summary_stats
    sorted_keys value_at glob_matches match_folded match_key find_forbidden_attribute_matches
    find_forbidden_value_matches find_forbidden_string_matches fold_pattern compile_pattern
    compile_patterns log_matches span_matches datapoint_matches metric_matches kind_text dedupe_key
    drop_seen match_less sort_forbidden_matches dedupe_forbidden_matches summary_part
    summarize_forbidden_matches find_forbidden_log_matches find_forbidden_span_matches
    find_forbidden_metric_matches count_at missing_in count_missing note_record check_records
    zero_counts check_required_resource_attributes check_required_log_resource_attributes
    check_required_span_resource_attributes check_required_metric_resource_attributes
    sorted_missing_keys missing_part message details required_results span_key is_error
    collect_errors error_spans count_preserved is_fixture_local_trace_check preservation_result
    eval_error_trace_preservation series_at points_at add_all series_violation series_violations
    or_pass series_by_name point_counts eval_max_series error_text forbidden_result eval_logs
    eval_preserve eval_traces eval_metrics check_text count_points total_records_of
    conclusive_failure conclusive_observation inapplicable_reason scoped_reasons reason_for weigh
    warning_result policy_results evaluate_with_options evaluate pass fail text_eq sort_by_key any
    keep place sort_by sort_texts contains add lookup has_key insert keys text_lt has_prefix
    contains_text replace_byte before join digits itoa to_lower to_upper
leaking_output = refl

-- What is left of the fixture if its log is exported with a token in the body.
abbrev leak : Set
leak = record shop_output { logs = log_of (codes "token 1") ∷ [] }

abbrev leak_result : CheckResult
leak_result =
    forbidden_result literals logs forbidden_data no_log_data log_data
      (find_forbidden_log_matches literals leak log_rules)

leak-IsViolation : IsViolation leak_result
unfolding squeeze normalize_preserve_expression logs_has_checks traces_has_checks metrics_has_checks
    has_assertions preserve_exprs check_preserve validate parse load copy_entries clone_map
    clone_log clone_span clone_datapoint clone_metric clone series_key seen_series
    unique_series_keys unique_series_count seen_of_metric seen_of_metrics count_series summary_stats
    sorted_keys value_at glob_matches match_folded match_key find_forbidden_attribute_matches
    find_forbidden_value_matches find_forbidden_string_matches fold_pattern compile_pattern
    compile_patterns log_matches span_matches datapoint_matches metric_matches kind_text dedupe_key
    drop_seen match_less sort_forbidden_matches dedupe_forbidden_matches summary_part
    summarize_forbidden_matches find_forbidden_log_matches find_forbidden_span_matches
    find_forbidden_metric_matches count_at missing_in count_missing note_record check_records
    zero_counts check_required_resource_attributes check_required_log_resource_attributes
    check_required_span_resource_attributes check_required_metric_resource_attributes
    sorted_missing_keys missing_part message details required_results span_key is_error
    collect_errors error_spans count_preserved is_fixture_local_trace_check preservation_result
    eval_error_trace_preservation series_at points_at add_all series_violation series_violations
    or_pass series_by_name point_counts eval_max_series error_text forbidden_result eval_logs
    eval_preserve eval_traces eval_metrics check_text count_points total_records_of
    conclusive_failure conclusive_observation inapplicable_reason scoped_reasons reason_for weigh
    warning_result policy_results evaluate_with_options evaluate pass fail text_eq sort_by_key any
    keep place sort_by sort_texts contains add lookup has_key insert keys text_lt has_prefix
    contains_text replace_byte before join digits itoa to_lower to_upper
leak-IsViolation = (refl, inl refl)

leak_is_found : In leak_result (policy_results literals plain rules shop leak [])
unfolding policy_results eval_logs
leak_is_found = inl refl

abbrev doubtful : Options
doubtful = record default_options {
  unreliable_output_reasons = codes "collector did not settle" ∷ [];
}

evaluate_with_options-violation_example :
    In leak_result (evaluate_with_options literals plain rules shop leak [] doubtful)
evaluate_with_options-violation_example =
    evaluate_with_options-violation literals plain rules shop leak [] doubtful leak_result
      leak_is_found leak-IsViolation
