-- ===== src/Evaluator/Tests.antt =====
-- The evaluator's theorems on the sample fixture.
mod Records
use otel_policy_lab.Prelude.{
  ℕ, ◌≡◌, ◌≢◌, ◌≤◌, ◌<◌, ◌↔◌, ◌⊎◌, inl, inr, refl, List, [], ◌∷◌, ◌++◌, map, All, In, Bool, true,
  false, Text, codes, none, length, magnitude, Result, ok,
}
use otel_policy_lab.Telemetry.{Set}
use otel_policy_lab.Policy.{LogsAssertions, TracesAssertions, MetricsAssertions}
use otel_policy_lab.Report.Check.{
  CheckResult, Signal, logs, Check, forbidden_data, preserve_error_traces, Status, status_pass,
  status_fail, status_inconclusive,
}
use otel_policy_lab.Samples.{
  literals, plain, shop, shop_output, rules, log_rules, trace_rules, metric_rules, log_of, secret,
  token, secret_compiles, token_compiles,
}
use otel_policy_lab.Evaluator.Matches.Find.{compile_patterns, compile_pattern, fold_pattern}
use otel_policy_lab.Evaluator.Matches.Search.{
  find_forbidden_log_matches, find_forbidden_span_matches, find_forbidden_metric_matches,
}
use otel_policy_lab.Evaluator.Matches.Clean.{
  IsCleanLog, IsCleanSpan, IsCleanMetric, find_forbidden_log_matches-nil,
  find_forbidden_span_matches-nil, find_forbidden_metric_matches-nil,
}
use otel_policy_lab.Evaluator.Preserve.{error_spans}
use otel_policy_lab.Evaluator.Signals.{eval_logs, eval_traces, eval_metrics}
use otel_policy_lab.Evaluator.Signals.Verdict.{
  AllPass, LogsSatisfy, TracesSatisfy, MetricsSatisfy, eval_logs_iff, eval_traces_iff,
  eval_metrics_iff,
}
use otel_policy_lab.Evaluator.Run.{
  Options, policy_results, warning_result, weigh, evaluate, evaluate_with_options,
}
use otel_policy_lab.Evaluator.Run.Reliable.{
  IsViolation, weigh_cases, evaluate-eq, evaluate_with_options-violation,
  evaluate_with_options_closed,
}

eval_logs_iff_example :
    AllPass (eval_logs literals log_rules shop_output)
    ↔ LogsSatisfy literals log_rules secret token shop_output.logs
eval_logs_iff_example =
    eval_logs_iff literals log_rules shop_output secret token secret_compiles token_compiles

eval_traces_iff_example :
    AllPass (eval_traces literals trace_rules shop shop_output [])
    ↔ TracesSatisfy literals trace_rules secret shop shop_output
eval_traces_iff_example =
    eval_traces_iff literals trace_rules shop shop_output [] secret secret_compiles

eval_metrics_iff_example :
    AllPass (eval_metrics literals plain metric_rules shop_output)
    ↔ MetricsSatisfy literals plain metric_rules secret shop_output.metrics
eval_metrics_iff_example =
    eval_metrics_iff literals plain metric_rules shop_output secret secret_compiles

-- Options of a run whose export was not conclusive.
abbrev doubtful : Options
doubtful = record {
  require_applicable_input = true;
  unreliable_output_reasons = codes "collector did not settle" ∷ [];
  unreliable_signals = [];
}

abbrev passed : CheckResult
passed = record {
  status = status_pass;
  signal = logs;
  check = forbidden_data;
  message = codes "no forbidden data";
  details = none;
}

evaluate_with_options_closed_example :
    All
      (λ r.
        r.status ≡ status_pass
        → (r.check ≡ preserve_error_traces) × (0 < length (error_spans literals shop)))
      (evaluate_with_options literals plain rules shop shop_output [] doubtful)
evaluate_with_options_closed_example =
    evaluate_with_options_closed literals plain rules shop shop_output [] doubtful b'c'
      (codes "ollector did not settle") [] refl refl
