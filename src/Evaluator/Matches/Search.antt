-- ===== src/Evaluator/Matches/Search.antt =====
-- internal/evaluator/matches.go: the search over all logs, spans or metrics.
use otel_policy_lab.Prelude.{List, concat_map_index, Result, ok, ◌>>=◌}
use otel_policy_lab.Telemetry.{Set}
use otel_policy_lab.Policy.{LogsAssertions, TracesAssertions, MetricsAssertions}
use otel_policy_lab.Report.Check.{ForbiddenMatch}
use otel_policy_lab.Library.{Library}
use otel_policy_lab.Evaluator.Matches.Find.{
  PatternError, compile_patterns, log_matches, span_matches, metric_matches,
}
use otel_policy_lab.Evaluator.Matches.Dedupe.{dedupe_forbidden_matches}

module _ (lib : Library) where
  unfoldable pub find_forbidden_log_matches :
      Set → LogsAssertions → Result PatternError (List ForbiddenMatch)
  unfolding concat_map_index
  find_forbidden_log_matches set a = do
    value_patterns ← compile_patterns lib a.forbidden_value_patterns a.case_insensitive
    body_patterns ← compile_patterns lib a.forbidden_body_patterns a.case_insensitive
    ok (
        dedupe_forbidden_matches
          (concat_map_index 0 (log_matches lib a value_patterns body_patterns) set.logs))

  unfoldable pub find_forbidden_span_matches :
      Set → TracesAssertions → Result PatternError (List ForbiddenMatch)
  unfolding concat_map_index
  find_forbidden_span_matches set a = do
    value_patterns ← compile_patterns lib a.forbidden_value_patterns a.case_insensitive
    ok (dedupe_forbidden_matches (concat_map_index 0 (span_matches lib a value_patterns) set.spans))

  unfoldable pub find_forbidden_metric_matches :
      Set → MetricsAssertions → Result PatternError (List ForbiddenMatch)
  unfolding concat_map_index
  find_forbidden_metric_matches set a = do
    value_patterns ← compile_patterns lib a.forbidden_label_value_patterns a.case_insensitive
    ok (
        dedupe_forbidden_matches
          (concat_map_index 0 (metric_matches lib a value_patterns) set.metrics))
