-- ===== src/Evaluator/Preserve.antt =====
-- internal/evaluator/evaluator.go: error traces of the input have to be in the output.
pub mod Sound
pub mod Identity
use otel_policy_lab.Prelude.{
  ℕ, suc, List, [], ◌∷◌, ◌++◌, Bool, true, false, ◌||◌, Option, none, some, Text, codes, text_Eq,
  nat_Eq, Map, insert, has_key, length, itoa, to_upper, contains_text, ◌==◌, if◌then◌else◌,
}
use otel_policy_lab.Telemetry.{Span, Set}
use otel_policy_lab.Report.Check.{traces, preserve_error_traces, preservation_details, CheckResult}
use otel_policy_lab.Library.{Library}
use otel_policy_lab.Evaluator.Results.{pass, fail}

unfoldable pub span_key : Span → Text
span_key span = span.trace_id ++ (codes ":" ++ span.span_id)

module _ (lib : Library) where
  -- `strings.ToUpper(span.StatusCode) == "ERROR"`
  unfoldable pub is_error : Span → Bool
  is_error span = to_upper lib.unicode_upper span.status_code == codes "ERROR"

  unfoldable pub collect_errors : Map Text Span → List Span → Map Text Span
  unfolding insert
  collect_errors out [] = out
  collect_errors out (span ∷ rest) =
      collect_errors (if is_error span then insert out (span_key span) span else out) rest

  unfoldable pub error_spans : Set → Map Text Span
  unfolding collect_errors
  error_spans set = collect_errors [] set.spans

  -- How many of the spans in the first map have their key in the second.
  unfoldable pub count_preserved : Map Text Span → Map Text Span → ℕ
  unfolding has_key
  count_preserved [] outputs = 0
  count_preserved ((_, span) ∷ rest) outputs =
      if has_key outputs (span_key span)
      then suc (count_preserved rest outputs)
      else count_preserved rest outputs

  unfoldable pub is_fixture_local_trace_check : List Text → Bool
  is_fixture_local_trace_check [] = false
  is_fixture_local_trace_check (w ∷ warnings) =
      contains_text w (codes "trace preservation checks are fixture-local")
      || is_fixture_local_trace_check warnings

  unfoldable pub preservation_result : ℕ → ℕ → List Text → CheckResult
  unfolding pass fail
  preservation_result preserved total runner_warnings =
      if preserved == total
      then pass traces preserve_error_traces (
          lib.percent preserved total
          ++ (codes "% of error traces preserved"
              ++ (if is_fixture_local_trace_check runner_warnings
                  then codes " (fixture-local; runner does not drop spans)"
                  else [])))
      else fail traces preserve_error_traces
          (lib.percent preserved total
            ++ (codes "% of error traces preserved ("
                ++ (itoa preserved ++ (codes "/" ++ (itoa total ++ codes ")")))))
          (some (preservation_details preserved total))

  unfoldable pub eval_error_trace_preservation : Set → Set → List Text → CheckResult
  unfolding error_spans count_preserved preservation_result pass
  eval_error_trace_preservation input output runner_warnings =
      if length (error_spans input) == 0
      then pass traces preserve_error_traces
          (codes "no error traces in fixture; preservation check skipped")
      else preservation_result (count_preserved (error_spans input) (error_spans output))
          (length (error_spans input)) runner_warnings
