-- ===== src/Evaluator/Results.antt =====
-- internal/evaluator/evaluator.go: the constructors of check results that the checks share.
use otel_policy_lab.Prelude.{Option, none, Text}
use otel_policy_lab.Report.Check.{Signal, Check, Details, CheckResult, status_pass, status_fail}

unfoldable pub pass : Signal → Check → Text → CheckResult
pass signal check message = record {
  status = status_pass;
  signal = signal;
  check = check;
  message = message;
  details = none;
}

-- The `details` map may be nil.
unfoldable pub fail : Signal → Check → Text → Option Details → CheckResult
fail signal check message details = record {
  status = status_fail;
  signal = signal;
  check = check;
  message = message;
  details = details;
}
