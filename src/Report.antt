-- ===== src/Report.antt =====
-- internal/report/report.go: the report that is built from the check results, its terminal
-- rendering and the exit code.
pub mod Check
pub mod Series
pub mod Outcome
pub mod Terminal
mod Tests
use otel_policy_lab.Prelude.{
  ℕ, ◌+◌, List, [], ◌∷◌, ◌++◌, Option, none, some, Text, codes, itoa, length, Bool, true, false,
  not, ◌&&◌, ◌==◌, text_Eq, text_eq, nat_Eq, ltb, if◌then◌else◌, join,
}
use Check.{
  Status, status_pass, status_fail, status_warn, status_inconclusive, status_error, same_status,
  status_Eq, CheckResult,
}
use otel_policy_lab.Diagnostics.{Diagnostics}

abbrev pub schema_version : ℕ
schema_version = 1

abbrev pub execution_schema_version : ℕ
execution_schema_version = 2

pub record FileMetadata : Type 0 where
  pub path : Text
  pub size : ℕ
  pub sha256 : Text

-- The change of the log volume, a float in percent, is kept as the two counts that it is
-- computed from; it is absent where the code leaves it at zero.
pub record SummaryStatistics : Type 0 where
  pub input_log_count : ℕ
  pub output_log_count : ℕ
  pub input_span_count : ℕ
  pub output_span_count : ℕ
  pub input_metric_count : ℕ
  pub output_metric_count : ℕ
  pub input_series_count : ℕ
  pub output_series_count : ℕ
  pub log_volume_change : Option (ℕ × ℕ)

pub record RunnerMetadata : Type 0 where
  pub name : Text
  pub simulated_processors : List Text
  pub unsupported_processors : List Text
  pub execution : Option Diagnostics
  pub scope : Text

pub record Report : Type 0 where
  pub schema : ℕ
  pub overall_status : Status
  pub pass_count : ℕ
  pub fail_count : ℕ
  pub warn_count : ℕ
  pub inconclusive_count : ℕ
  pub error_count : ℕ
  pub checks : List CheckResult
  pub input : FileMetadata
  pub policy : FileMetadata
  pub collector : FileMetadata
  pub runner : RunnerMetadata
  pub timestamp : Text
  pub summary : SummaryStatistics

-- The results with status `s`, as `countStatuses` and the loop of `Build` count them.
unfoldable pub count_status : Status → List CheckResult → ℕ
count_status s [] = 0
count_status s (c ∷ checks) = (if c.status == s then 1 else 0) + count_status s checks

abbrev pub StatusCounts : Type 0
StatusCounts = ℕ × ℕ × ℕ

-- One turn of the switch in `countStatuses`.
abbrev pub count_one : Status → StatusCounts → StatusCounts
count_one status_pass (p, f, w) = (p + 1, f, w)
count_one status_fail (p, f, w) = (p, f + 1, w)
count_one status_warn (p, f, w) = (p, f, w + 1)
count_one _ (p, f, w) = (p, f, w)

unfoldable pub count_statuses_from : StatusCounts → List CheckResult → StatusCounts
count_statuses_from n [] = n
count_statuses_from n (c ∷ checks) = count_statuses_from (count_one c.status n) checks

unfoldable pub count_statuses : List CheckResult → StatusCounts
unfolding count_statuses_from
count_statuses checks = count_statuses_from (0, 0, 0) checks

-- The overall status, step by step: passes, failures and warnings, then the runner's name, then
-- the inconclusive results and the errors.
unfoldable pub overall : Text → (pass fail warn inconclusive errors : ℕ) → Status
overall name pass fail warn inconclusive errors =
    let first : Status =
      if ltb 0 fail then status_fail else if ltb 0 warn then status_warn else status_pass in
    let second : Status =
      if name == codes "otelcol" && first == status_warn then status_pass else first in
    let third : Status = if ltb 0 inconclusive && fail == 0 then status_inconclusive else second in
    if ltb 0 errors then status_error else third

-- `now` is the clock's reading.
unfoldable pub build :
    List CheckResult
    → RunnerMetadata
    → (input policy collector : FileMetadata) → SummaryStatistics
    → (now : Text) → Report
build checks runner input policy collector summary now =
    let (pass, fail, warn) = count_statuses checks in
    let inconclusive = count_status status_inconclusive checks in
    let errors = count_status status_error checks in
    record {
      schema = if runner.name == codes "otelcol" then execution_schema_version else schema_version;
      overall_status = overall runner.name pass fail warn inconclusive errors;
      pass_count = pass;
      fail_count = fail;
      warn_count = warn;
      inconclusive_count = inconclusive;
      error_count = errors;
      checks = checks;
      input = input;
      policy = policy;
      collector = collector;
      runner = runner;
      timestamp = now;
      summary = summary;
    }

unfoldable pub exit_code : Report → Bool → ℕ
exit_code rep fail_on_warn =
    if rep.overall_status == status_error
    then 3
    else if ltb 0 rep.fail_count
    then 1
    else if rep.overall_status == status_inconclusive
    then 4
    else if fail_on_warn && ltb 0 rep.warn_count
    then 1
    else 0
