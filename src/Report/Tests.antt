-- ===== src/Report/Tests.antt =====
-- The report theorems on a failed and a passed check.
use otel_policy_lab.Prelude.{
  ◌≡◌, List, [], ◌∷◌, true, ◌&&◌, none, Text, codes, text_Eq, if◌then◌else◌,
}
use otel_policy_lab.Report.{Report, build, exit_code}
use otel_policy_lab.Report.Check.{
  CheckResult, Signal, logs, traces, Check, forbidden_data, preserve_error_traces, Status,
  status_pass, status_fail, status_warn, status_inconclusive, status_error,
}
use otel_policy_lab.Samples.{runner, a_file, no_summary}
use otel_policy_lab.Report.Outcome.{has, exit_code-build}
use otel_policy_lab.Report.Series.{format_series, without_commas, decimal, decimal-format_series}

abbrev result_of : Status → Signal → Check → CheckResult
result_of status signal check = record {
  status = status;
  signal = signal;
  check = check;
  message = codes "seen";
  details = none;
}

abbrev checks : List CheckResult
checks =
    result_of status_fail logs forbidden_data
    ∷ result_of status_pass traces preserve_error_traces
    ∷ []

abbrev noon : Text
noon = codes "12:00"

abbrev sample_report : Report
sample_report = build checks runner a_file a_file a_file no_summary noon

exit_code-build_example : exit_code sample_report true ≡ (
    if has status_error checks
    then 3
    else if has status_fail checks
    then 1
    else if has status_inconclusive checks
    then 4
    else if true && has status_warn checks
    then 1
    else 0)
exit_code-build_example = exit_code-build checks runner a_file a_file a_file no_summary noon true

decimal-format_series_example : decimal 0 (without_commas (format_series 1234567)) ≡ 1234567
decimal-format_series_example = decimal-format_series 1234567
