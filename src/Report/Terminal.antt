-- ===== src/Report/Terminal.antt =====
-- `PrintTerminal` of internal/report/report.go: the text that goes to standard output.
use otel_policy_lab.Prelude.{
  List, [], ◌∷◌, ◌++◌, Option, none, some, Text, codes, itoa, length, ◌==◌, text_Eq, nat_Eq,
  if◌then◌else◌,
}
use otel_policy_lab.Diagnostics.{Diagnostics}
use otel_policy_lab.Report.Check.{
  Status, status_pass, status_fail, status_warn, status_inconclusive, status_error, CheckResult,
}
use otel_policy_lab.Report.{RunnerMetadata, Report, execution_schema_version}

abbrev pub newline : Text
newline = 10 ∷ []

-- The string constants of the type `Status`.
unfoldable pub status_text : Status → Text
status_text status_pass = codes "PASS"
status_text status_fail = codes "FAIL"
status_text status_warn = codes "WARN"
status_text status_inconclusive = codes "INCONCLUSIVE"
status_text status_error = codes "ERROR"

unfoldable pub print_checks : List CheckResult → Text
print_checks [] = []
print_checks (c ∷ checks) =
    status_text c.status ++ (codes " " ++ (c.message ++ (newline ++ print_checks checks)))

unfoldable pub print_version : Option Diagnostics → Text
print_version none = codes "version unavailable"
print_version (some d) = if d.version == [] then codes "version unavailable" else d.version

unfoldable pub print_runner : RunnerMetadata → Text
unfolding print_version
print_runner r =
    if r.name == []
    then []
    else if r.name == codes "otelcol"
    then codes "Runner: otelcol (real processor chains; "
      ++ (print_version r.execution
          ++ (codes ")"
              ++ (newline
                  ++ (codes
                        "Scope: fixture-local; production receivers and exporters were not exercised"
                      ++ newline))))
    else codes "Runner: "
      ++ (r.name
          ++ (codes " (simulated processors: "
              ++ (itoa (length r.simulated_processors)
                  ++ (codes ", unsupported processors: "
                      ++ (itoa (length r.unsupported_processors) ++ (codes ")" ++ newline))))))

unfoldable pub print_result : Report → Text
unfolding status_text
print_result rep =
    let head : Text =
      codes "Result: "
      ++ (status_text rep.overall_status
          ++ (codes " ("
              ++ (itoa rep.pass_count
                  ++ (codes " pass, " ++ (itoa rep.fail_count ++ codes " fail, "))))) in
    let middle : Text =
      if rep.schema == execution_schema_version
      then itoa rep.inconclusive_count
        ++ (codes " inconclusive, " ++ (itoa rep.error_count ++ codes " error, "))
      else [] in
    head ++ (middle ++ (itoa rep.warn_count ++ (codes " warn)" ++ newline)))

unfoldable pub print_terminal : Report → Text
unfolding print_checks print_runner print_result
print_terminal rep =
    print_checks rep.checks ++ (newline ++ (print_runner rep.runner ++ print_result rep))
