-- ===== src/Cli/Failing.antt =====
-- internal/cli/cli.go: the exit code of a run that failed.
use otel_policy_lab.Prelude.{
  ℕ, ◌≡◌, refl, ap, ◌∙◌, Bool, true, false, not, ◌&&◌, [], ◌∷◌, Option, some, is_some, Option-cases,
  Text, text_Eq, ◌==◌, Result, err, any, arith, if◌then◌else◌,
}
use otel_policy_lab.Telemetry.{Set}
use otel_policy_lab.Telemetry.Otlp.Accessors.{Pdata}
use otel_policy_lab.Policy.{Policy}
use otel_policy_lab.Report.Check.{status_Eq}
use otel_policy_lab.Report.{Report, exit_code}
use otel_policy_lab.Report.Outcome.{exit_code-build}
use otel_policy_lab.Runner.Run.{RunResult}
use otel_policy_lab.Cli.Flags.{
  TestFlags, CliError, pipeline_failed, error_code, is_real, or_default,
}
use otel_policy_lab.Cli.{
  World, no_result, execution_error, checks_of, report_of, finish, after_run, code_of,
}

code_of-branch :
    (b c : Bool) (m : Result CliError ℕ) (e : Text)
    → code_of m ≡ (if c then 2 else 3)
    → code_of (if b then m else err (pipeline_failed e)) ≡ (if b && c then 2 else 3)
unfolding code_of error_code
code_of-branch true c m e h = h
code_of-branch false c m e h = refl

module _ {pdata : Pdata} (world : World pdata) where
  -- The report cannot be written where it is to be written.
  abbrev pub cannot_write : TestFlags → Report → Bool
  cannot_write flags rep = not (flags.report == []) && is_some (world.write_json flags.report rep)

  pub finish-eq :
      (flags : TestFlags) (rep : Report)
      → code_of (finish world flags rep)
        ≡ (if cannot_write flags rep then 2 else exit_code rep flags.fail_on_warn)
  unfolding finish code_of error_code
  finish-eq flags rep = ground (arith, Option-cases (world.write_json flags.report rep))

  abbrev pub failed_report : TestFlags → Policy → Set → Text → Option RunResult → Report
  failed_report flags p fixture e result =
      report_of world flags p fixture (some e) (or_default (no_result flags.runner fixture) result)

  exit_code-failed :
      (flags : TestFlags) (p : Policy) (fixture : Set) (e : Text) (result : Option RunResult)
      → exit_code (failed_report flags p fixture e result) flags.fail_on_warn ≡ 3
  unfolding report_of checks_of any
  exit_code-failed flags p fixture e result =
      exit_code-build (execution_error e ∷ []) _ _ _ _ _ _ flags.fail_on_warn

  -- The exit code after a run that failed is 3, whatever result came with the error, but 2 if
  -- the runner is the Collector and the report cannot be written where it is to be written.
  pub after_run-failed :
      (flags : TestFlags) (p : Policy) (fixture : Set) (e : Text) (result : Option RunResult)
      → code_of (after_run world flags p fixture (result, some e)) ≡ (
          if is_real flags && cannot_write flags (failed_report flags p fixture e result)
          then 2
          else 3)
  unfolding after_run code_of error_code
  after_run-failed flags p fixture e result =
      let rep = failed_report flags p fixture e result in
      code_of-branch (is_real flags) (cannot_write flags rep) (finish world flags rep) e (
        finish-eq flags rep
        ∙ ap (λ c. if cannot_write flags rep then 2 else c)
            (exit_code-failed flags p fixture e result))
