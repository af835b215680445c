-- ===== src/Cli/Flags.antt =====
-- internal/cli/cli.go: the flags of the two commands, and the conditions on them.
use otel_policy_lab.Prelude.{
  ℕ, ℤ, pos, is_positive, is_negative, int_lt, Bool, false, not, ◌||◌, ◌&&◌, List, [], ◌∷◌, Option,
  none, some, is_some, Text, codes, text_Eq, ◌==◌, Map, lookup, Result, ok, err, if◌then◌else◌,
}
use otel_policy_lab.Collector.{ValidationError}
use otel_policy_lab.Policy.{PolicyError}
use otel_policy_lab.Telemetry.Otlp.{OtlpError}
use otel_policy_lab.Runner.Run.{NewError, RunnerOptions}

-- The flags that were set: what `fs.Parse` of the flag package leaves in a flag set, by the type
-- that each flag is declared with. Durations are in nanoseconds.
pub record SetFlags : Type 0 where
  pub texts : Map Text Text
  pub switches : Map Text Bool
  pub durations : Map Text ℤ

-- `fs.Parse`, with `none` for an error
abbrev pub ParseFlags : Type 0
ParseFlags = List Text → Option SetFlags

abbrev pub or_default {ℓ} : {A : Type ℓ} → A → Option A → A
or_default d none = d
or_default d (some a) = a

-- The variables of `runTest`.
pub record TestFlags : Type 0 where
  pub collector_config : Text
  pub input : Text
  pub policy : Text
  pub report : Text
  pub runner : Text
  pub fail_on_warn : Bool
  pub validate_collector : Bool
  pub otelcol_bin : Text
  pub explicit_binary : Bool
  pub start_timeout : ℤ
  pub run_timeout : ℤ
  pub settle_time : ℤ

unfoldable pub test_flags : SetFlags → TestFlags
unfolding lookup
test_flags set = record {
  collector_config = or_default [] (lookup set.texts (codes "collector-config"));
  input = or_default [] (lookup set.texts (codes "input"));
  policy = or_default [] (lookup set.texts (codes "policy"));
  report = or_default [] (lookup set.texts (codes "report"));
  runner = or_default (codes "fixture") (lookup set.texts (codes "runner"));
  fail_on_warn = or_default false (lookup set.switches (codes "fail-on-warn"));
  validate_collector = or_default false (lookup set.switches (codes "validate-collector"));
  otelcol_bin = or_default (codes "otelcol") (lookup set.texts (codes "otelcol-bin"));
  explicit_binary = is_some (lookup set.texts (codes "otelcol-bin"));
  start_timeout =
      or_default (pos 10000000000) (lookup set.durations (codes "collector-start-timeout"));
  run_timeout = or_default (pos 30000000000) (lookup set.durations (codes "collector-run-timeout"));
  settle_time = or_default (pos 500000000) (lookup set.durations (codes "collector-settle-time"));
}

-- What ends a command early.
pub data CliError : Type 0 where
  bad_flags flags_required binary_required invalid_timeouts : CliError
  collector_invalid : ValidationError → CliError
  bad_policy : PolicyError → CliError
  bad_fixture : OtlpError → CliError
  no_runner : NewError → CliError
  pipeline_failed : Text → CliError
  write_failed : Text → CliError

unfoldable pub error_code : CliError → ℕ
error_code (pipeline_failed e) = 3
error_code _ = 2

-- `real`
abbrev pub is_real : TestFlags → Bool
is_real flags = flags.runner == codes "otelcol"

abbrev pub lacks_paths : TestFlags → Bool
lacks_paths flags = flags.collector_config == [] || flags.input == [] || flags.policy == []

abbrev pub has_invalid_timeouts : TestFlags → Bool
has_invalid_timeouts flags =
    not (is_positive flags.start_timeout)
    || not (is_positive flags.run_timeout)
    || is_negative flags.settle_time
    || not (int_lt flags.settle_time flags.run_timeout)

-- The checks of `runTest` on its flags. `is_blank` is `strings.TrimSpace(s) == ""`.
unfoldable pub check_flags : (is_blank : Text → Bool) → TestFlags → Result CliError (Unit {0})
check_flags is_blank flags =
    if lacks_paths flags
    then err flags_required
    else if is_real flags && (not flags.explicit_binary || is_blank flags.otelcol_bin)
    then err binary_required
    else if is_real flags && has_invalid_timeouts flags
    then err invalid_timeouts
    else ok tt

abbrev pub runner_options : TestFlags → List RunnerOptions
runner_options flags =
    if is_real flags
    then record {
      binary = flags.otelcol_bin;
      start_timeout = flags.start_timeout;
      run_timeout = flags.run_timeout;
      settle_time = flags.settle_time;
    }
      ∷ []
    else []
