-- ===== src/Runner/Run.antt =====
-- internal/runner/runner.go: the interface of a runner, `New` and the run of the fixture runner.
use otel_policy_lab.Prelude.{
  ℤ, pos, is_positive, is_negative, not, ◌||◌, List, [], ◌∷◌, ◌++◌, Option, none, some, Text, codes,
  text_Eq, int_Eq, ◌==◌, Map, Result, ok, err, if◌then◌else◌,
}
use otel_policy_lab.Diagnostics.{Diagnostics}
use otel_policy_lab.Telemetry.{Set}
use otel_policy_lab.Telemetry.Otlp.Accessors.{Pdata}
use otel_policy_lab.Telemetry.Otlp.{Otlp}
use otel_policy_lab.Library.{Library}
use otel_policy_lab.Runner.Fixture.Config.{CollectorConfig}
use otel_policy_lab.Runner.Fixture.{ApplyResult, apply_config}

-- A nil pointer is `none`.
pub record RunRequest (pdata : Pdata) : Type 0 where
  pub fixture_path : Text
  pub collector_config_path : Text
  pub fixture : Option Set
  pub raw : Option (Otlp pdata)

pub record RunResult : Type 0 where
  pub runner_name : Text
  pub input : Option Set
  pub output : Option Set
  pub runner_warnings : List Text
  pub simulated_processors : List Text
  pub unsupported_processors : List Text
  pub diagnostics : Option Diagnostics
  pub inconclusive_reasons : List Text
  pub inconclusive_signals : Map Text (List Text)

-- `Options`, with durations in nanoseconds.
pub record RunnerOptions : Type 0 where
  pub binary : Text
  pub start_timeout : ℤ
  pub run_timeout : ℤ
  pub settle_time : ℤ

-- What `Run` returns: a result, that may come with the text of an error.
abbrev pub RunOutcome : Type 0
RunOutcome = Option RunResult × Option Text

-- The interface `PipelineRunner`.
pub record PipelineRunner (pdata : Pdata) : Type 0 where
  pub run : RunRequest pdata → RunOutcome

-- The runner that a name stands for, with the options of the Collector runner.
pub data RunnerChoice : Type 0 where
  choose_fixture : RunnerChoice
  choose_collector : RunnerOptions → RunnerChoice

-- The errors of `New`.
pub data NewError : Type 0 where
  too_many_options invalid_timeouts : NewError
  unsupported_runner : Text → NewError

abbrev pub default_start_timeout : ℤ
default_start_timeout = pos 10000000000

abbrev pub default_run_timeout : ℤ
default_run_timeout = pos 30000000000

abbrev pub default_runner_options : RunnerOptions
default_runner_options = record {
  binary = [];
  start_timeout = default_start_timeout;
  run_timeout = default_run_timeout;
  settle_time = pos 500000000;
}

abbrev pub with_defaults : RunnerOptions → RunnerOptions
with_defaults o = record o {
  start_timeout = if o.start_timeout == pos 0 then default_start_timeout else o.start_timeout;
  run_timeout = if o.run_timeout == pos 0 then default_run_timeout else o.run_timeout;
}

unfoldable pub choose_collector_with : RunnerOptions → Result NewError RunnerChoice
choose_collector_with o =
    if not (is_positive o.start_timeout)
      || not (is_positive o.run_timeout)
      || is_negative o.settle_time
    then err invalid_timeouts
    else ok (choose_collector o)

-- The case of the name "otelcol".
unfoldable pub new_collector : List RunnerOptions → Result NewError RunnerChoice
unfolding choose_collector_with
new_collector [] = choose_collector_with default_runner_options
new_collector (o ∷ []) = choose_collector_with (with_defaults o)
new_collector (o ∷ p ∷ more) = err too_many_options

-- `New`
unfoldable pub new_runner : Text → List RunnerOptions → Result NewError RunnerChoice
unfolding new_collector
new_runner name options =
    if name == codes "fixture" || name == []
    then ok choose_fixture
    else if name == codes "otelcol"
    then new_collector options
    else err (unsupported_runner name)

abbrev pub run_failed : Text → RunOutcome
run_failed message = (none, some message)

module _ (lib : Library) where
  abbrev pub fixture_result : Set → ApplyResult → RunResult
  fixture_result input r = record {
    runner_name = codes "fixture";
    input = some input;
    output = some r.output;
    runner_warnings = r.warnings;
    simulated_processors = r.simulated;
    unsupported_processors = r.unsupported;
    diagnostics = none;
    inconclusive_reasons = [];
    inconclusive_signals = [];
  }

  -- `Run` once the fixture and the configuration file are there; `decode` is `yaml.Unmarshal`.
  unfoldable pub run_fixture_on : (Text → Result Text CollectorConfig) → Set → Text → RunOutcome
  unfolding apply_config
  run_fixture_on decode fixture contents = elim (decode contents) [
    | err e ↦ run_failed (codes "parse collector config: " ++ e)
    | ok cfg ↦ (some (fixture_result fixture (apply_config lib fixture cfg)), none)
  ]

  unfoldable pub run_fixture :
      {pdata : Pdata}
      → (read_file : Text → Result Text Text) → (decode : Text → Result Text CollectorConfig)
      → RunRequest pdata
      → RunOutcome
  unfolding run_fixture_on
  run_fixture read_file decode req = elim req.fixture [
    | none ↦ run_failed (codes "fixture telemetry is required")
    | some fixture ↦
        if req.collector_config_path == []
        then run_failed (codes "collector config path is required")
        else elim (read_file req.collector_config_path) [
          | err e ↦ run_failed (codes "read collector config: " ++ e)
          | ok contents ↦ run_fixture_on decode fixture contents
        ]
  ]
