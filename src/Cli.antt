-- ===== src/Cli.antt =====
-- internal/cli/cli.go: the commands, from the arguments to the exit code.
pub mod Flags
pub mod Metadata
pub mod Failing
pub mod Fixture
mod Tests
use otel_policy_lab.Prelude.{
  ℕ, Bool, true, false, not, ◌||◌, ◌&&◌, List, [], ◌∷◌, ◌++◌, Option, none, some, is_some, Text,
  codes, text_Eq, ◌==◌, Map, Result, ok, err, ◌>>=◌, ◌>>◌, map_err, if◌then◌else◌,
}
use otel_policy_lab.Library.{Library}
use otel_policy_lab.Files.{FileSystem}
use otel_policy_lab.Telemetry.{Json, Set, empty_set}
use otel_policy_lab.Telemetry.Otlp.Accessors.{Pdata}
use otel_policy_lab.Telemetry.Otlp.{Otlp, OtlpDecoder, normalize, load_otlp}
use otel_policy_lab.Telemetry.Otlp as Otlp
use otel_policy_lab.Policy.{Policy, is_nonempty}
use otel_policy_lab.Policy as Policy
use otel_policy_lab.Collector.{RunCommand, validate_config}
use otel_policy_lab.Report.Check.{
  CheckResult, Signal, logs, traces, metrics, pipeline, runner_execution, status_error,
}
use otel_policy_lab.Report.{Report, RunnerMetadata, build, exit_code}
use otel_policy_lab.Evaluator.Run.{Options, evaluate_with_options}
use otel_policy_lab.Runner.Fixture.Config.{CollectorConfig}
use otel_policy_lab.Runner.Run.{
  RunRequest, RunResult, RunnerOptions, RunOutcome, PipelineRunner, RunnerChoice, choose_fixture,
  choose_collector, new_runner, run_fixture,
}
use Flags.{
  ParseFlags, TestFlags, test_flags, CliError, bad_flags, flags_required, collector_invalid,
  bad_policy, bad_fixture, no_runner, pipeline_failed, write_failed, error_code, is_real,
  check_flags, runner_options, or_default,
}
use Metadata.{file_metadata, build_summary}

-- What a command finds around it: the libraries, the file system, the clock, the signals that end
-- the context, and the Collector runner behind its interface.
pub record World (pdata : Pdata) : Type 1 where
  pub lib : Library
  pub json : Json
  pub fs : FileSystem
  pub decoder : OtlpDecoder pdata
  pub decode_policy : Text → Result Text Policy
  pub decode_config : Text → Result Text CollectorConfig
  pub parse_test : ParseFlags
  pub parse_validate : ParseFlags
  pub is_blank : Text → Bool
  pub run_command : RunCommand
  pub collector : RunnerOptions → PipelineRunner pdata
  pub stopped : Bool
  pub interrupted : ℕ → Bool
  pub now : Text
  -- `report.WriteJSON`: the text of its error
  pub write_json : Text → Report → Option Text

-- The keys of `InconclusiveSignals` that a result's signal can equal.
unfoldable pub by_signal : Map Text (List Text) → Map Signal (List Text)
by_signal [] = []
by_signal ((k, reasons) ∷ rest) =
    let more = by_signal rest in
    if k == codes "logs"
    then (logs, reasons) ∷ more
    else if k == codes "traces"
    then (traces, reasons) ∷ more
    else if k == codes "metrics"
    then (metrics, reasons) ∷ more
    else more

abbrev pub collector_scope : Text
collector_scope =
    codes
      "fixture-local processor chains; production receivers, exporters and backend delivery excluded"

abbrev pub no_result : Text → Set → RunResult
no_result name fixture = record {
  runner_name = name;
  input = some fixture;
  output = some empty_set;
  runner_warnings = [];
  simulated_processors = [];
  unsupported_processors = [];
  diagnostics = none;
  inconclusive_reasons = [];
  inconclusive_signals = [];
}

-- The input that is evaluated and reported: that of the result, or the fixture where there is none
-- and where a real run failed.
abbrev pub input_of : Bool → Set → Option Text → RunResult → Set
input_of real fixture run_error r =
    if real && is_some run_error then fixture else or_default fixture r.input

abbrev pub output_of : RunResult → Set
output_of r = or_default empty_set r.output

abbrev pub options_of : Bool → RunResult → Options
options_of real r = record {
  require_applicable_input = real;
  unreliable_output_reasons = elim r.inconclusive_signals [
    | [] ↦ r.inconclusive_reasons
    | entry ∷ more ↦ []
  ];
  unreliable_signals = by_signal r.inconclusive_signals;
}

abbrev pub runner_metadata_of : Bool → RunResult → RunnerMetadata
runner_metadata_of real r = record {
  name = r.runner_name;
  simulated_processors = r.simulated_processors;
  unsupported_processors = r.unsupported_processors;
  execution = r.diagnostics;
  scope = if real then collector_scope else [];
}

-- The one check of a run that failed.
abbrev pub execution_error : Text → CheckResult
execution_error message = record {
  status = status_error;
  signal = pipeline;
  check = runner_execution;
  message = message;
  details = none;
}

-- The exit code of a command.
unfoldable pub code_of : Result CliError ℕ → ℕ
unfolding error_code
code_of (ok code) = code
code_of (err e) = error_code e

abbrev pub request : {pdata : Pdata} → TestFlags → Set → Option (Otlp pdata) → RunRequest pdata
request flags fixture raw = record {
  fixture_path = flags.input;
  collector_config_path = flags.collector_config;
  fixture = some fixture;
  raw = raw;
}

module _ {pdata : Pdata} (world : World pdata) where
  unfoldable pub validate_collector : TestFlags → Result CliError (Unit {0})
  unfolding validate_config
  validate_collector flags =
      if flags.validate_collector && not (is_real flags)
      then map_err collector_invalid (
          validate_config world.run_command flags.otelcol_bin flags.collector_config >>= λ r. ok tt)
      else ok tt

  unfoldable pub load_fixture : TestFlags → Result CliError (Set × Option (Otlp pdata))
  unfolding load_otlp normalize Otlp.load
  load_fixture flags = map_err bad_fixture (
      if is_real flags
      then (load_otlp pdata world.decoder world.fs flags.input >>= λ raw.
          ok (normalize pdata raw, some raw))
      else (Otlp.load pdata world.decoder world.fs flags.input >>= λ set. ok (set, none)))

  unfoldable pub run_chosen : RunnerChoice → RunRequest pdata → RunOutcome
  unfolding run_fixture
  run_chosen choose_fixture req = run_fixture world.lib world.fs.read_file world.decode_config req
  run_chosen (choose_collector options) req = (world.collector options).run req

  unfoldable pub checks_of :
      (real : Bool) (p : Policy) (fixture : Set) (run_error : Option Text) (r : RunResult)
      → List CheckResult
  unfolding evaluate_with_options by_signal
  checks_of real p fixture run_error r = elim run_error [
    | some message ↦ execution_error message ∷ []
    | none ↦
        evaluate_with_options world.lib world.json p (or_default fixture r.input) (output_of r)
          r.runner_warnings (options_of real r)
  ]

  unfoldable pub report_of :
      TestFlags → (p : Policy) (fixture : Set) (run_error : Option Text) → RunResult → Report
  unfolding checks_of build file_metadata build_summary
  report_of flags p fixture run_error r =
      build (checks_of (is_real flags) p fixture run_error r) (runner_metadata_of (is_real flags) r)
        (file_metadata world.fs world.stopped world.interrupted flags.input)
        (file_metadata world.fs world.stopped world.interrupted flags.policy)
        (file_metadata world.fs world.stopped world.interrupted flags.collector_config)
        (build_summary world.json (input_of (is_real flags) fixture run_error r) (output_of r))
        world.now

  -- The end of `runTest`: the report is written, and decides on the exit code.
  unfoldable pub finish : TestFlags → Report → Result CliError ℕ
  unfolding exit_code
  finish flags rep =
      if flags.report == []
      then ok (exit_code rep flags.fail_on_warn)
      else elim (world.write_json flags.report rep) [
        | some e ↦ err (write_failed e)
        | none ↦ ok (exit_code rep flags.fail_on_warn)
      ]

  -- What follows the run.
  unfoldable pub after_run : TestFlags → Policy → Set → RunOutcome → Result CliError ℕ
  unfolding finish report_of
  after_run flags p fixture (result, none) =
      finish flags
        (report_of flags p fixture none (or_default (no_result flags.runner fixture) result))
  after_run flags p fixture (result, some e) =
      if is_real flags
      then finish flags
          (report_of flags p fixture (some e) (or_default (no_result flags.runner fixture) result))
      else err (pipeline_failed e)

  unfoldable pub test_with : TestFlags → Result CliError ℕ
  unfolding check_flags validate_collector Policy.load load_fixture new_runner run_chosen after_run
  test_with flags = do
    check_flags world.is_blank flags
    validate_collector flags
    p ← map_err bad_policy (Policy.load world.fs.read_file world.decode_policy flags.policy)
    (fixture, raw) ← load_fixture flags
    choice ← map_err no_runner (new_runner flags.runner (runner_options flags))
    after_run flags p fixture (run_chosen choice (request flags fixture raw))

  unfoldable pub run_test : List Text → ℕ
  unfolding code_of test_with test_flags
  run_test args = code_of (elim (world.parse_test args) [
    | none ↦ err bad_flags
    | some set ↦ test_with (test_flags set)
  ])

  unfoldable pub validate_with : TestFlags → Result CliError ℕ
  unfolding validate_config
  validate_with flags =
      if flags.collector_config == []
      then err flags_required
      else (map_err collector_invalid
            (validate_config world.run_command flags.otelcol_bin flags.collector_config)
          >>= λ r. ok 0)

  unfoldable pub run_validate : List Text → ℕ
  unfolding code_of validate_with test_flags
  run_validate args = code_of (elim (world.parse_validate args) [
    | none ↦ err bad_flags
    | some set ↦ validate_with (test_flags set)
  ])

  -- The switch of `Run` on the command.
  unfoldable pub dispatch : Text → List Text → ℕ
  unfolding run_test run_validate
  dispatch command args =
      if command == codes "test"
      then run_test args
      else if command == codes "validate"
      then run_validate args
      else if command == codes "-v" || command == codes "--version" || command == codes "version"
      then 0
      else if command == codes "-h" || command == codes "--help" || command == codes "help"
      then 0
      else 2

  -- `Run`, on the arguments with the program's name first.
  unfoldable pub run : List Text → ℕ
  unfolding dispatch
  run [] = 2
  run (program ∷ []) = 2
  run (program ∷ command ∷ args) = dispatch command args
