-- ===== src/Cli/Tests.antt =====
-- Examples: commands in a world with one file, with the sample policy.
use otel_policy_lab.Prelude.{
  ◌≡◌, ◌↔◌, refl, true, false, ◌&&◌, List, [], ◌∷◌, none, some, Text, codes, text_Eq, text_eq,
  lookup, ok, if◌then◌else◌,
}
use otel_policy_lab.Samples.{literals, plain, rules}
use otel_policy_lab.Samples.Otlp.{pairs, decoder, one_file, logs_only}
use otel_policy_lab.Telemetry.{Set}
use otel_policy_lab.Telemetry.Otlp.{normalize}
use otel_policy_lab.Telemetry.Otlp as Otlp
use otel_policy_lab.Policy as Policy
use otel_policy_lab.Policy.{is_nonempty}
use otel_policy_lab.Runner.Fixture.Config.{CollectorConfig}
use otel_policy_lab.Runner.Fixture.{apply_config}
use otel_policy_lab.Verdict.{Satisfies}
use otel_policy_lab.Verdict.Tests.{rules-HasPatterns}
use otel_policy_lab.Cli.Flags.{SetFlags, TestFlags, test_flags, check_flags}
use otel_policy_lab.Cli.Fixture.{Reads, run_test-fixture_iff}
use otel_policy_lab.Cli.Failing.{failed_report, cannot_write, after_run-failed}
use otel_policy_lab.Cli.{World, after_run, code_of, run_test}

abbrev set : SetFlags
set = record {
  texts =
      (codes "collector-config", codes "collector.yaml")
      ∷ (codes "input", codes "fixture.json")
      ∷ (codes "policy", codes "policy.yaml")
      ∷ [];
  switches = [];
  durations = [];
}

abbrev empty_config : CollectorConfig
empty_config = record { processors = []; pipelines = [] }

abbrev world : World pairs
world = record {
  lib = literals;
  json = plain;
  fs = one_file;
  decoder = decoder;
  decode_policy = λ s. ok rules;
  decode_config = λ s. ok empty_config;
  parse_test = λ args. some set;
  parse_validate = λ args. none;
  is_blank = λ s. false;
  run_command = λ binary args. record { error = none; output = []; deadline_exceeded = false };
  collector = λ options. record { run = λ req. (none, some (codes "Collector runner: no")) };
  stopped = false;
  interrupted = λ i. false;
  now = codes "12:00";
  write_json = λ path rep. none;
}

abbrev flags : TestFlags
unfolding test_flags
flags = test_flags set

loaded : Set
loaded = normalize pairs logs_only

reads : Reads world (test_flags set) rules loaded empty_config
unfolding loaded test_flags lookup text_eq check_flags Policy.load Otlp.load Policy.parse
    Policy.validate Policy.has_assertions Policy.normalize_preserve_expression Policy.squeeze
reads = record {
  fixture_runner = refl;
  is_checked = refl;
  not_validated = refl;
  policy = refl;
  telemetry = refl;
  contents = codes "{}";
  has_config = refl;
  config = refl;
  decoded = refl;
}

abbrev arguments : List Text
arguments = codes "--policy" ∷ codes "policy.yaml" ∷ []

run_test-fixture_iff_example : (run_test world arguments ≡ 0) ↔ (
    Satisfies literals plain rules rules-HasPatterns loaded
      (apply_config literals loaded empty_config).output
    × (((test_flags set).fail_on_warn
          && is_nonempty (apply_config literals loaded empty_config).warnings)
        ≡ false))
unfolding test_flags text_eq
run_test-fixture_iff_example =
    run_test-fixture_iff world arguments set rules loaded empty_config rules-HasPatterns refl reads
      refl

-- A Collector run that failed without a result.
abbrev collector_flags : TestFlags
collector_flags = record flags { runner = codes "otelcol"; report = codes "report.json" }

after_run-failed_example :
    code_of
      (after_run world collector_flags rules loaded (none, some (codes "Collector runner: no")))
    ≡ (if true
          && cannot_write world collector_flags
              (failed_report world collector_flags rules loaded (codes "Collector runner: no") none)
        then 2
        else 3)
unfolding text_eq
after_run-failed_example =
    after_run-failed world collector_flags rules loaded (codes "Collector runner: no") none
