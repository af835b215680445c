-- ===== src/Cli/Fixture.antt =====
-- The exit code of a run by the fixture runner, from the files to the code: internal/cli/cli.go and
-- all that it calls.
use otel_policy_lab.Prelude.{
  ◌≡◌, ◌↔◌, refl, sym, ap, ◌∙◌, false, ◌&&◌, List, [], none, some, Text, codes, text_Eq, text_eq,
  ◌==◌, ok, map_err, ok-bind, if◌then◌else◌,
}
use otel_policy_lab.Telemetry.{Set}
use otel_policy_lab.Telemetry.Otlp.Accessors.{Pdata}
use otel_policy_lab.Telemetry.Otlp as Otlp
use otel_policy_lab.Policy.{Policy, is_nonempty}
use otel_policy_lab.Policy as Policy
use otel_policy_lab.Report.{Report, exit_code}
use otel_policy_lab.Evaluator.Run.{evaluate}
use otel_policy_lab.Runner.Fixture.Config.{CollectorConfig}
use otel_policy_lab.Runner.Fixture.{apply_config}
use otel_policy_lab.Runner.Run.{
  RunResult, choose_fixture, fixture_result, new_runner, run_fixture, run_fixture_on,
}
use otel_policy_lab.Verdict.{HasPatterns, Satisfies}
use otel_policy_lab.Verdict.Exit.{exit_code-evaluate}
use otel_policy_lab.Cli.Flags.{
  SetFlags, TestFlags, test_flags, bad_policy, no_runner, is_real, check_flags, runner_options,
}
use otel_policy_lab.Cli.Failing.{cannot_write, finish-eq}
use otel_policy_lab.Cli.{
  World, checks_of, by_signal, report_of, finish, after_run, validate_collector, load_fixture,
  run_chosen, request, test_with, code_of, run_test,
}

module _ {pdata : Pdata} (world : World pdata) where
  -- The flags ask for the fixture runner and for nothing that needs a Collector, and the three
  -- files can be read.
  pub record Reads (flags : TestFlags) (p : Policy) (fixture : Set) (cfg : CollectorConfig)
      : Type 0 where
    pub fixture_runner : flags.runner ≡ codes "fixture"
    pub is_checked : check_flags world.is_blank flags ≡ ok tt
    pub not_validated : flags.validate_collector ≡ false
    pub policy : Policy.load world.fs.read_file world.decode_policy flags.policy ≡ ok p
    pub telemetry : Otlp.load pdata world.decoder world.fs flags.input ≡ ok fixture
    pub contents : Text
    pub has_config : (flags.collector_config == []) ≡ false
    pub config : world.fs.read_file flags.collector_config ≡ ok contents
    pub decoded : world.decode_config contents ≡ ok cfg

  abbrev pub result_of : Set → CollectorConfig → RunResult
  result_of fixture cfg = fixture_result world.lib fixture (apply_config world.lib fixture cfg)

  abbrev pub the_report : TestFlags → Policy → Set → CollectorConfig → Report
  the_report flags p fixture cfg = report_of world flags p fixture none (result_of fixture cfg)

  load_fixture-eq :
      (flags : TestFlags) (p : Policy) (fixture : Set) (cfg : CollectorConfig)
      → Reads flags p fixture cfg
      → load_fixture world flags ≡ ok (fixture, none)
  unfolding load_fixture text_eq
  load_fixture-eq flags p fixture cfg r = rw (r.fixture_runner, r.telemetry) refl

  run_fixture_on-eq :
      (fixture : Set) (cfg : CollectorConfig) (contents : Text)
      → world.decode_config contents ≡ ok cfg
      → run_fixture_on world.lib world.decode_config fixture contents
        ≡ (some (result_of fixture cfg), none)
  unfolding run_fixture_on
  run_fixture_on-eq fixture cfg contents e = rw (run_fixture_on, e) refl

  run_chosen-eq :
      (flags : TestFlags) (p : Policy) (fixture : Set) (cfg : CollectorConfig)
      → Reads flags p fixture cfg
      → run_chosen world choose_fixture (request flags fixture none)
        ≡ (some (result_of fixture cfg), none)
  unfolding run_chosen run_fixture
  run_chosen-eq flags p fixture cfg r =
      rw (r.has_config, r.config) (run_fixture_on-eq fixture cfg r.contents r.decoded)

  not_validated-eq :
      (flags : TestFlags)
      → flags.validate_collector ≡ false
      → validate_collector world flags ≡ ok tt
  unfolding validate_collector
  not_validated-eq flags e = rw e refl

  new_fixture-eq :
      (flags : TestFlags)
      → flags.runner ≡ codes "fixture"
      → map_err no_runner (new_runner flags.runner (runner_options flags)) ≡ ok choose_fixture
  unfolding new_runner text_eq
  new_fixture-eq flags e = rw e refl

  test_with-eq :
      (flags : TestFlags) (p : Policy) (fixture : Set) (cfg : CollectorConfig)
      → Reads flags p fixture cfg
      → test_with world flags ≡ finish world flags (the_report flags p fixture cfg)
  unfolding test_with
  test_with-eq flags p fixture cfg r = ok-bind _ r.is_checked (
      ok-bind _ (not_validated-eq flags r.not_validated) (
        ok-bind _ (ap (map_err bad_policy) r.policy) (
          ok-bind _ (load_fixture-eq flags p fixture cfg r) (
            ok-bind _ (new_fixture-eq flags r.fixture_runner)
              (ap (after_run world flags p fixture) (run_chosen-eq flags p fixture cfg r))))))

  run_test-eq :
      (args : List Text) (set : SetFlags)
      → world.parse_test args ≡ some set
      → run_test world args ≡ code_of (test_with world (test_flags set))
  unfolding run_test
  run_test-eq args set e = rw e refl

  checks_of-eq :
      (flags : TestFlags) (p : Policy) (fixture : Set) (cfg : CollectorConfig)
      → flags.runner ≡ codes "fixture"
      → checks_of world (is_real flags) p fixture none (result_of fixture cfg)
        ≡ evaluate world.lib world.json p fixture
            (apply_config world.lib fixture cfg).output
            (apply_config world.lib fixture cfg).warnings
  unfolding checks_of evaluate by_signal text_eq
  checks_of-eq flags p fixture cfg e =
      ap (λ name. checks_of world (name == codes "otelcol") p fixture none (result_of fixture cfg))
        e

  -- The exit code of the report of a fixture run.
  the_report_iff :
      (flags : TestFlags) (p : Policy) (fixture : Set) (cfg : CollectorConfig)
      (patterns : HasPatterns world.lib p)
      → flags.runner ≡ codes "fixture"
      → (exit_code (the_report flags p fixture cfg) flags.fail_on_warn ≡ 0) ↔ (
          Satisfies world.lib world.json p patterns fixture
            (apply_config world.lib fixture cfg).output
          × ((flags.fail_on_warn && is_nonempty (apply_config world.lib fixture cfg).warnings)
              ≡ false))
  unfolding report_of
  the_report_iff flags p fixture cfg patterns e = rw (checks_of-eq flags p fixture cfg e) (
      exit_code-evaluate world.lib world.json p patterns fixture
        (apply_config world.lib fixture cfg).output (apply_config world.lib fixture cfg).warnings _
        _ _ _ _ _ flags.fail_on_warn)

  -- If the flags of the test command ask for the fixture runner and for no check by a Collector,
  -- the policy, the fixture and the configuration can be read, all patterns of the policy
  -- compile, and the report can be written where one is asked for, the command's exit code is 0
  -- exactly if the output of the simulated processors satisfies every section of the policy and
  -- it is not the case that warnings are to fail the run and there is a warning.
  pub run_test-fixture_iff :
      (args : List Text) (set : SetFlags) (p : Policy) (fixture : Set) (cfg : CollectorConfig)
      (patterns : HasPatterns world.lib p)
      → world.parse_test args ≡ some set
      → Reads (test_flags set) p fixture cfg
      → cannot_write world (test_flags set) (the_report (test_flags set) p fixture cfg) ≡ false
      → (run_test world args ≡ 0) ↔ (
          Satisfies world.lib world.json p patterns fixture
            (apply_config world.lib fixture cfg).output
          × (((test_flags set).fail_on_warn
                && is_nonempty (apply_config world.lib fixture cfg).warnings)
              ≡ false))
  unfolding run_test
  run_test-fixture_iff args set p fixture cfg patterns e r w =
      let flags = test_flags set in
      let rep = the_report flags p fixture cfg in
      let code : run_test world args ≡ exit_code rep flags.fail_on_warn =
        run_test-eq args set e
        ∙ ap code_of (test_with-eq flags p fixture cfg r)
        ∙ finish-eq world flags rep
        ∙ ap (λ b. if b then 2 else exit_code rep flags.fail_on_warn) w in
      let verdict = the_report_iff flags p fixture cfg patterns r.fixture_runner in
      (λ h. verdict.0 (sym code ∙ h), λ h. code ∙ verdict.1 h)
