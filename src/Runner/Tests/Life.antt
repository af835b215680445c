-- ===== src/Runner/Tests/Life.antt =====
-- Examples: a process that is stopped, a readiness marker and a submission.
use otel_policy_lab.Prelude.{
  codes, ◌∷◌, ℕ, ◌+◌, text_eq, ◌≡◌, ◌<◌, refl, Bool, true, false, leb, [], none, some, pos, negsuc,
  ok, arith,
}
use otel_policy_lab.Diagnostics.{Diagnostics}
use otel_policy_lab.Runner.Process.{
  ChildProcess, StopWorld, kill_group, stop, record_exit, is_ready, wait_collector_readiness,
}
use otel_policy_lab.Runner.Process.Stopped.{stop-ends}
use otel_policy_lab.Runner.Process.Ready.{wait_collector_readiness-ready}
use otel_policy_lab.Runner.Submission.{
  Submission, submit_fixture, submit_fixture_iff, Accepts, submitted_logs, submitted_traces,
  submitted_metrics,
}

abbrev pub running : ChildProcess
running = record { exited = false; exit_code = none; forced = false }

abbrev pub obedient : StopWorld
obedient = record {
  exited_before = false;
  can_terminate = true;
  exits_in_time = true;
  can_kill = true;
  is_reaped = true;
  code = some (pos 0);
}

-- A Collector that ignores the request to end and dies of the kill.
abbrev stubborn : StopWorld
stubborn = record obedient { exits_in_time = false; code = some (negsuc 0) }

abbrev unwritten : Diagnostics
unwritten = record {
  binary = [];
  version = [];
  binary_sha256 = [];
  harness_sha256 = [];
  pipelines = [];
  timings = [];
  start_timeout_ms = pos 0;
  run_timeout_ms = pos 0;
  settle_time_ms = pos 0;
  exit_status = [];
  exit_code = none;
  failure_category = [];
}

stop-ends_example :
    ((stop stubborn false running).calls ≡ kill_group ∷ kill_group ∷ [])
    × ((stop stubborn false running).error ≡ none
        → ((stop stubborn false running).process.exited ≡ true)
          × ((stop stubborn false running).process.forced ≡ true)
          × ((record_exit (stop stubborn false running).process unwritten).exit_status
              ≡ codes "forced")
          × ((record_exit (stop stubborn false running).process unwritten).exit_code
              ≡ some (negsuc 0)))
unfolding stop
stop-ends_example = stop-ends stubborn false running unwritten refl refl

no_error : (stop stubborn false running).error ≡ none
unfolding stop
no_error = refl

-- The marker is there at the fourth turn, the context ends at the sixth.
abbrev ready : ℕ → Bool
ready i = leb 3 i

abbrev ended : ℕ → Bool
ended i = leb 5 i

not_ended : (j : ℕ) → j < 3 → ended (0 + j) ≡ false
not_ended j h = ground arith

wait_collector_readiness-ready_example : wait_collector_readiness ready ended 10 0 ≡ is_ready
wait_collector_readiness-ready_example =
    wait_collector_readiness-ready ready ended 10 0 3 refl not_ended (omega arith)

abbrev pub accepted : Submission
accepted = record {
  count = λ signal. 1;
  size = λ signal. 10;
  export = λ signal. ok (record { rejected = pos 0; error_message = [] });
}

submits : submit_fixture accepted ≡ ok tt
unfolding submit_fixture text_eq
submits = refl

submit_fixture_iff_example :
    Accepts accepted submitted_logs
    × (Accepts accepted submitted_traces × Accepts accepted submitted_metrics)
submit_fixture_iff_example = (submit_fixture_iff accepted).0 submits
