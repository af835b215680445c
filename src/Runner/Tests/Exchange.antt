-- ===== src/Runner/Tests/Exchange.antt =====
-- Examples: a Collector that takes the fixture and ends when it is asked to.
use otel_policy_lab.Prelude.{◌≡◌, refl, true, false, none, text_eq}
use otel_policy_lab.Runner.Process.{stop}
use otel_policy_lab.Runner.Exchange.{Exchange, Cleanup, settled, run_up}
use otel_policy_lab.Runner.Exchange.Clean.{IsClean, run_up-IsClean}
use otel_policy_lab.Runner.Tests.Life.{running, obedient, accepted}

abbrev quiet : Exchange
quiet = record {
  submission = accepted;
  end_at_submission = none;
  capture_at_submission = none;
  settling = settled;
  exited_after_settling = false;
  shutdown = obedient;
  end_at_shutdown = none;
  exited_badly = false;
  last_end = none;
  has_export_failure = false;
}

abbrev tidy : Cleanup
tidy = record {
  stopping = record obedient { exited_before = true };
  capture_failure = none;
  is_removed = true;
}

succeeds : (run_up quiet tidy running).1 ≡ none
unfolding run_up text_eq
succeeds = refl

run_up-IsClean_example :
    IsClean quiet tidy running
    × (((stop obedient true running).process.exited ≡ true)
        × ((stop obedient true running).process.forced ≡ false))
run_up-IsClean_example = run_up-IsClean quiet tidy running succeeds
