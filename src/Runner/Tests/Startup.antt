-- ===== src/Runner/Tests/Startup.antt =====
-- Examples: a Collector that meets an address in use once, and is up the second time.
use otel_policy_lab.Prelude.{
  ℕ, ◌≡◌, refl, true, false, [], none, some, codes, ok, text_eq, ltb, if◌then◌else◌,
}
use otel_policy_lab.Runner.Topology.{no_topology}
use otel_policy_lab.Runner.Startup.{Attempt, Startup, startup}
use otel_policy_lab.Runner.Startup.Attempts.{EndsWell, startup-EndsWell}

abbrev the_run : Startup
the_run = record {
  lower = λ s. s;
  find_components = λ s. [];
  split = λ endpoint. some (codes "127.0.0.1");
  marshal = λ n. ok (codes "receivers: ...");
  topology = no_topology;
  capture_endpoint = codes "127.0.0.1:4318";
}

abbrev conflict : Attempt
conflict = record {
  is_late = false;
  endpoint = some (codes "127.0.0.1:4317");
  is_written = true;
  start_error = none;
  is_ready = false;
  exited = true;
  exited_later = true;
  logs = codes "listen tcp: bind: address already in use";
  capture_failure = none;
  run_end = none;
}

abbrev up : Attempt
up = record conflict { is_ready = true; exited = false; exited_later = false; logs = [] }

abbrev attempts : ℕ → Attempt
attempts n = if ltb n 1 then conflict else up

up_at_second : startup the_run attempts ≡ record { spawned = 2; stopped = 1; outcome = some (ok 1) }
unfolding startup text_eq
up_at_second = refl

three_conflicts : (startup the_run (λ n. conflict)).stopped ≡ 3
unfolding startup text_eq
three_conflicts = refl

startup-EndsWell_example : EndsWell the_run attempts 0 (startup the_run attempts)
startup-EndsWell_example = startup-EndsWell the_run attempts
