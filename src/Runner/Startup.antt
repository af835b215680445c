-- ===== src/Runner/Startup.antt =====
-- internal/runner/collector.go: the loop of `CollectorRunner.Run` that starts the Collector, and the
-- categories of its failures.
pub mod Attempts
use otel_policy_lab.Prelude.{
  ℕ, zero, suc, ◌+◌, ltb, Bool, true, false, not, ◌||◌, ◌&&◌, List, [], ◌∷◌, ◌++◌, Option, none,
  some, is_some, Text, codes, text_Eq, ◌==◌, Result, ok, err, if◌then◌else◌,
}
use otel_policy_lab.Runner.Capture.{
  Failure, capture_limit, capture_transport, capture_server, capture_shutdown,
}
use otel_policy_lab.Runner.PrivateBuffer.{
  ProcessFailure, bind_conflict, missing_component, invalid_config, process_exit, process_failure,
}
use otel_policy_lab.Runner.Process.{missing_component_hint}
use otel_policy_lab.Runner.Topology.{Topology}
use otel_policy_lab.Runner.Topology.Yaml.{Node}
use otel_policy_lab.Runner.Topology.Harness.{
  SplitHost, HarnessError, not_loopback, marshal_failed, harness,
}

unfoldable pub process_category : ProcessFailure → Text
process_category bind_conflict = codes "bind_conflict"
process_category missing_component = codes "missing_component"
process_category invalid_config = codes "invalid_config"
process_category process_exit = codes "process_exit"

unfoldable pub capture_category : Failure → Text
capture_category capture_limit = codes "capture_limit"
capture_category capture_transport = codes "capture_transport"
capture_category capture_server = codes "capture_server"
capture_category capture_shutdown = codes "capture_shutdown"

-- `ctx.Err()`, where it is not nil
pub data ContextEnd : Type 0 where
  canceled deadline_exceeded : ContextEnd

unfoldable pub context_category : ContextEnd → Text
context_category canceled = codes "canceled"
context_category deadline_exceeded = codes "run_timeout"

-- The two arguments of `fail`.
pub record RunFailure : Type 0 where
  pub category : Text
  pub message : Text

-- What one turn of the loop meets.
pub record Attempt : Type 0 where
  -- `startupCtx` has ended
  pub is_late : Bool
  -- the reserved loopback endpoint
  pub endpoint : Option Text
  -- the harness file could be written
  pub is_written : Bool
  -- the error of `startProcess`
  pub start_error : Option Text
  -- `connectReceiver` and `waitCollectorReadiness` ended without an error
  pub is_ready : Bool
  -- the process has exited, as seen when readiness is there and after that
  pub exited : Bool
  pub exited_later : Bool
  pub logs : Text
  pub capture_failure : Option Failure
  -- `runCtx` has ended
  pub run_end : Option ContextEnd

pub data AttemptEnd : Type 0 where
  started : AttemptEnd
  try_again : AttemptEnd
  failed : RunFailure → AttemptEnd

-- How many processes were started and stopped in the loop, and how it ended: `none` is the loop that
-- runs out, without a connection.
pub record StartupEnd : Type 0 where
  pub spawned : ℕ
  pub stopped : ℕ
  pub outcome : Option (Result RunFailure ℕ)

abbrev pub refusal : Text → Text → RunFailure
refusal category message = record { category = category; message = message }

abbrev pub attempt_failed : Text → Text → AttemptEnd
attempt_failed category message = failed (refusal category message)

abbrev pub harness_message : HarnessError → Text
harness_message not_loopback = codes "harness endpoints must bind IPv4 loopback"
harness_message (marshal_failed e) = e

-- What the loop uses of the run: the functions of libraries, the topology and the endpoint of the
-- capture.
pub record Startup : Type 0 where
  pub lower : Text → Text
  pub find_components : Text → List (Text × Text)
  pub split : SplitHost
  pub marshal : Node → Result Text Text
  pub topology : Topology
  pub capture_endpoint : Text

module _ (run : Startup) where
  abbrev pub hint_for : ProcessFailure → Text → Text
  hint_for missing_component logs = missing_component_hint run.find_components logs run.topology
  hint_for _ logs = []

  -- The branch of a process that exited during startup, in turn `n`.
  unfoldable pub exited_early : ℕ → Text → AttemptEnd
  unfolding process_failure process_category missing_component_hint
  exited_early n logs =
      let category = process_failure run.lower logs in
      let name = process_category category in
      if name == codes "bind_conflict" && ltb n 2
      then try_again
      else attempt_failed name (
          codes "Collector exited during startup ("
          ++ (name
              ++ (codes ")"
                  ++ (hint_for category logs
                      ++ codes "; verify binary components and processor configuration"))))

  -- The part of the loop's body that follows the start of the process.
  unfoldable pub after_start : ℕ → Attempt → AttemptEnd
  unfolding exited_early capture_category context_category
  after_start n a =
      if a.is_ready && not a.exited
      then started
      else if a.exited_later
      then exited_early n a.logs
      else elim a.capture_failure [
        | some f ↦
            attempt_failed (capture_category f)
              (codes "local capture failed during Collector startup")
        | none ↦ elim a.run_end [
          | some e ↦
              attempt_failed (context_category e)
                (codes "overall deadline or cancellation interrupted Collector startup")
          | none ↦ attempt_failed (codes "startup_timeout") (
              codes
                "Collector did not provide OTLP and standard lifecycle readiness before the startup deadline")
        ]
      ]

  -- The part of the loop's body before the process is started; `none` goes on.
  unfoldable pub before_start : Attempt → Option RunFailure
  unfolding harness
  before_start a =
      if a.is_late
      then some (
          refusal (codes "startup_timeout")
            (codes "Collector did not become ready before the startup deadline"))
      else elim a.endpoint [
        | none ↦ some (
            refusal (codes "receiver_address")
              (codes "cannot reserve a loopback receiver endpoint"))
        | some endpoint ↦
            elim (harness run.split run.marshal run.topology endpoint run.capture_endpoint) [
              | err e ↦ some (refusal (codes "harness_config") (harness_message e))
              | ok text ↦
                  if not a.is_written
                  then some (
                      refusal (codes "harness_io")
                        (codes "cannot write the private harness configuration"))
                  else elim a.start_error [
                    | some e ↦ some (refusal (codes "process_start") e)
                    | none ↦ none
                  ]
            ]
      ]

  abbrev pub startup_end : ℕ → ℕ → Option (Result RunFailure ℕ) → StartupEnd
  startup_end spawned stopped outcome = record {
    spawned = spawned;
    stopped = stopped;
    outcome = outcome;
  }

  -- A process that exited is stopped in its turn.
  abbrev pub stops : Attempt → ℕ
  stops a = if a.exited_later then 1 else 0

  -- What follows a turn, by what its two parts say and how many processes it stopped; `rest` is the
  -- rest of the loop.
  unfoldable pub after_turn :
      (n spawned stopped stops : ℕ)
      → Option RunFailure
      → AttemptEnd
      → (rest : StartupEnd) → StartupEnd
  after_turn n spawned stopped stops (some f) e rest = startup_end spawned stopped (some (err f))
  after_turn n spawned stopped stops none started rest =
      startup_end (suc spawned) stopped (some (ok n))
  after_turn n spawned stopped stops none try_again rest = rest
  after_turn n spawned stopped stops none (failed f) rest =
      startup_end (suc spawned) (stopped + stops) (some (err f))

  -- The loop, with so many turns left, from turn `n`.
  unfoldable pub start_collector :
      (attempts : ℕ → Attempt) → (left n spawned stopped : ℕ) → StartupEnd
  unfolding before_start after_start after_turn
  start_collector attempts zero n spawned stopped = startup_end spawned stopped none
  start_collector attempts (suc left) n spawned stopped =
      after_turn n spawned stopped (stops (attempts n)) (before_start (attempts n))
        (after_start n (attempts n))
        (start_collector attempts left (suc n) (suc spawned) (suc stopped))

  -- The loop of the run: three turns.
  unfoldable pub startup : (attempts : ℕ → Attempt) → StartupEnd
  unfolding start_collector
  startup attempts = start_collector attempts 3 0 0 0
