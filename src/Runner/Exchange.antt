-- ===== src/Runner/Exchange.antt =====
-- internal/runner/collector.go: what `CollectorRunner.Run` does once the Collector is up, and the
-- deferred cleanup.
pub mod Clean
use otel_policy_lab.Prelude.{
  Bool, true, false, not, [], ◌++◌, Option, none, some, Text, codes, Result, ok, err, if◌then◌else◌,
}
use otel_policy_lab.Runner.Capture.{Failure}
use otel_policy_lab.Runner.Process.{
  ChildProcess, StopWorld, StopError, cannot_signal, cannot_terminate, forced_termination,
  not_reaped, stop, StopEnd,
}
use otel_policy_lab.Runner.Submission.{
  Submission, SubmissionError, SubmittedSignal, submitted_logs, submitted_traces, submitted_metrics,
  submission_failed, submitted_partially, submit_fixture,
}
use otel_policy_lab.Runner.Startup.{
  RunFailure, refusal, ContextEnd, context_category, capture_category,
}

-- The case that the `select` of the settling takes.
pub data SettleEnd : Type 0 where
  settling_interrupted : ContextEnd → SettleEnd
  settling_exited : SettleEnd
  settling_capture_failed : Failure → SettleEnd
  settled : SettleEnd

-- What the phases after the start meet, one after the other.
pub record Exchange : Type 0 where
  pub submission : Submission
  pub end_at_submission : Option ContextEnd
  pub capture_at_submission : Option Failure
  pub settling : SettleEnd
  pub exited_after_settling : Bool
  pub shutdown : StopWorld
  pub end_at_shutdown : Option ContextEnd
  -- `process.err` is not nil
  pub exited_badly : Bool
  pub last_end : Option ContextEnd
  pub has_export_failure : Bool

abbrev pub signal_name : SubmittedSignal → Text
signal_name submitted_logs = codes "logs"
signal_name submitted_traces = codes "traces"
signal_name submitted_metrics = codes "metrics"

abbrev pub submission_message : SubmissionError → Text
submission_message (submission_failed s) =
    codes "OTLP " ++ (signal_name s ++ codes " submission failed; acceptance is uncertain")
submission_message (submitted_partially s) =
    codes "OTLP " ++ (signal_name s ++ codes " submission returned partial success")

abbrev pub stop_message : StopError → Text
stop_message cannot_signal = codes "cannot signal Collector process group"
stop_message cannot_terminate = codes "cannot terminate Collector process group"
stop_message forced_termination = codes "Collector required forced termination during shutdown"
stop_message not_reaped = codes "Collector process could not be reaped within the cleanup deadline"

-- How the process stands and what the run has failed with.
abbrev pub RunEnd : Type 0
RunEnd = ChildProcess × Option RunFailure

abbrev pub interrupted_by : ContextEnd → Text → RunFailure
interrupted_by e phase =
    refusal (context_category e) (codes "overall deadline or cancellation interrupted " ++ phase)

-- The checks after a graceful stop without an error.
unfoldable pub after_shutdown : Exchange → Option RunFailure
unfolding context_category
after_shutdown x =
    if x.exited_badly
    then some
        (refusal (codes "process_exit") (codes "Collector exited unsuccessfully during shutdown"))
    else elim x.last_end [
      | some e ↦ some (interrupted_by e (codes "the run"))
      | none ↦
          if x.has_export_failure
          then some
              (refusal (codes "export") (codes "Collector reported an export or shutdown failure"))
          else none
    ]

-- The failure of a graceful stop with an error.
unfoldable pub shutdown_failure : Exchange → StopError → RunFailure
unfolding context_category
shutdown_failure x e = elim x.end_at_shutdown [
  | some c ↦ interrupted_by c (codes "graceful shutdown")
  | none ↦ refusal (codes "shutdown") (stop_message e)
]

abbrev pub shutdown_end : Exchange → StopEnd → RunEnd
shutdown_end x end = elim end.error [
  | none ↦ (end.process, after_shutdown x)
  | some e ↦ (end.process, some (shutdown_failure x e))
]

-- The settling and what follows it.
unfoldable pub settle_and_stop : Exchange → ChildProcess → RunEnd
unfolding stop after_shutdown shutdown_failure capture_category context_category
settle_and_stop x p = elim x.settling [
  | settling_interrupted e ↦ (p, some (interrupted_by e (codes "settling")))
  | settling_exited ↦ (
    record p { exited = true },
    some (
        refusal (codes "process_exit")
          (codes "Collector exited before the settling interval completed")),
  )
  | settling_capture_failed f ↦
      (p, some (refusal (capture_category f) (codes "local capture failed during settling")))
  | settled ↦
      if x.exited_after_settling
      then (
        record p { exited = true },
        some (refusal (codes "process_exit") (codes "Collector exited before graceful shutdown")),
      )
      else shutdown_end x (stop x.shutdown true p)
]

-- The failure of a submission with an error.
unfoldable pub submission_failure : Exchange → SubmissionError → RunFailure
unfolding context_category capture_category
submission_failure x e = elim x.end_at_submission [
  | some c ↦ interrupted_by c (codes "OTLP submission")
  | none ↦ elim x.capture_at_submission [
    | some f ↦ refusal (capture_category f) (codes "local capture failed during OTLP submission")
    | none ↦ refusal (codes "submission") (submission_message e)
  ]
]

unfoldable pub exchange : Exchange → ChildProcess → RunEnd
unfolding submit_fixture submission_failure settle_and_stop
exchange x p = elim (submit_fixture x.submission) [
  | err e ↦ (p, some (submission_failure x e))
  | ok done ↦ settle_and_stop x p
]

-- What the deferred functions meet: the stop of the process, the failure that the sink has
-- recorded once it is closed, and whether the private directory can be removed.
pub record Cleanup : Type 0 where
  pub stopping : StopWorld
  pub capture_failure : Option Failure
  pub is_removed : Bool

abbrev pub first_failure : Option RunFailure → Option RunFailure → Option RunFailure
first_failure (some f) later = some f
first_failure none later = later

-- The failure that stopping the process in the cleanup counts as; none for a process that has
-- exited before.
abbrev pub stop_failure : Bool → Option StopError → Option RunFailure
stop_failure true e = none
stop_failure false none = none
stop_failure false (some e) = some (refusal (codes "cleanup") (stop_message e))

unfoldable pub clean_up : Cleanup → RunEnd → RunEnd
unfolding stop capture_category
clean_up c (p, failure) =
    let end = stop c.stopping false p in
    let stopped = first_failure failure (stop_failure c.stopping.exited_before end.error) in
    let captured = first_failure stopped (elim c.capture_failure [
      | none ↦ none
      | some f ↦
          some (
            refusal (capture_category f) (codes "local OTLP capture failed or exceeded its limits"))
    ]) in
    let removed = first_failure captured (
      if c.is_removed
      then none
      else some
          (refusal (codes "cleanup") (codes "cannot remove the private harness directory"))) in
    (end.process, removed)

-- The run from the moment that the Collector is up.
unfoldable pub run_up : Exchange → Cleanup → ChildProcess → RunEnd
unfolding exchange clean_up
run_up x c p = clean_up c (exchange x p)
