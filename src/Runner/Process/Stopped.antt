-- ===== src/Runner/Process/Stopped.antt =====
-- internal/runner/process.go: how `stop` leaves a process, the calls it makes on its group, and what
-- `record` then tells of the exit.
use otel_policy_lab.Prelude.{
  ◌≡◌, Bool, true, false, not, ◌||◌, ◌&&◌, List, [], ◌∷◌, none, some, Text, codes, text_Eq, arith,
  is_negative, if◌then◌else◌,
}
use otel_policy_lab.Diagnostics.{Diagnostics}
use otel_policy_lab.Runner.Process.{
  ChildProcess, StopWorld, GroupCall, terminate_group, kill_group, stop, record_exit,
}

-- The calls of `stop` as its outcome tells them: the request to end, where there is one, the kill of a
-- process that is forced, and the deferred kill.
abbrev pub expected_calls : (is_asked is_forced : Bool) → List GroupCall
expected_calls true true = terminate_group ∷ kill_group ∷ kill_group ∷ []
expected_calls true false = terminate_group ∷ kill_group ∷ []
expected_calls false true = kill_group ∷ kill_group ∷ []
expected_calls false false = kill_group ∷ []

pub stop-succeeds :
    (w : StopWorld) (graceful : Bool) (p : ChildProcess)
    → (stop w graceful p).error ≡ none
    → ((stop w graceful p).process.exited ≡ true)
      × ((stop w graceful p).process.forced ≡ (p.forced || not w.exited_before && not graceful))
unfolding stop
stop-succeeds w graceful p h = ground arith

abbrev pub status_after : StopWorld → (graceful : Bool) → Text
status_after w graceful =
    if not w.exited_before && not graceful then codes "forced" else elim w.code [
      | none ↦ codes "exited"
      | some code ↦ if is_negative code then codes "signaled" else codes "exited"
    ]

record_exit-stop :
    (w : StopWorld) (graceful : Bool) (p : ChildProcess) (d : Diagnostics)
    → p.forced ≡ false
    → (stop w graceful p).error ≡ none
    → d.exit_code ≡ none
    → ((record_exit (stop w graceful p).process d).exit_status ≡ status_after w graceful)
      × ((record_exit (stop w graceful p).process d).exit_code ≡ w.code)
unfolding stop record_exit
record_exit-stop w graceful p d f e c = ground arith

-- For a process that was not forced before and diagnostics without an exit code: stopping the
-- process asks its group to end if the process is alive and the stop is graceful, then has the
-- group killed if the process is forced, and has it killed last in every case, and makes no
-- other calls. If no error is reported, the process has exited, it was forced exactly if it was
-- alive and the stop was not graceful, the exit code that is recorded is the one that the system
-- has, and the status that is recorded says whether the process was forced, ended by a signal,
-- or exited.
pub stop-ends :
    (w : StopWorld) (graceful : Bool) (p : ChildProcess) (d : Diagnostics)
    → p.forced ≡ false
    → d.exit_code ≡ none
    → ((stop w graceful p).calls
        ≡ expected_calls (not w.exited_before && graceful) (stop w graceful p).process.forced)
      × ((stop w graceful p).error ≡ none
          → ((stop w graceful p).process.exited ≡ true)
            × ((stop w graceful p).process.forced ≡ (not w.exited_before && not graceful))
            × ((record_exit (stop w graceful p).process d).exit_status ≡ status_after w graceful)
            × ((record_exit (stop w graceful p).process d).exit_code ≡ w.code))
unfolding stop
stop-ends w graceful p d f c = (
  ground arith,
  λ e.
      let (exited, forced) = stop-succeeds w graceful p e in
      let (status, code) = record_exit-stop w graceful p d f e c in
      (exited, ground (arith, forced), status, code),
)
