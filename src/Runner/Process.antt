-- ===== src/Runner/Process.antt =====
-- internal/runner/process.go: the life of a child process, and what is told of it.
pub mod Stopped
pub mod Ready
use otel_policy_lab.Prelude.{
  ℕ, zero, suc, ◌+◌, ℤ, is_negative, Bool, true, false, not, ◌||◌, ◌&&◌, List, [], ◌∷◌, ◌++◌,
  Option, none, some, is_some, Text, codes, text_Eq, ◌==◌, Result, ok, err, if◌then◌else◌,
}
use otel_policy_lab.Diagnostics.{Diagnostics}
use otel_policy_lab.Runner.Topology.{Topology}
use otel_policy_lab.Runner.Topology.Sections.{is_component_id, type_of}
use otel_policy_lab.Runner.Topology.Yaml.{map_node, mapping_value}
use otel_policy_lab.Runner.Topology.Harness.{harness_id}

-- A started process: whether `done` is closed, the exit code that the system then has of it, and
-- whether it was forced.
pub record ChildProcess : Type 0 where
  pub exited : Bool
  pub exit_code : Option ℤ
  pub forced : Bool

-- What a call of `stop` meets: whether the process has exited when it is called, whether the
-- signals can be sent, which case of the first `select` is taken, and whether the process is reaped
-- before the cleanup deadline.
pub record StopWorld : Type 0 where
  pub exited_before : Bool
  pub can_terminate : Bool
  pub exits_in_time : Bool
  pub can_kill : Bool
  pub is_reaped : Bool
  pub code : Option ℤ

pub data StopError : Type 0 where
  cannot_signal cannot_terminate forced_termination not_reaped : StopError

-- The calls that `stop` makes on the process group, whether or not they succeed.
pub data GroupCall : Type 0 where
  terminate_group kill_group : GroupCall

-- How `stop` leaves the process, the error it returns, and the calls it has made, in their order.
pub record StopEnd : Type 0 where
  pub process : ChildProcess
  pub error : Option StopError
  pub calls : List GroupCall

abbrev pub exits : StopWorld → ChildProcess → ChildProcess
exits w p = record p { exited = true; exit_code = w.code }

abbrev pub force : ChildProcess → ChildProcess
force p = record p { forced = true }

-- The part of `stop` that forces the process to end.
unfoldable pub stop_forced : StopWorld → (graceful : Bool) → ChildProcess → StopEnd
stop_forced w graceful p =
    if not w.can_kill
    then record { process = force p; error = some cannot_terminate; calls = kill_group ∷ [] }
    else if not w.is_reaped
    then record { process = force p; error = some not_reaped; calls = kill_group ∷ [] }
    else record {
      process = exits w (force p);
      error = if graceful then some forced_termination else none;
      calls = kill_group ∷ [];
    }

-- The part that waits for a process that was asked to end.
unfoldable pub stop_graceful : StopWorld → ChildProcess → StopEnd
unfolding stop_forced
stop_graceful w p =
    let late = stop_forced w true p in
    if not w.can_terminate
    then record { process = p; error = some cannot_signal; calls = terminate_group ∷ [] }
    else if w.exits_in_time
    then record { process = exits w p; error = none; calls = terminate_group ∷ [] }
    else record late { calls = terminate_group ∷ late.calls }

-- `stop` without the deferred kill of the process group.
unfoldable pub stop_body : StopWorld → (graceful : Bool) → ChildProcess → StopEnd
unfolding stop_graceful
stop_body w graceful p =
    if w.exited_before
    then record { process = exits w p; error = none; calls = [] }
    else if graceful
    then stop_graceful w p
    else stop_forced w false p

-- The error of the deferred kill is dropped.
unfoldable pub stop : StopWorld → (graceful : Bool) → ChildProcess → StopEnd
unfolding stop_body
stop w graceful p =
    let end = stop_body w graceful p in record end { calls = end.calls ++ kill_group ∷ [] }

abbrev pub exit_status_of : ChildProcess → Text
exit_status_of p =
    if p.forced then codes "forced" else if p.exited then codes "exited" else codes "running"

abbrev pub is_signaled : ChildProcess → ℤ → Bool
is_signaled p code = is_negative code && not p.forced

unfoldable pub record_exit : ChildProcess → Diagnostics → Diagnostics
record_exit p d =
    let e : Diagnostics = record d { exit_status = exit_status_of p } in
    if not p.exited then e else elim p.exit_code [
      | none ↦ e
      | some code ↦ record e {
        exit_code = some code;
        exit_status = if is_signaled p code then codes "signaled" else e.exit_status;
      }
    ]

-- How the wait for the readiness marker ends: with the marker, with the end of the context, or
-- after the turns that are counted.
pub data WaitEnd : Type 0 where
  is_ready context_ended still_waiting : WaitEnd

-- The loop of `waitCollectorReadiness` from turn `i`: `ready i` is whether the marker has been
-- written by then, `ended i` whether the `select` of that turn takes the end of the context.
unfoldable pub wait_collector_readiness : (ready ended : ℕ → Bool) → ℕ → (i : ℕ) → WaitEnd
wait_collector_readiness ready ended zero i = still_waiting
wait_collector_readiness ready ended (suc turns) i =
    let rest = wait_collector_readiness ready ended turns (suc i) in
    if ready i then is_ready else if ended i then context_ended else rest

-- The loop of `missingComponentHint` over the matches of its pattern, each with its two groups.
unfoldable pub hint_of : Topology → List (Text × Text) → Text
unfolding is_component_id mapping_value map_node
hint_of t [] = []
hint_of t ((type_name, id) ∷ rest) =
    let more = hint_of t rest in
    if not (is_component_id id) || not (type_of id == type_name)
    then more
    else if id == harness_id
    then codes "; required harness component " ++ (id ++ codes " is unavailable")
    else if is_some (mapping_value (some (map_node t.processors)) id)
    then codes "; processor component " ++ (id ++ codes " is unavailable")
    else more

-- `find_all` is `FindAllStringSubmatch` of the pattern.
unfoldable pub missing_component_hint :
    (find_all : Text → List (Text × Text)) → Text → Topology → Text
unfolding hint_of
missing_component_hint find_all logs t = hint_of t (find_all logs)
