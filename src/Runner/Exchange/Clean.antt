-- ===== src/Runner/Exchange/Clean.antt =====
-- internal/runner/collector.go: what a run that reports no failure has done.
use otel_policy_lab.Prelude.{◌≡◌, refl, true, false, Option, none, some, ok, arith}
use otel_policy_lab.Runner.Process.{ChildProcess, stop}
use otel_policy_lab.Runner.Process.Stopped.{stop-succeeds}
use otel_policy_lab.Runner.Submission.{submit_fixture}
use otel_policy_lab.Runner.Startup.{RunFailure}
use otel_policy_lab.Runner.Exchange.{
  Exchange, Cleanup, settled, after_shutdown, settle_and_stop, exchange, clean_up, run_up,
}

-- Everything that can fail after the start has gone well.
pub record IsClean (x : Exchange) (c : Cleanup) (p : ChildProcess) : Type 0 where
  pub submitted : submit_fixture x.submission ≡ ok tt
  pub is_settled : x.settling ≡ settled
  pub lived : x.exited_after_settling ≡ false
  pub shut_down : (stop x.shutdown true p).error ≡ none
  pub exited_well : x.exited_badly ≡ false
  pub in_time : x.last_end ≡ none
  pub exported : x.has_export_failure ≡ false
  pub captured : c.capture_failure ≡ none
  pub removed : c.is_removed ≡ true

after_shutdown-none :
    (x : Exchange)
    → after_shutdown x ≡ none
    → (x.exited_badly ≡ false) × ((x.last_end ≡ none) × (x.has_export_failure ≡ false))
unfolding after_shutdown
after_shutdown-none x h = (ground arith, (ground arith, ground arith))

settle_and_stop-none :
    (x : Exchange) (p : ChildProcess)
    → (settle_and_stop x p).1 ≡ none
    → (x.settling ≡ settled)
      × ((x.exited_after_settling ≡ false)
          × (((stop x.shutdown true p).error ≡ none) × (after_shutdown x ≡ none)))
unfolding settle_and_stop
settle_and_stop-none x p h = ground arith

exchange-none :
    (x : Exchange) (p : ChildProcess)
    → (exchange x p).1 ≡ none
    → (submit_fixture x.submission ≡ ok tt) × ((settle_and_stop x p).1 ≡ none)
unfolding exchange
exchange-none x p h = ground arith

clean_up-none :
    (c : Cleanup) (p : ChildProcess) (f : Option RunFailure)
    → (clean_up c (p, f)).1 ≡ none
    → (f ≡ none) × ((c.capture_failure ≡ none) × (c.is_removed ≡ true))
unfolding clean_up
clean_up-none c p (some f) h = cc
clean_up-none c p none h = ground arith

-- If the run of a Collector that is up reports no failure, the Collector took the whole fixture,
-- the settling time passed with the Collector alive, it was shut down in time without an error
-- and without being forced, it has exited well and has reported no export failure, the capture
-- has recorded no failure, and the private directory is removed.
pub run_up-IsClean :
    (x : Exchange) (c : Cleanup) (p : ChildProcess)
    → (run_up x c p).1 ≡ none
    → IsClean x c p
      × (((stop x.shutdown true p).process.exited ≡ true)
          × ((stop x.shutdown true p).process.forced ≡ p.forced))
unfolding run_up
run_up-IsClean x c p h =
    let (e, (captured, removed)) = clean_up-none c (exchange x p).0 (exchange x p).1 h in
    let (submitted, later) = exchange-none x p e in
    let (is_settled, (lived, (shut_down, last))) = settle_and_stop-none x p later in
    let (exited_well, (in_time, exported)) = after_shutdown-none x last in
    let ends = stop-succeeds x.shutdown true p shut_down in
    (
      record {
        submitted = submitted;
        is_settled = is_settled;
        lived = lived;
        shut_down = shut_down;
        exited_well = exited_well;
        in_time = in_time;
        exported = exported;
        captured = captured;
        removed = removed;
      },
      (ends.0, ground (arith, ends.1)),
    )

-- The first failure of a run is the one that is reported.
pub run_up-first :
    (x : Exchange) (c : Cleanup) (p : ChildProcess) (f : RunFailure)
    → (exchange x p).1 ≡ some f
    → (run_up x c p).1 ≡ some f
unfolding run_up clean_up
run_up-first x c p f h = rw h refl
