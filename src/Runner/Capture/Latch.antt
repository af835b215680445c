-- ===== src/Runner/Capture/Latch.antt =====
-- The first failure of the capture is kept, and stops it.
use otel_policy_lab.Prelude.{
  ◌+◌, ◌≡◌, ◌≤◌, ◌↔◌, refl, true, List, [], ◌∷◌, none, some, is_some, arith,
}
use otel_policy_lab.Runner.Capture.{
  Pdata, Failure, Refusal, CaptureSink, Event, max_message_bytes, max_capture_bytes,
  max_capture_items, max_capture_requests, fail_locked, reserve, export_logs, export_traces,
  export_metrics, handle_rpc, step, run_sink, logs_request, traces_request, metrics_request,
  rpc_failed, server_failed, shutdown_late,
}

module _ (pdata : Pdata) where
  step-failed :
      (e : Event pdata) (s : CaptureSink pdata) (f : Failure)
      → s.failure ≡ some f
      → step pdata e s ≡ s
  unfolding step export_logs export_traces export_metrics handle_rpc reserve fail_locked
  step-failed (logs_request given) s f h = rw h refl
  step-failed (traces_request given) s f h = rw h refl
  step-failed (metrics_request given) s f h = rw h refl
  step-failed (rpc_failed exhausted) s f h = rw h refl
  step-failed server_failed s f h = rw h refl
  step-failed shutdown_late s f h = rw h refl

  -- Once a failure is recorded, no sequence of events changes the sink: the first failure stays,
  -- and no telemetry is captured any more.
  pub run_sink-failed :
      (events : List (Event pdata)) (s : CaptureSink pdata) (f : Failure)
      → s.failure ≡ some f
      → run_sink pdata events s ≡ s
  unfolding run_sink
  run_sink-failed [] s f h = refl
  run_sink-failed (e ∷ events) s f h = rw (step-failed e s f h) (run_sink-failed events s f h)

  -- An export of logs is accepted exactly if no failure is recorded, its size is within the
  -- limit of a message, and the bytes, items and requests with it are within the limits of the
  -- capture.
  pub export_logs-accepts_iff :
      (given : pdata.log_slice.Data) (s : CaptureSink pdata)
      → ((export_logs pdata given s).1 ≡ none) ↔ (
          (s.failure ≡ none)
          × (pdata.log_slice.size given ≤ max_message_bytes)
          × (s.bytes + pdata.log_slice.size given ≤ max_capture_bytes)
          × (s.items + pdata.log_slice.count given ≤ max_capture_items)
          × (s.requests + 1 ≤ max_capture_requests))
  unfolding export_logs reserve
  export_logs-accepts_iff given s = ground arith

  -- If an export of logs is refused, a failure is recorded afterwards, and the captured logs and
  -- the three counters are unchanged.
  pub export_logs-refused :
      (given : pdata.log_slice.Data) (s : CaptureSink pdata) (r : Refusal)
      → (export_logs pdata given s).1 ≡ some r
      → (is_some (export_logs pdata given s).0.failure ≡ true)
        × ((export_logs pdata given s).0.raw_logs ≡ s.raw_logs)
        × ((export_logs pdata given s).0.bytes ≡ s.bytes)
        × ((export_logs pdata given s).0.items ≡ s.items)
        × ((export_logs pdata given s).0.requests ≡ s.requests)
  unfolding export_logs reserve fail_locked
  export_logs-refused given s r h = ground arith
