-- ===== src/Runner/Capture/Limits.antt =====
-- The limits of the capture hold at all times.
use otel_policy_lab.Prelude.{◌+◌, ◌≡◌, ◌≤◌, refl, List, [], ◌∷◌, is_some, arith, if◌then◌else◌}
use otel_policy_lab.Runner.Capture.{
  Slice, Pdata, Failure, CaptureSink, Event, max_capture_bytes, max_capture_items,
  max_capture_requests, start_capture, fail_locked, reserve, export_logs, export_traces,
  export_metrics, handle_rpc, step, run_sink, logs_request, traces_request, metrics_request,
  rpc_failed, server_failed, shutdown_late,
}

-- Appending adds the counts up, and nothing counts as zero.
pub record IsCounted (p : Slice) : Type 0 where
  pub count_nothing : p.count p.nothing ≡ 0
  pub count_append :
      (dest given : p.Data) → p.count (p.append_to dest given) ≡ p.count dest + p.count given

module _ (pdata : Pdata) where
  -- The counters are within their limits, the items are those that the sink holds, and the failure
  -- channel was closed once if there was a failure and never otherwise.
  pub record IsCapture (s : CaptureSink pdata) : Type 0 where
    pub bytes_le : s.bytes ≤ max_capture_bytes
    pub items_le : s.items ≤ max_capture_items
    pub requests_le : s.requests ≤ max_capture_requests
    pub items_eq :
        s.items
        ≡ pdata.log_slice.count s.raw_logs
          + pdata.trace_slice.count s.raw_traces
          + pdata.metric_slice.count s.raw_metrics
    pub closes_eq : s.failed_closes ≡ (if is_some s.failure then 1 else 0)

  fail_locked-IsCapture :
      (f : Failure) (s : CaptureSink pdata) → IsCapture s → IsCapture (fail_locked pdata f s)
  unfolding fail_locked
  fail_locked-IsCapture f s h = record {
    bytes_le = ground (arith, h.bytes_le);
    items_le = ground (arith, h.items_le);
    requests_le = ground (arith, h.requests_le);
    items_eq = ground (arith, h.items_eq);
    closes_eq = ground (arith, h.closes_eq);
  }

module _ (pdata : Pdata) (lc : IsCounted pdata.log_slice) (tc : IsCounted pdata.trace_slice)
    (mc : IsCounted pdata.metric_slice) where
  export_logs-IsCapture :
      (given : pdata.log_slice.Data) (s : CaptureSink pdata)
      → IsCapture pdata s
      → IsCapture pdata (export_logs pdata given s).0
  unfolding export_logs reserve fail_locked
  export_logs-IsCapture given s h = record {
    bytes_le = ground (arith, h.bytes_le);
    items_le = ground (arith, h.items_le);
    requests_le = ground (arith, h.requests_le);
    items_eq = ground (arith, h.items_eq, lc.count_append s.raw_logs given);
    closes_eq = ground (arith, h.closes_eq);
  }

  export_traces-IsCapture :
      (given : pdata.trace_slice.Data) (s : CaptureSink pdata)
      → IsCapture pdata s
      → IsCapture pdata (export_traces pdata given s).0
  unfolding export_traces reserve fail_locked
  export_traces-IsCapture given s h = record {
    bytes_le = ground (arith, h.bytes_le);
    items_le = ground (arith, h.items_le);
    requests_le = ground (arith, h.requests_le);
    items_eq = ground (arith, h.items_eq, tc.count_append s.raw_traces given);
    closes_eq = ground (arith, h.closes_eq);
  }

  export_metrics-IsCapture :
      (given : pdata.metric_slice.Data) (s : CaptureSink pdata)
      → IsCapture pdata s
      → IsCapture pdata (export_metrics pdata given s).0
  unfolding export_metrics reserve fail_locked
  export_metrics-IsCapture given s h = record {
    bytes_le = ground (arith, h.bytes_le);
    items_le = ground (arith, h.items_le);
    requests_le = ground (arith, h.requests_le);
    items_eq = ground (arith, h.items_eq, mc.count_append s.raw_metrics given);
    closes_eq = ground (arith, h.closes_eq);
  }

  step-IsCapture :
      (e : Event pdata) (s : CaptureSink pdata)
      → IsCapture pdata s
      → IsCapture pdata (step pdata e s)
  unfolding step handle_rpc
  step-IsCapture (logs_request given) s h = export_logs-IsCapture given s h
  step-IsCapture (traces_request given) s h = export_traces-IsCapture given s h
  step-IsCapture (metrics_request given) s h = export_metrics-IsCapture given s h
  step-IsCapture (rpc_failed exhausted) s h = fail_locked-IsCapture pdata _ s h
  step-IsCapture server_failed s h = fail_locked-IsCapture pdata _ s h
  step-IsCapture shutdown_late s h = fail_locked-IsCapture pdata _ s h

  pub run_sink_keeps :
      (events : List (Event pdata)) (s : CaptureSink pdata)
      → IsCapture pdata s
      → IsCapture pdata (run_sink pdata events s)
  unfolding run_sink
  run_sink_keeps [] s h = h
  run_sink_keeps (e ∷ events) s h = run_sink_keeps events (step pdata e s) (step-IsCapture e s h)

  start_capture-IsCapture : IsCapture pdata (start_capture pdata)
  unfolding start_capture
  start_capture-IsCapture = record {
    bytes_le = ground arith;
    items_le = ground arith;
    requests_le = ground arith;
    items_eq = ground (arith, lc.count_nothing, tc.count_nothing, mc.count_nothing);
    closes_eq = refl;
  }

  -- If appending telemetry adds its item counts up and no telemetry counts as zero, then after
  -- any sequence of exports, failed calls, server failures and late shutdowns the captured
  -- bytes, items and requests are within their limits, the item counter is the number of items
  -- that the sink holds, and the failure channel was closed once if a failure is recorded and
  -- never otherwise.
  pub run_sink-IsCapture :
      (events : List (Event pdata)) → IsCapture pdata (run_sink pdata events (start_capture pdata))
  run_sink-IsCapture events = run_sink_keeps events (start_capture pdata) start_capture-IsCapture
