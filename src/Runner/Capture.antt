-- ===== src/Runner/Capture.antt =====
-- internal/runner/capture.go: the sink to which the Collector exports, behind its mutex. A step is
-- what one holder of the mutex does.
pub mod Limits
pub mod Latch
use otel_policy_lab.Prelude.{
  ℕ, ◌+◌, ◌*◌, ltb, Bool, true, false, ◌||◌, List, [], ◌∷◌, Option, none, some, Result, ok, err,
  if◌then◌else◌, is_some,
}

abbrev pub max_message_bytes : ℕ
max_message_bytes = 16777216

abbrev pub max_capture_bytes : ℕ
max_capture_bytes = 67108864

abbrev pub max_capture_items : ℕ
max_capture_items = 100000

abbrev pub max_capture_requests : ℕ
max_capture_requests = 10000

-- The telemetry of one signal as the pdata package holds it: its encoded size, its number of
-- items (records, spans, or metrics and datapoints), nothing, and `MoveAndAppendTo`, of the given
-- telemetry behind what the destination holds.
pub record Slice : Type 1 where
  pub Data : Type 0
  pub size : Data → ℕ
  pub count : Data → ℕ
  pub nothing : Data
  pub append_to : (dest given : Data) → Data

-- The three slices of an OTLP value.
pub record Pdata : Type 1 where
  pub log_slice : Slice
  pub trace_slice : Slice
  pub metric_slice : Slice

-- The categories of `failure`; the empty string is `none`.
pub data Failure : Type 0 where
  capture_limit capture_transport capture_server capture_shutdown : Failure

-- The two refusals of `reserve`.
pub data Refusal : Type 0 where
  capture_unavailable limit_exceeded : Refusal

module _ (pdata : Pdata) where
  -- `failed_closes` counts how often the channel `failed` was closed: Go panics on the second.
  pub record CaptureSink : Type 0 where
    pub raw_logs : pdata.log_slice.Data
    pub raw_traces : pdata.trace_slice.Data
    pub raw_metrics : pdata.metric_slice.Data
    pub bytes : ℕ
    pub items : ℕ
    pub requests : ℕ
    pub failure : Option Failure
    pub failed_closes : ℕ

  unfoldable pub start_capture : CaptureSink
  start_capture = record {
    raw_logs = pdata.log_slice.nothing;
    raw_traces = pdata.trace_slice.nothing;
    raw_metrics = pdata.metric_slice.nothing;
    bytes = 0;
    items = 0;
    requests = 0;
    failure = none;
    failed_closes = 0;
  }

  unfoldable pub fail_locked : Failure → CaptureSink → CaptureSink
  fail_locked category s =
      if is_some s.failure
      then s
      else record s { failure = some category; failed_closes = s.failed_closes + 1 }

  abbrev pub exceeds_limits : (size items : ℕ) → CaptureSink → Bool
  exceeds_limits size items s =
      ltb max_message_bytes size
      || ltb max_capture_bytes (s.bytes + size)
      || ltb max_capture_items (s.items + items)
      || ltb max_capture_requests (s.requests + 1)

  -- The sink afterwards, and the error if there is one.
  unfoldable pub reserve : (size items : ℕ) → CaptureSink → CaptureSink × Option Refusal
  unfolding fail_locked
  reserve size items s =
      if is_some s.failure
      then (s, some capture_unavailable)
      else if exceeds_limits size items s
      then (fail_locked capture_limit s, some limit_exceeded)
      else (
        record s { bytes = s.bytes + size; items = s.items + items; requests = s.requests + 1 },
        none,
      )

  -- The three `Export` handlers.
  unfoldable pub export_logs : pdata.log_slice.Data → CaptureSink → CaptureSink × Option Refusal
  unfolding reserve
  export_logs given s =
      let (t, refusal) = reserve (pdata.log_slice.size given) (pdata.log_slice.count given) s in
      if is_some refusal
      then (t, refusal)
      else (record t { raw_logs = pdata.log_slice.append_to t.raw_logs given }, none)

  unfoldable pub export_traces : pdata.trace_slice.Data → CaptureSink → CaptureSink × Option Refusal
  unfolding reserve
  export_traces given s =
      let (t, refusal) = reserve (pdata.trace_slice.size given) (pdata.trace_slice.count given) s in
      if is_some refusal
      then (t, refusal)
      else (record t { raw_traces = pdata.trace_slice.append_to t.raw_traces given }, none)

  unfoldable pub export_metrics :
      pdata.metric_slice.Data → CaptureSink → CaptureSink × Option Refusal
  unfolding reserve
  export_metrics given s =
      let (t, refusal) =
        reserve (pdata.metric_slice.size given) (pdata.metric_slice.count given) s in
      if is_some refusal
      then (t, refusal)
      else (record t { raw_metrics = pdata.metric_slice.append_to t.raw_metrics given }, none)

  -- `HandleRPC` on the end of a call that failed; `exhausted` tells whether the code of the error
  -- is `ResourceExhausted`.
  unfoldable pub handle_rpc : (exhausted : Bool) → CaptureSink → CaptureSink
  unfolding fail_locked
  handle_rpc exhausted = fail_locked (if exhausted then capture_limit else capture_transport)

  -- What can happen to the sink: an export, a call that failed, the server that stopped with an
  -- error, and a shutdown that took too long.
  pub data Event : Type 0 where
    logs_request : pdata.log_slice.Data → Event
    traces_request : pdata.trace_slice.Data → Event
    metrics_request : pdata.metric_slice.Data → Event
    rpc_failed : (exhausted : Bool) → Event
    server_failed : Event
    shutdown_late : Event

  unfoldable pub step : Event → CaptureSink → CaptureSink
  unfolding export_logs export_traces export_metrics handle_rpc fail_locked
  step (logs_request given) s = (export_logs given s).0
  step (traces_request given) s = (export_traces given s).0
  step (metrics_request given) s = (export_metrics given s).0
  step (rpc_failed exhausted) s = handle_rpc exhausted s
  step server_failed s = fail_locked capture_server s
  step shutdown_late s = fail_locked capture_shutdown s

  -- The events in the order in which they get the mutex.
  unfoldable pub run_sink : List Event → CaptureSink → CaptureSink
  unfolding step
  run_sink [] s = s
  run_sink (e ∷ events) s = run_sink events (step e s)
