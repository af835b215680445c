-- ===== src/Runner/Tests.antt =====
-- The runners' theorems on a sink whose telemetry is counted only, and on two writes.
mod Life
mod Exchange
mod Startup
use Prim.Native.Nat.{◌*◌}
use otel_policy_lab.Prelude.{
  ℕ, ◌+◌, ◌≡◌, ◌≤◌, ◌↔◌, refl, List, [], ◌∷◌, true, none, some, Text, codes, length,
}
use otel_policy_lab.Report.Series.{concat}
use otel_policy_lab.Runner.Capture.{
  Slice, Pdata, capture_transport, capture_unavailable, CaptureSink, Event, logs_request,
  traces_request, max_message_bytes, max_capture_bytes, max_capture_items, max_capture_requests,
  start_capture, reserve, export_logs, run_sink,
}
use otel_policy_lab.Runner.Capture.Limits.{IsCounted, IsCapture, run_sink-IsCapture}
use otel_policy_lab.Runner.Capture.Latch.{run_sink-failed, export_logs-accepts_iff}
use otel_policy_lab.Runner.PrivateBuffer.{
  max_diagnostic_bytes, ready_marker, export_failure_text, previous_suffix, next_prefix, write,
  empty_buffer, write_all,
}
use otel_policy_lab.Runner.PrivateBuffer.Markers.{write_all-markers}
use otel_policy_lab.Prelude.{contains_text, has_prefix, to_lower, lower_byte}
use otel_policy_lab.Runner.PrivateBuffer.Bounded.{suffix, write_all-suffix}

-- Telemetry of which only the number of records is known, a kilobyte each.
abbrev counted : Slice
counted = record {
  Data = ℕ;
  size = λ n. 1024 * n;
  count = λ n. n;
  nothing = 0;
  append_to = λ dest given. dest + given;
}

abbrev counts : Pdata
counts = record { log_slice = counted; trace_slice = counted; metric_slice = counted }

counted-IsCounted : IsCounted counted
counted-IsCounted = record { count_nothing = refl; count_append = λ dest given. refl }

abbrev events : List (Event counts)
events = logs_request 5 ∷ traces_request 100000 ∷ logs_request 1 ∷ []

run_sink-IsCapture_example : IsCapture counts (run_sink counts events (start_capture counts))
run_sink-IsCapture_example =
    run_sink-IsCapture counts counted-IsCounted counted-IsCounted counted-IsCounted events

abbrev broken : CaptureSink counts
broken = record {
  raw_logs = 5;
  raw_traces = 0;
  raw_metrics = 0;
  bytes = 5120;
  items = 5;
  requests = 1;
  failure = some capture_transport;
  failed_closes = 1;
}

run_sink-failed_example : run_sink counts events broken ≡ broken
run_sink-failed_example = run_sink-failed counts events broken capture_transport refl

export_logs-accepts_iff_example : ((export_logs counts 5 broken).1 ≡ none) ↔ (
    (broken.failure ≡ none)
    × (1024 * 5 ≤ max_message_bytes)
    × (broken.bytes + 1024 * 5 ≤ max_capture_bytes)
    × (broken.items + 5 ≤ max_capture_items)
    × (broken.requests + 1 ≤ max_capture_requests))
export_logs-accepts_iff_example = export_logs-accepts_iff counts 5 broken

broken_refuses : (export_logs counts 5 broken).1 ≡ some capture_unavailable
unfolding export_logs reserve
broken_refuses = refl

abbrev writes : List Text
writes = codes "everything is " ∷ codes "ready" ∷ []

write_all-suffix_example :
    ((write_all (λ s. s) writes empty_buffer).bytes ≡ suffix max_diagnostic_bytes (concat writes))
    × (length (write_all (λ s. s) writes empty_buffer).bytes ≤ max_diagnostic_bytes)
write_all-suffix_example = write_all-suffix (λ s. s) writes

write_all-markers_example :
    ((write_all (λ s. s) writes empty_buffer).ready
      ≡ contains_text (to_lower (λ s. s) (concat writes)) ready_marker)
    × ((write_all (λ s. s) writes empty_buffer).export_failure
        ≡ export_failure_text (λ s. s) (concat writes))
write_all-markers_example = write_all-markers (λ s. s) writes refl

-- A marker that two writes share is seen.
split_marker : (write_all (λ s. s) writes empty_buffer).ready ≡ true
unfolding write_all write contains_text has_prefix to_lower lower_byte previous_suffix next_prefix
split_marker = refl
