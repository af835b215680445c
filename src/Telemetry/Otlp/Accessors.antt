-- ===== src/Telemetry/Otlp/Accessors.antt =====
-- What internal/telemetry/otlp.go calls of the pdata packages.
use otel_policy_lab.Prelude.{List, Option, Text}

-- What the switch of `statusCode` tells apart.
pub data StatusCode : Type 0 where
  code_ok code_error code_other : StatusCode

-- The types of a metric that have datapoints, and all others.
pub data MetricType : Type 0 where
  type_gauge type_sum type_histogram type_exponential_histogram type_summary type_other : MetricType

-- The accessors of the pdata packages. A slice is read by `Len` and `At`, a map by `Range`.
pub record Pdata : Type 1 where
  pub Value : Type 0
  pub as_string : Value → Option Text
  pub marshal : Value → Option Text
  pub sprint : Value → Text
  pub Attrs : Type 0
  pub range : Attrs → List (Text × Value)
  pub Logs : Type 0
  pub ResourceLogs : Type 0
  pub ScopeLogs : Type 0
  pub PLogRecord : Type 0
  pub resource_logs : Logs → List ResourceLogs
  pub logs_resource : ResourceLogs → Attrs
  pub scope_logs : ResourceLogs → List ScopeLogs
  pub log_records : ScopeLogs → List PLogRecord
  pub log_attributes : PLogRecord → Attrs
  pub log_body : PLogRecord → Value
  pub Traces : Type 0
  pub ResourceSpans : Type 0
  pub ScopeSpans : Type 0
  pub PSpan : Type 0
  pub resource_spans : Traces → List ResourceSpans
  pub spans_resource : ResourceSpans → Attrs
  pub scope_spans : ResourceSpans → List ScopeSpans
  pub spans : ScopeSpans → List PSpan
  pub trace_id : PSpan → Text
  pub span_id : PSpan → Text
  pub span_name : PSpan → Text
  pub span_status : PSpan → StatusCode
  pub span_attributes : PSpan → Attrs
  pub Metrics : Type 0
  pub ResourceMetrics : Type 0
  pub ScopeMetrics : Type 0
  pub PMetric : Type 0
  pub resource_metrics : Metrics → List ResourceMetrics
  pub metrics_resource : ResourceMetrics → Attrs
  pub scope_metrics : ResourceMetrics → List ScopeMetrics
  pub metrics : ScopeMetrics → List PMetric
  pub metric_name : PMetric → Text
  pub metric_type : PMetric → MetricType
  -- the attributes of each datapoint
  pub gauge_points : PMetric → List Attrs
  pub sum_points : PMetric → List Attrs
  pub histogram_points : PMetric → List Attrs
  pub exponential_histogram_points : PMetric → List Attrs
  pub summary_points : PMetric → List Attrs
