-- ===== src/Telemetry/Otlp/Normal.antt =====
-- internal/telemetry/otlp.go: the three loops that read the records of each signal.
use otel_policy_lab.Prelude.{List, [], ◌∷◌, ◌++◌, none, some, Text, codes, text_Eq, insert}
use otel_policy_lab.Telemetry.{Attributes, LogRecord, Span, Metric, Set, clone_map}
use otel_policy_lab.Telemetry.Otlp.Accessors.{
  Pdata, StatusCode, code_ok, code_error, code_other, MetricType, type_gauge, type_sum,
  type_histogram, type_exponential_histogram, type_summary, type_other,
}

unfoldable pub status_code : StatusCode → Text
status_code code_ok = codes "OK"
status_code code_error = codes "ERROR"
status_code code_other = []

module _ (pdata : Pdata) where
  unfoldable pub value_to_string : pdata.Value → Text
  value_to_string v = elim (pdata.marshal v) [
    | none ↦ pdata.sprint v
    | some data_text ↦ elim (pdata.as_string v) [ some str ↦ str | none ↦ data_text ]
  ]

  -- The function that `Range` calls on each entry.
  unfoldable pub put_attrs : Attributes → List (Text × pdata.Value) → Attributes
  unfolding insert value_to_string
  put_attrs out [] = out
  put_attrs out ((k, v) ∷ rest) = put_attrs (insert out k (value_to_string v)) rest

  unfoldable pub attrs_to_map : pdata.Attrs → Attributes
  unfolding put_attrs
  attrs_to_map attrs = put_attrs [] (pdata.range attrs)

  unfoldable pub log_record : Attributes → pdata.PLogRecord → LogRecord
  unfolding clone_map attrs_to_map value_to_string
  log_record resource_attrs lr = record {
    resource_attributes = clone_map resource_attrs;
    attributes = attrs_to_map (pdata.log_attributes lr);
    body = value_to_string (pdata.log_body lr);
  }

  -- The three nested loops of `normalizeLogs`.
  unfoldable pub put_log_records : Attributes → List pdata.PLogRecord → Set → Set
  unfolding log_record
  put_log_records resource_attrs [] set = set
  put_log_records resource_attrs (lr ∷ rest) set =
      put_log_records resource_attrs rest
        (record set { logs = set.logs ++ log_record resource_attrs lr ∷ [] })

  unfoldable pub put_scope_logs : Attributes → List pdata.ScopeLogs → Set → Set
  unfolding put_log_records
  put_scope_logs resource_attrs [] set = set
  put_scope_logs resource_attrs (sl ∷ rest) set =
      put_scope_logs resource_attrs rest (put_log_records resource_attrs (pdata.log_records sl) set)

  unfoldable pub put_resource_logs : List pdata.ResourceLogs → Set → Set
  unfolding put_scope_logs attrs_to_map
  put_resource_logs [] set = set
  put_resource_logs (rl ∷ rest) set =
      put_resource_logs rest
        (put_scope_logs (attrs_to_map (pdata.logs_resource rl)) (pdata.scope_logs rl) set)

  unfoldable pub normalize_logs : pdata.Logs → Set → Set
  unfolding put_resource_logs
  normalize_logs logs set = put_resource_logs (pdata.resource_logs logs) set

  unfoldable pub normal_span : Attributes → pdata.PSpan → Span
  unfolding clone_map attrs_to_map status_code
  normal_span resource_attrs sp = record {
    trace_id = pdata.trace_id sp;
    span_id = pdata.span_id sp;
    name = pdata.span_name sp;
    status_code = status_code (pdata.span_status sp);
    resource_attributes = clone_map resource_attrs;
    attributes = attrs_to_map (pdata.span_attributes sp);
  }

  -- The three nested loops of `normalizeSpans`.
  unfoldable pub put_spans : Attributes → List pdata.PSpan → Set → Set
  unfolding normal_span
  put_spans resource_attrs [] set = set
  put_spans resource_attrs (sp ∷ rest) set =
      put_spans resource_attrs rest
        (record set { spans = set.spans ++ normal_span resource_attrs sp ∷ [] })

  unfoldable pub put_scope_spans : Attributes → List pdata.ScopeSpans → Set → Set
  unfolding put_spans
  put_scope_spans resource_attrs [] set = set
  put_scope_spans resource_attrs (ss ∷ rest) set =
      put_scope_spans resource_attrs rest (put_spans resource_attrs (pdata.spans ss) set)

  unfoldable pub put_resource_spans : List pdata.ResourceSpans → Set → Set
  unfolding put_scope_spans attrs_to_map
  put_resource_spans [] set = set
  put_resource_spans (rs ∷ rest) set =
      put_resource_spans rest
        (put_scope_spans (attrs_to_map (pdata.spans_resource rs)) (pdata.scope_spans rs) set)

  unfoldable pub normalize_spans : pdata.Traces → Set → Set
  unfolding put_resource_spans
  normalize_spans traces set = put_resource_spans (pdata.resource_spans traces) set

  -- The loop over the datapoints of one type.
  unfoldable pub put_points : List pdata.Attrs → Metric → Metric
  unfolding attrs_to_map
  put_points [] metric = metric
  put_points (attrs ∷ rest) metric = put_points rest (record metric {
    datapoints = metric.datapoints ++ record { labels = attrs_to_map attrs } ∷ [];
  })

  unfoldable pub points_of : MetricType → pdata.PMetric → List pdata.Attrs
  points_of type_gauge m = pdata.gauge_points m
  points_of type_sum m = pdata.sum_points m
  points_of type_histogram m = pdata.histogram_points m
  points_of type_exponential_histogram m = pdata.exponential_histogram_points m
  points_of type_summary m = pdata.summary_points m
  points_of type_other m = []

  unfoldable pub append_datapoints : Metric → pdata.PMetric → Metric
  unfolding put_points points_of
  append_datapoints metric m = put_points (points_of (pdata.metric_type m) m) metric

  unfoldable pub normal_metric : Attributes → pdata.PMetric → Metric
  unfolding clone_map append_datapoints
  normal_metric resource_attrs m =
      append_datapoints
        (record {
          name = pdata.metric_name m;
          resource_attributes = clone_map resource_attrs;
          datapoints = [];
        })
        m

  -- The three nested loops of `normalizeMetrics`.
  unfoldable pub put_metrics : Attributes → List pdata.PMetric → Set → Set
  unfolding normal_metric
  put_metrics resource_attrs [] set = set
  put_metrics resource_attrs (m ∷ rest) set =
      put_metrics resource_attrs rest
        (record set { metrics = set.metrics ++ normal_metric resource_attrs m ∷ [] })

  unfoldable pub put_scope_metrics : Attributes → List pdata.ScopeMetrics → Set → Set
  unfolding put_metrics
  put_scope_metrics resource_attrs [] set = set
  put_scope_metrics resource_attrs (sm ∷ rest) set =
      put_scope_metrics resource_attrs rest (put_metrics resource_attrs (pdata.metrics sm) set)

  unfoldable pub put_resource_metrics : List pdata.ResourceMetrics → Set → Set
  unfolding put_scope_metrics attrs_to_map
  put_resource_metrics [] set = set
  put_resource_metrics (rm ∷ rest) set =
      put_resource_metrics rest
        (put_scope_metrics (attrs_to_map (pdata.metrics_resource rm)) (pdata.scope_metrics rm) set)

  unfoldable pub normalize_metrics : pdata.Metrics → Set → Set
  unfolding put_resource_metrics
  normalize_metrics metrics set = put_resource_metrics (pdata.resource_metrics metrics) set
