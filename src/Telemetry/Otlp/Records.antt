-- ===== src/Telemetry/Otlp/Records.antt =====
-- One record of each signal as internal/telemetry/otlp.go reads it, without its loops and clones.
use mathlib.Core.List.{append_assoc, append-nil}
use otel_policy_lab.Prelude.{
  ◌≡◌, sym, ap, ◌∙◌, List, [], ◌∷◌, ◌++◌, map, Text, text_Eq, concat_map, refl, ap₂, codes,
}
use otel_policy_lab.Telemetry.{LogRecord, Span, Metric, clone_map}
use otel_policy_lab.Telemetry.Copies.{clone_map-eq}
use otel_policy_lab.Telemetry.Otlp.Accessors.{
  Pdata, StatusCode, code_ok, code_error, code_other, MetricType, type_gauge, type_sum,
  type_histogram, type_exponential_histogram, type_summary, type_other,
}
use otel_policy_lab.Telemetry.Otlp.Entries.{plain_text, value_to_string-eq, attrs_to_map-IsMap}
use otel_policy_lab.Telemetry.Otlp.Normal.{
  status_code, attrs_to_map, log_record, normal_span, put_points, points_of, append_datapoints,
  normal_metric,
}

abbrev pub plain_status : StatusCode → Text
plain_status code_ok = codes "OK"
plain_status code_error = codes "ERROR"
plain_status code_other = []

status_code-eq : (c : StatusCode) → status_code c ≡ plain_status c
unfolding status_code
status_code-eq code_ok = refl
status_code-eq code_error = refl
status_code-eq code_other = refl

module _ (pdata : Pdata) where
  clone-attrs_to_map :
      (attrs : pdata.Attrs) → clone_map (attrs_to_map pdata attrs) ≡ attrs_to_map pdata attrs
  clone-attrs_to_map attrs =
      clone_map-eq (attrs_to_map pdata attrs) (attrs_to_map-IsMap pdata attrs)

  -- The datapoints that a metric of each type has.
  abbrev pub plain_points : MetricType → pdata.PMetric → List pdata.Attrs
  plain_points type_gauge m = pdata.gauge_points m
  plain_points type_sum m = pdata.sum_points m
  plain_points type_histogram m = pdata.histogram_points m
  plain_points type_exponential_histogram m = pdata.exponential_histogram_points m
  plain_points type_summary m = pdata.summary_points m
  plain_points type_other m = []

  points_of-eq : (t : MetricType) (m : pdata.PMetric) → points_of pdata t m ≡ plain_points t m
  unfolding points_of
  points_of-eq type_gauge m = refl
  points_of-eq type_sum m = refl
  points_of-eq type_histogram m = refl
  points_of-eq type_exponential_histogram m = refl
  points_of-eq type_summary m = refl
  points_of-eq type_other m = refl

  unfoldable pub plain_log : pdata.Attrs → pdata.PLogRecord → LogRecord
  plain_log resource lr = record {
    resource_attributes = attrs_to_map pdata resource;
    attributes = attrs_to_map pdata (pdata.log_attributes lr);
    body = plain_text pdata (pdata.log_body lr);
  }

  unfoldable pub plain_span : pdata.Attrs → pdata.PSpan → Span
  plain_span resource sp = record {
    trace_id = pdata.trace_id sp;
    span_id = pdata.span_id sp;
    name = pdata.span_name sp;
    status_code = plain_status (pdata.span_status sp);
    resource_attributes = attrs_to_map pdata resource;
    attributes = attrs_to_map pdata (pdata.span_attributes sp);
  }

  unfoldable pub plain_metric : pdata.Attrs → pdata.PMetric → Metric
  plain_metric resource m = record {
    name = pdata.metric_name m;
    resource_attributes = attrs_to_map pdata resource;
    datapoints =
        map (λ attrs. record { labels = attrs_to_map pdata attrs })
          (plain_points (pdata.metric_type m) m);
  }

  -- The records of the three signals.
  unfoldable pub flat_logs : pdata.Logs → List LogRecord
  flat_logs logs =
      concat_map
        (λ rl.
          concat_map (λ sl. map (plain_log (pdata.logs_resource rl)) (pdata.log_records sl))
            (pdata.scope_logs rl))
        (pdata.resource_logs logs)

  unfoldable pub flat_spans : pdata.Traces → List Span
  flat_spans traces =
      concat_map
        (λ rs.
          concat_map (λ ss. map (plain_span (pdata.spans_resource rs)) (pdata.spans ss))
            (pdata.scope_spans rs))
        (pdata.resource_spans traces)

  unfoldable pub flat_metrics : pdata.Metrics → List Metric
  flat_metrics metrics =
      concat_map
        (λ rm.
          concat_map (λ sm. map (plain_metric (pdata.metrics_resource rm)) (pdata.metrics sm))
            (pdata.scope_metrics rm))
        (pdata.resource_metrics metrics)

  pub log_record-eq :
      (resource : pdata.Attrs) (lr : pdata.PLogRecord)
      → log_record pdata (attrs_to_map pdata resource) lr ≡ plain_log resource lr
  unfolding log_record plain_log
  log_record-eq resource lr =
      cc (clone-attrs_to_map resource, value_to_string-eq pdata (pdata.log_body lr))

  pub normal_span-eq :
      (resource : pdata.Attrs) (sp : pdata.PSpan)
      → normal_span pdata (attrs_to_map pdata resource) sp ≡ plain_span resource sp
  unfolding normal_span plain_span
  normal_span-eq resource sp =
      cc (clone-attrs_to_map resource, status_code-eq (pdata.span_status sp))

  put_points-eq :
      (l : List pdata.Attrs) (m : Metric)
      → put_points pdata l m ≡ record m {
        datapoints = m.datapoints ++ map (λ attrs. record { labels = attrs_to_map pdata attrs }) l;
      }
  unfolding put_points
  put_points-eq [] m = ap (λ l. record m { datapoints = l }) (sym (append-nil m.datapoints))
  put_points-eq (attrs ∷ rest) m =
      put_points-eq rest _
      ∙ ap (λ l. record m { datapoints = l })
          (append_assoc m.datapoints (record { labels = attrs_to_map pdata attrs } ∷ []) _)

  pub normal_metric-eq :
      (resource : pdata.Attrs) (m : pdata.PMetric)
      → normal_metric pdata (attrs_to_map pdata resource) m ≡ plain_metric resource m
  unfolding normal_metric append_datapoints plain_metric
  normal_metric-eq resource m =
      put_points-eq (points_of pdata (pdata.metric_type m) m) _
      ∙ ap₂
          (λ a (l : List pdata.Attrs). record {
            name = pdata.metric_name m;
            resource_attributes = a;
            datapoints = map (λ attrs. record { labels = attrs_to_map pdata attrs }) l;
          })
          (clone-attrs_to_map resource) (points_of-eq (pdata.metric_type m) m)
