-- ===== src/Telemetry/Otlp/Flat.antt =====
-- What `Normalize` of internal/telemetry/otlp.go yields, without its loops: the records of each
-- signal in their order, each with the attributes of its resource.
use otel_policy_lab.Prelude.{◌≡◌, refl, ap, ◌∙◌, List, [], ◌∷◌, map, text_Eq, concat_map}
use otel_policy_lab.Telemetry.{Set, empty_set}
use otel_policy_lab.Telemetry.Otlp.Accessors.{Pdata}
use otel_policy_lab.Telemetry.Otlp.Normal.{
  attrs_to_map, put_log_records, put_scope_logs, put_resource_logs, normalize_logs, put_spans,
  put_scope_spans, put_resource_spans, normalize_spans, put_metrics, put_scope_metrics,
  put_resource_metrics, normalize_metrics,
}
use otel_policy_lab.Telemetry.Otlp.{Otlp, normalize}
use otel_policy_lab.Telemetry.Otlp.Appending.{
  loop-concat_map, loop-map, more_logs, more_logs-nil, more_logs-append, more_spans, more_spans-nil,
  more_spans-append, more_metrics, more_metrics-nil, more_metrics-append,
}
use otel_policy_lab.Telemetry.Otlp.Entries.{IsAttributes, attrs_to_map-IsAttributes}
use otel_policy_lab.Telemetry.Otlp.Records.{
  plain_log, plain_span, plain_metric, flat_logs, flat_spans, flat_metrics, log_record-eq,
  normal_span-eq, normal_metric-eq,
}

module _ (pdata : Pdata) where
  put_log_records-eq :
      (resource : pdata.Attrs) (l : List pdata.PLogRecord) (set : Set)
      → put_log_records pdata (attrs_to_map pdata resource) l set
        ≡ more_logs (map (plain_log pdata resource) l) set
  unfolding put_log_records more_logs
  put_log_records-eq resource =
      loop-map more_logs more_logs-nil more_logs-append _
        (put_log_records pdata (attrs_to_map pdata resource)) (λ set. refl) (λ x xs set. refl)
        (plain_log pdata resource)
        (λ x set. ap (λ r. more_logs (r ∷ []) set) (log_record-eq pdata resource x))

  put_scope_logs-eq :
      (resource : pdata.Attrs) (l : List pdata.ScopeLogs) (set : Set)
      → put_scope_logs pdata (attrs_to_map pdata resource) l set
        ≡ more_logs (concat_map (λ x. map (plain_log pdata resource) (pdata.log_records x)) l) set
  unfolding put_scope_logs
  put_scope_logs-eq resource =
      loop-concat_map more_logs more_logs-nil more_logs-append _
        (put_scope_logs pdata (attrs_to_map pdata resource)) (λ set. refl) (λ x xs set. refl)
        (λ x. map (plain_log pdata resource) (pdata.log_records x))
        (λ x. put_log_records-eq resource (pdata.log_records x))

  normalize_logs-eq :
      (l : pdata.Logs) (set : Set) → normalize_logs pdata l set ≡ more_logs (flat_logs pdata l) set
  unfolding put_resource_logs flat_logs normalize_logs
  normalize_logs-eq l =
      loop-concat_map more_logs more_logs-nil more_logs-append _ (put_resource_logs pdata)
        (λ set. refl) (λ x xs set. refl)
        (λ x.
          concat_map (λ y. map (plain_log pdata (pdata.logs_resource x)) (pdata.log_records y))
            (pdata.scope_logs x))
        (λ x. put_scope_logs-eq (pdata.logs_resource x) (pdata.scope_logs x))
        (pdata.resource_logs l)

  put_spans-eq :
      (resource : pdata.Attrs) (l : List pdata.PSpan) (set : Set)
      → put_spans pdata (attrs_to_map pdata resource) l set
        ≡ more_spans (map (plain_span pdata resource) l) set
  unfolding put_spans more_spans
  put_spans-eq resource =
      loop-map more_spans more_spans-nil more_spans-append _
        (put_spans pdata (attrs_to_map pdata resource)) (λ set. refl) (λ x xs set. refl)
        (plain_span pdata resource)
        (λ x set. ap (λ r. more_spans (r ∷ []) set) (normal_span-eq pdata resource x))

  put_scope_spans-eq :
      (resource : pdata.Attrs) (l : List pdata.ScopeSpans) (set : Set)
      → put_scope_spans pdata (attrs_to_map pdata resource) l set
        ≡ more_spans (concat_map (λ x. map (plain_span pdata resource) (pdata.spans x)) l) set
  unfolding put_scope_spans
  put_scope_spans-eq resource =
      loop-concat_map more_spans more_spans-nil more_spans-append _
        (put_scope_spans pdata (attrs_to_map pdata resource)) (λ set. refl) (λ x xs set. refl)
        (λ x. map (plain_span pdata resource) (pdata.spans x))
        (λ x. put_spans-eq resource (pdata.spans x))

  normalize_spans-eq :
      (l : pdata.Traces) (set : Set)
      → normalize_spans pdata l set ≡ more_spans (flat_spans pdata l) set
  unfolding put_resource_spans flat_spans normalize_spans
  normalize_spans-eq l =
      loop-concat_map more_spans more_spans-nil more_spans-append _ (put_resource_spans pdata)
        (λ set. refl) (λ x xs set. refl)
        (λ x.
          concat_map (λ y. map (plain_span pdata (pdata.spans_resource x)) (pdata.spans y))
            (pdata.scope_spans x))
        (λ x. put_scope_spans-eq (pdata.spans_resource x) (pdata.scope_spans x))
        (pdata.resource_spans l)

  put_metrics-eq :
      (resource : pdata.Attrs) (l : List pdata.PMetric) (set : Set)
      → put_metrics pdata (attrs_to_map pdata resource) l set
        ≡ more_metrics (map (plain_metric pdata resource) l) set
  unfolding put_metrics more_metrics
  put_metrics-eq resource =
      loop-map more_metrics more_metrics-nil more_metrics-append _
        (put_metrics pdata (attrs_to_map pdata resource)) (λ set. refl) (λ x xs set. refl)
        (plain_metric pdata resource)
        (λ x set. ap (λ r. more_metrics (r ∷ []) set) (normal_metric-eq pdata resource x))

  put_scope_metrics-eq :
      (resource : pdata.Attrs) (l : List pdata.ScopeMetrics) (set : Set)
      → put_scope_metrics pdata (attrs_to_map pdata resource) l set
        ≡ more_metrics (concat_map (λ x. map (plain_metric pdata resource) (pdata.metrics x)) l) set
  unfolding put_scope_metrics
  put_scope_metrics-eq resource =
      loop-concat_map more_metrics more_metrics-nil more_metrics-append _
        (put_scope_metrics pdata (attrs_to_map pdata resource)) (λ set. refl) (λ x xs set. refl)
        (λ x. map (plain_metric pdata resource) (pdata.metrics x))
        (λ x. put_metrics-eq resource (pdata.metrics x))

  normalize_metrics-eq :
      (l : pdata.Metrics) (set : Set)
      → normalize_metrics pdata l set ≡ more_metrics (flat_metrics pdata l) set
  unfolding put_resource_metrics flat_metrics normalize_metrics
  normalize_metrics-eq l =
      loop-concat_map more_metrics more_metrics-nil more_metrics-append _
        (put_resource_metrics pdata) (λ set. refl) (λ x xs set. refl)
        (λ x.
          concat_map (λ y. map (plain_metric pdata (pdata.metrics_resource x)) (pdata.metrics y))
            (pdata.scope_metrics x))
        (λ x. put_scope_metrics-eq (pdata.metrics_resource x) (pdata.scope_metrics x))
        (pdata.resource_metrics l)

  -- Normalising OTLP data yields for each signal the records of all scopes of all resources in
  -- their order, each with the attributes of its resource, and each metric with the labels of
  -- all datapoints that its type has, in their order; and the map that is made of attributes
  -- holds each key once, with the text of the last entry that has the key.
  pub normalize-eq :
      (o : Otlp pdata)
      → (normalize pdata o ≡ record {
        logs = flat_logs pdata o.logs;
        spans = flat_spans pdata o.traces;
        metrics = flat_metrics pdata o.metrics;
      })
        × ((attrs : pdata.Attrs) → IsAttributes pdata attrs (attrs_to_map pdata attrs))
  unfolding normalize more_logs more_spans more_metrics
  normalize-eq o = (
    normalize_metrics-eq o.metrics _
        ∙ ap (more_metrics (flat_metrics pdata o.metrics)) (
            normalize_spans-eq o.traces _
            ∙ ap (more_spans (flat_spans pdata o.traces)) (normalize_logs-eq o.logs empty_set)),
    attrs_to_map-IsAttributes pdata,
  )
