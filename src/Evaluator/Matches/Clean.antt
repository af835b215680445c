-- ===== src/Evaluator/Matches/Clean.antt =====
-- A search over logs, spans or metrics finds nothing exactly where every record is clean.
use otel_policy_lab.Prelude.{
  iff_trans, ×-iff, append-nil_iff, concat_map_index-nil, ℕ, List, [], ◌≡◌, ◌↔◌, text_Eq, All, ok,
  ap,
}
use otel_policy_lab.Telemetry.{LogRecord, Span, Datapoint, Metric, Set}
use otel_policy_lab.Policy.{LogsAssertions, TracesAssertions, MetricsAssertions}
use otel_policy_lab.Report.Check.{
  resource_key, resource_value, attribute_key, attribute_value, label_key, label_value, body,
  span_name,
}
use otel_policy_lab.Library.{Library}
use otel_policy_lab.Evaluator.Matches.Find.{
  compile_patterns, log_matches, span_matches, datapoint_matches, metric_matches,
}
use otel_policy_lab.Evaluator.Matches.Dedupe.{dedupe_forbidden_matches-nil}
use otel_policy_lab.Evaluator.Matches.Search.{
  find_forbidden_log_matches, find_forbidden_span_matches, find_forbidden_metric_matches,
}
use otel_policy_lab.Evaluator.Matches.Sound.{
  attribute_matches-nil, value_matches-nil, string_matches-nil, HasCleanKeys, HasCleanValues,
  IsCleanText,
}

module _ (lib : Library) where
  open lib use {Regexp}

  abbrev pub IsCleanLog : LogsAssertions → List Regexp → List Regexp → LogRecord → Type 0
  IsCleanLog a vs bs l =
      HasCleanKeys lib a.forbidden_attributes a.case_insensitive l.resource_attributes
      × (HasCleanValues lib vs l.resource_attributes
          × (HasCleanKeys lib a.forbidden_attributes a.case_insensitive l.attributes
              × (HasCleanValues lib vs l.attributes × IsCleanText lib bs l.body)))

  abbrev pub IsCleanSpan : TracesAssertions → List Regexp → Span → Type 0
  IsCleanSpan a vs s =
      HasCleanKeys lib a.forbidden_attributes a.case_insensitive s.resource_attributes
      × (HasCleanValues lib vs s.resource_attributes
          × (HasCleanKeys lib a.forbidden_attributes a.case_insensitive s.attributes
              × (HasCleanValues lib vs s.attributes × IsCleanText lib vs s.name)))

  abbrev pub IsCleanDatapoint : MetricsAssertions → List Regexp → Datapoint → Type 0
  IsCleanDatapoint a vs d =
      HasCleanKeys lib a.forbidden_labels a.case_insensitive d.labels
      × HasCleanValues lib vs d.labels

  abbrev pub IsCleanMetric : MetricsAssertions → List Regexp → Metric → Type 0
  IsCleanMetric a vs m =
      HasCleanKeys lib a.forbidden_labels a.case_insensitive m.resource_attributes
      × (HasCleanValues lib vs m.resource_attributes × All (IsCleanDatapoint a vs) m.datapoints)

  log_matches-nil :
      (a : LogsAssertions) (vs bs : List Regexp) (i : ℕ) (l : LogRecord)
      → (log_matches lib a vs bs i l ≡ []) ↔ IsCleanLog a vs bs l
  unfolding log_matches
  log_matches-nil a vs bs i l = iff_trans (append-nil_iff _ _) (
      ×-iff (attribute_matches-nil lib resource_key i _ _ _ _) (
        iff_trans (append-nil_iff _ _) (
          ×-iff (value_matches-nil lib resource_value i _ _ vs) (
            iff_trans (append-nil_iff _ _) (
              ×-iff (attribute_matches-nil lib attribute_key i _ _ _ _) (
                iff_trans (append-nil_iff _ _) (
                  ×-iff (value_matches-nil lib attribute_value i _ _ vs)
                    (string_matches-nil lib body i _ _ bs))))))))

  span_matches-nil :
      (a : TracesAssertions) (vs : List Regexp) (i : ℕ) (s : Span)
      → (span_matches lib a vs i s ≡ []) ↔ IsCleanSpan a vs s
  unfolding span_matches
  span_matches-nil a vs i s = iff_trans (append-nil_iff _ _) (
      ×-iff (attribute_matches-nil lib resource_key i _ _ _ _) (
        iff_trans (append-nil_iff _ _) (
          ×-iff (value_matches-nil lib resource_value i _ _ vs) (
            iff_trans (append-nil_iff _ _) (
              ×-iff (attribute_matches-nil lib attribute_key i _ _ _ _) (
                iff_trans (append-nil_iff _ _) (
                  ×-iff (value_matches-nil lib attribute_value i _ _ vs)
                    (string_matches-nil lib span_name i _ _ vs))))))))

  metric_matches-nil :
      (a : MetricsAssertions) (vs : List Regexp) (i : ℕ) (m : Metric)
      → (metric_matches lib a vs i m ≡ []) ↔ IsCleanMetric a vs m
  unfolding metric_matches
  metric_matches-nil a vs i m = iff_trans (append-nil_iff _ _) (
      ×-iff (attribute_matches-nil lib resource_key i _ _ _ _) (
        iff_trans (append-nil_iff _ _) (
          ×-iff (value_matches-nil lib resource_value i _ _ vs) (
            concat_map_index-nil _ _
              (λ j d.
                unfold datapoint_matches in
                iff_trans (append-nil_iff _ _) (
                  ×-iff (attribute_matches-nil lib label_key j _ _ _ _)
                    (value_matches-nil lib label_value j _ _ vs)))
              0 m.datapoints))))

  -- With value and body patterns that compile, the search over the logs reports nothing exactly
  -- if every log is clean: no forbidden key, value or body stands in it.
  pub find_forbidden_log_matches-nil :
      (set : Set) (a : LogsAssertions) (vs bs : List Regexp)
      → compile_patterns lib a.forbidden_value_patterns a.case_insensitive ≡ ok vs
      → compile_patterns lib a.forbidden_body_patterns a.case_insensitive ≡ ok bs
      → (find_forbidden_log_matches lib set a ≡ ok []) ↔ All (IsCleanLog a vs bs) set.logs
  unfolding find_forbidden_log_matches
  find_forbidden_log_matches-nil set a vs bs h k =
      rw (h, k)
        (iff_trans (λ e. cc, λ e. ap ok e)
          (iff_trans (dedupe_forbidden_matches-nil _)
            (concat_map_index-nil _ _ (log_matches-nil a vs bs) 0 set.logs)))

  -- With value patterns that compile, the search over the spans reports nothing exactly if every
  -- span is clean: no forbidden key, value or name stands in it.
  pub find_forbidden_span_matches-nil :
      (set : Set) (a : TracesAssertions) (vs : List Regexp)
      → compile_patterns lib a.forbidden_value_patterns a.case_insensitive ≡ ok vs
      → (find_forbidden_span_matches lib set a ≡ ok []) ↔ All (IsCleanSpan a vs) set.spans
  unfolding find_forbidden_span_matches
  find_forbidden_span_matches-nil set a vs h = rw h (
      iff_trans (λ e. cc, λ e. ap ok e)
        (iff_trans (dedupe_forbidden_matches-nil _)
          (concat_map_index-nil _ _ (span_matches-nil a vs) 0 set.spans)))

  -- With label value patterns that compile, the search over the metrics reports nothing exactly
  -- if every metric is clean: no forbidden label or label value stands on its resource or its
  -- datapoints.
  pub find_forbidden_metric_matches-nil :
      (set : Set) (a : MetricsAssertions) (vs : List Regexp)
      → compile_patterns lib a.forbidden_label_value_patterns a.case_insensitive ≡ ok vs
      → (find_forbidden_metric_matches lib set a ≡ ok []) ↔ All (IsCleanMetric a vs) set.metrics
  unfolding find_forbidden_metric_matches
  find_forbidden_metric_matches-nil set a vs h = rw h (
      iff_trans (λ e. cc, λ e. ap ok e)
        (iff_trans (dedupe_forbidden_matches-nil _)
          (concat_map_index-nil _ _ (metric_matches-nil a vs) 0 set.metrics)))
