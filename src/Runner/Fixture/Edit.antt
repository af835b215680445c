-- ===== src/Runner/Fixture/Edit.antt =====
-- internal/runner/runner.go: the changes that a simulated processor makes to the telemetry.
use otel_policy_lab.Prelude.{
  not, List, map, Text, codes, text_Eq, ◌==◌, keep, contains, contains_text, to_lower,
  if◌then◌else◌,
}
use otel_policy_lab.Telemetry.{Attributes, LogRecord, Span, Datapoint, Metric, Set}

unfoldable pub without_keys : List Text → Attributes → Attributes
unfolding keep contains
without_keys removed m = keep (λ e. not (contains removed e.0)) m

unfoldable pub remove_attributes_for_signal : Text → List Text → Set → Set
unfolding without_keys
remove_attributes_for_signal signal removed set =
    if signal == codes "logs"
    then record set {
      logs =
          map
            (λ (l : LogRecord). record l {
              resource_attributes = without_keys removed l.resource_attributes;
              attributes = without_keys removed l.attributes;
            })
            set.logs;
    }
    else if signal == codes "traces"
    then record set {
      spans =
          map
            (λ (s : Span). record s {
              resource_attributes = without_keys removed s.resource_attributes;
              attributes = without_keys removed s.attributes;
            })
            set.spans;
    }
    else if signal == codes "metrics"
    then record set {
      metrics =
          map
            (λ (m : Metric). record m {
              resource_attributes = without_keys removed m.resource_attributes;
              datapoints =
                  map (λ (d : Datapoint). record d { labels = without_keys removed d.labels })
                    m.datapoints;
            })
            set.metrics;
    }
    else set

unfoldable pub filter_debug_logs : (Text → Text) → List LogRecord → List LogRecord
unfolding keep contains_text to_lower
filter_debug_logs unicode_lower logs =
    keep (λ (l : LogRecord). not (contains_text (to_lower unicode_lower l.body) (codes "debug")))
      logs
