-- ===== src/Telemetry.antt =====
-- internal/telemetry/telemetry.go: the normalised telemetry that policies are checked against.
pub mod Series
pub mod Copies
pub mod Canonical
pub mod Groups
pub mod Otlp
mod Tests
use otel_policy_lab.Prelude.{
  ℕ, ◌+◌, List, [], ◌∷◌, ◌++◌, map, Text, codes, Map, text_Eq, insert, add, length, sort_texts,
}

-- A nil map reads like an empty one.
abbrev pub Attributes : Type 0
Attributes = Map Text Text

pub record LogRecord : Type 0 where
  pub resource_attributes : Attributes
  pub attributes : Attributes
  pub body : Text

pub record Span : Type 0 where
  pub trace_id : Text
  pub span_id : Text
  pub name : Text
  pub status_code : Text
  pub resource_attributes : Attributes
  pub attributes : Attributes

pub record Datapoint : Type 0 where
  pub labels : Attributes

pub record Metric : Type 0 where
  pub name : Text
  pub resource_attributes : Attributes
  pub datapoints : List Datapoint

pub record Set : Type 0 where
  pub logs : List LogRecord
  pub spans : List Span
  pub metrics : List Metric

abbrev pub empty_set : Set
empty_set = record { logs = []; spans = []; metrics = [] }

-- `json.Marshal` at the types at which the code calls it.
pub record Json : Type 0 where
  pub series : Attributes → Attributes → Text
  pub metric_group : Text → Attributes → Text
  pub log : LogRecord → Text
  pub span : Span → Text
  pub metric : Metric → Text
  pub datapoint : Datapoint → Text

pub record Summary : Type 0 where
  pub input_log_count : ℕ
  pub output_log_count : ℕ
  pub input_span_count : ℕ
  pub output_span_count : ℕ
  pub input_metric_count : ℕ
  pub output_metric_count : ℕ
  pub input_series_count : ℕ
  pub output_series_count : ℕ

-- The loop that copies the entries of `m` into `out`.
unfoldable pub copy_entries : Attributes → Attributes → Attributes
copy_entries out [] = out
copy_entries out ((k, v) ∷ m) = copy_entries (insert out k v) m

unfoldable pub clone_map : Attributes → Attributes
unfolding copy_entries insert
clone_map m = copy_entries [] m

unfoldable pub clone_log : LogRecord → LogRecord
clone_log l = record {
  resource_attributes = clone_map l.resource_attributes;
  attributes = clone_map l.attributes;
  body = l.body;
}

unfoldable pub clone_span : Span → Span
clone_span s = record {
  trace_id = s.trace_id;
  span_id = s.span_id;
  name = s.name;
  status_code = s.status_code;
  resource_attributes = clone_map s.resource_attributes;
  attributes = clone_map s.attributes;
}

unfoldable pub clone_datapoint : Datapoint → Datapoint
clone_datapoint d = record { labels = clone_map d.labels }

unfoldable pub clone_metric : Metric → Metric
unfolding clone_datapoint
clone_metric m = record {
  name = m.name;
  resource_attributes = clone_map m.resource_attributes;
  datapoints = map clone_datapoint m.datapoints;
}

unfoldable pub clone : Set → Set
unfolding clone_map clone_log clone_span clone_metric
clone s = record {
  logs = map clone_log s.logs;
  spans = map clone_span s.spans;
  metrics = map clone_metric s.metrics;
}

module _ (json : Json) where
  unfoldable pub series_key : Attributes → Attributes → Text
  series_key resource_attributes labels =
      json.series (clone_map resource_attributes) (clone_map labels)

  -- The keys that the loop over the datapoints puts into `seen`.
  unfoldable pub seen_series : Attributes → List Text → List Datapoint → List Text
  seen_series resource seen [] = seen
  seen_series resource seen (dp ∷ dps) =
      seen_series resource (add seen (series_key resource dp.labels)) dps

  unfoldable pub unique_series_keys : Metric → List Text
  unfolding seen_series
  unique_series_keys m = sort_texts (seen_series m.resource_attributes [] m.datapoints)

  unfoldable pub unique_series_count : Metric → ℕ
  unique_series_count m = length (unique_series_keys m)

  -- The two nested loops of `countSeries`.
  unfoldable pub seen_of_metric : Text → List Text → List Text → List Text
  seen_of_metric name seen [] = seen
  seen_of_metric name seen (series ∷ rest) =
      seen_of_metric name (add seen (name ++ (codes "|" ++ series))) rest

  unfoldable pub seen_of_metrics : List Text → List Metric → List Text
  seen_of_metrics seen [] = seen
  seen_of_metrics seen (m ∷ ms) =
      seen_of_metrics (seen_of_metric m.name seen (unique_series_keys m)) ms

  unfoldable pub count_series : Set → ℕ
  unfolding seen_of_metrics seen_of_metric
  count_series set = length (seen_of_metrics [] set.metrics)

  unfoldable pub summary_stats : Set → Set → Summary
  summary_stats input output = record {
    input_log_count = length input.logs;
    output_log_count = length output.logs;
    input_span_count = length input.spans;
    output_span_count = length output.spans;
    input_metric_count = length input.metrics;
    output_metric_count = length output.metrics;
    input_series_count = count_series input;
    output_series_count = count_series output;
  }
