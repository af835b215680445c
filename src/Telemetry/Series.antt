-- ===== src/Telemetry/Series.antt =====
-- The series of a metric.
use otel_policy_lab.Prelude.{
  ◌+◌, ◌≤◌, ◌≡◌, ◌∙◌, ◌||◌, List, [], ◌∷◌, Text, text_Eq, text_lt, length, any, add, contains,
  contains-add, IsUnique, IsUnique-add, IsSorted, IsUnique-sort_texts, contains-sort_texts,
  length-sort_texts, sort_texts-IsSorted, ◌==◌, arith, length-append,
}
use otel_policy_lab.Telemetry.{
  Attributes, Datapoint, Metric, Json, series_key, seen_series, unique_series_keys,
  unique_series_count,
}

module _ (json : Json) where
  contains-seen_series :
      (r : Attributes) (seen : List Text) (dps : List Datapoint) (k : Text)
      → contains (seen_series json r seen dps) k
        ≡ (contains seen k || any (λ dp. series_key json r dp.labels == k) dps)
  unfolding seen_series any
  contains-seen_series r seen [] k = ground arith
  contains-seen_series r seen (dp ∷ dps) k = ground (
    arith,
    contains-seen_series r (add seen (series_key json r dp.labels)) dps k,
    contains-add seen (series_key json r dp.labels) k,
  )

  IsUnique-seen_series :
      (r : Attributes) (seen : List Text) (dps : List Datapoint)
      → IsUnique seen
      → IsUnique (seen_series json r seen dps)
  unfolding seen_series
  IsUnique-seen_series r seen [] u = u
  IsUnique-seen_series r seen (dp ∷ dps) u =
      IsUnique-seen_series r (add seen (series_key json r dp.labels)) dps
        (IsUnique-add seen (series_key json r dp.labels) u)

  length-add : (xs : List Text) (k : Text) → length (add xs k) ≤ length xs + 1
  unfolding add
  length-add xs k = ground (arith, length-append xs (k ∷ []))

  length-seen_series :
      (r : Attributes) (seen : List Text) (dps : List Datapoint)
      → length (seen_series json r seen dps) ≤ length seen + length dps
  unfolding seen_series
  length-seen_series r seen [] = omega arith
  length-seen_series r seen (dp ∷ dps) = omega (
    arith,
    length-add seen (series_key json r dp.labels),
    length-seen_series r (add seen (series_key json r dp.labels)) dps,
  )

  pub contains-unique_series_keys :
      (m : Metric) (k : Text)
      → contains (unique_series_keys json m) k
        ≡ any (λ dp. series_key json m.resource_attributes dp.labels == k) m.datapoints
  unfolding unique_series_keys contains
  contains-unique_series_keys m k =
      contains-sort_texts _ k ∙ contains-seen_series m.resource_attributes [] m.datapoints k

  pub IsUnique-unique_series_keys : (m : Metric) → IsUnique (unique_series_keys json m)
  unfolding unique_series_keys
  IsUnique-unique_series_keys m =
      IsUnique-sort_texts _ (IsUnique-seen_series m.resource_attributes [] m.datapoints tt)

  -- The series keys of a metric are sorted, none is repeated, and a text is among them exactly
  -- if it is the key of a datapoint.
  pub unique_series_keys_lem :
      (m : Metric)
      → IsSorted text_lt (unique_series_keys json m)
        × IsUnique (unique_series_keys json m)
        × ((k : Text)
            → contains (unique_series_keys json m) k
              ≡ any (λ dp. series_key json m.resource_attributes dp.labels == k) m.datapoints)
  unfolding unique_series_keys
  unique_series_keys_lem m =
      (sort_texts-IsSorted _, IsUnique-unique_series_keys m, contains-unique_series_keys m)

  -- A metric has at most as many series as datapoints.
  pub unique_series_count-le : (m : Metric) → unique_series_count json m ≤ length m.datapoints
  unfolding unique_series_count unique_series_keys
  unique_series_count-le m = omega (
    arith,
    length-sort_texts (seen_series json m.resource_attributes [] m.datapoints),
    length-seen_series m.resource_attributes [] m.datapoints,
  )
