-- ===== src/Telemetry/Canonical.antt =====
-- internal/telemetry/canonical.go: the order of capture requests and their batching are removed.
use otel_policy_lab.Prelude.{
  ℕ, ◌+◌, ◌≡◌, refl, ap, ◌∙◌, Bool, List, [], ◌∷◌, ◌++◌, map, Perm, Option, none, some, Text,
  text_Eq, text_lt, length, length-append, Map, lookup, insert, sort_by_key, length-sort_by,
  perm-sort_by_key, sort_by, sort_by-perm, place, arith,
}
use otel_policy_lab.Telemetry.{Metric, Set, Json}

-- The metric that a group holds after one more metric of it was met.
unfoldable pub merge : Option Metric → Metric → Metric
merge none metric = metric
merge (some existing) metric = record existing {
  datapoints = existing.datapoints ++ metric.datapoints;
}

module _ (json : Json) where
  abbrev pub group_key : Metric → Text
  group_key metric = json.metric_group metric.name metric.resource_attributes

  -- One round of the loop over the metrics: `grouped` maps a name and resource to one metric.
  unfoldable pub group_metric : Map Text Metric → Metric → Map Text Metric
  unfolding lookup insert merge
  group_metric grouped metric =
      insert grouped (group_key metric) (merge (lookup grouped (group_key metric)) metric)

  unfoldable pub group_metrics : Map Text Metric → List Metric → Map Text Metric
  unfolding group_metric
  group_metrics grouped [] = grouped
  group_metrics grouped (m ∷ ms) = group_metrics (group_metric grouped m) ms

  -- The loop that sorts each group's datapoints and collects the groups.
  unfoldable pub collect : Map Text Metric → List Metric
  unfolding sort_by_key
  collect [] = []
  collect ((_, m) ∷ grouped) =
      record m { datapoints = sort_by_key json.datapoint m.datapoints } ∷ collect grouped

  unfoldable pub canonicalize : Set → Set
  unfolding group_metrics collect
  canonicalize set = record {
    logs = sort_by_key json.log set.logs;
    spans = sort_by_key json.span set.spans;
    metrics = sort_by_key json.metric (collect (group_metrics [] set.metrics));
  }

unfoldable pub points : List Metric → ℕ
points [] = 0
points (m ∷ ms) = length m.datapoints + points ms

-- The datapoints of the groups.
abbrev grouped_points : Map Text Metric → ℕ
grouped_points [] = 0
grouped_points ((_, m) ∷ g) = length m.datapoints + grouped_points g

points_of : Option Metric → ℕ
points_of none = 0
points_of (some m) = length m.datapoints

points-insert :
    (g : Map Text Metric) (k : Text) (m : Metric)
    → grouped_points (insert g k m) + points_of (lookup g k)
      ≡ grouped_points g + length m.datapoints
unfolding insert lookup points_of
points-insert [] k m = omega arith
points-insert ((j, n) ∷ g) k m = ground (arith, points-insert g k m)

points-merge :
    (o : Option Metric) (m : Metric)
    → length (merge o m).datapoints ≡ points_of o + length m.datapoints
unfolding merge points_of
points-merge none m = omega arith
points-merge (some n) m = omega (arith, length-append n.datapoints m.datapoints)

points-place :
    (less : Metric → Metric → Bool) (m : Metric) (ms : List Metric)
    → points (place less m ms) ≡ length m.datapoints + points ms
unfolding points place
points-place less m [] = refl
points-place less m (n ∷ ms) = ground (arith, points-place less m ms)

points-sort_by :
    (less : Metric → Metric → Bool) (ms : List Metric) → points (sort_by less ms) ≡ points ms
unfolding points sort_by
points-sort_by less [] = refl
points-sort_by less (m ∷ ms) =
    points-place less m (sort_by less ms)
    ∙ ap (λ k. length m.datapoints + k) (points-sort_by less ms)

module _ (json : Json) where
  points-group_metric :
      (g : Map Text Metric) (m : Metric)
      → grouped_points (group_metric json g m) ≡ grouped_points g + length m.datapoints
  unfolding group_metric
  points-group_metric g m = omega (
    arith,
    points-insert g (group_key json m) (merge (lookup g (group_key json m)) m),
    points-merge (lookup g (group_key json m)) m,
  )

  points-group_metrics :
      (g : Map Text Metric) (ms : List Metric)
      → grouped_points (group_metrics json g ms) ≡ grouped_points g + points ms
  unfolding group_metrics points
  points-group_metrics g [] = omega arith
  points-group_metrics g (m ∷ ms) =
      omega (arith, points-group_metrics (group_metric json g m) ms, points-group_metric g m)

  points-collect : (g : Map Text Metric) → points (collect json g) ≡ grouped_points g
  unfolding collect points
  points-collect [] = refl
  points-collect ((k, m) ∷ g) = omega (
    arith,
    points-collect g,
    length-sort_by (λ a b. text_lt (json.datapoint a) (json.datapoint b)) m.datapoints,
  )

  -- Canonicalizing telemetry keeps the number of its datapoints.
  pub points-canonicalize :
      (set : Set) → points (canonicalize json set).metrics ≡ points set.metrics
  unfolding canonicalize sort_by_key
  points-canonicalize set = omega (
    arith,
    points-sort_by (λ a b. text_lt (json.metric a) (json.metric b))
        (collect json (group_metrics json [] set.metrics)),
    points-collect (group_metrics json [] set.metrics),
    points-group_metrics [] set.metrics,
  )

  -- If the logs and the spans of two sets are the same up to order, the canonical logs and spans
  -- of the first are its logs and spans up to order, and the encodings of the canonical logs and
  -- spans of both sets are the same lists.
  pub perm-canonicalize :
      (a b : Set)
      → Perm a.logs b.logs
      → Perm a.spans b.spans
      → Perm (canonicalize json a).logs a.logs
        × Perm (canonicalize json a).spans a.spans
        × (map json.log (canonicalize json a).logs ≡ map json.log (canonicalize json b).logs)
        × (map json.span (canonicalize json a).spans ≡ map json.span (canonicalize json b).spans)
  unfolding canonicalize
  perm-canonicalize a b p q = (
    unfold sort_by_key in sort_by-perm _ a.logs,
    unfold sort_by_key in sort_by-perm _ a.spans,
    perm-sort_by_key json.log a.logs b.logs p,
    perm-sort_by_key json.span a.spans b.spans q,
  )
