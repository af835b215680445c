-- ===== src/Evaluator/Cardinality.antt =====
-- internal/evaluator/evaluator.go: `evalMaxSeries`, a limit on the series of each metric name.
pub mod Sound
use otel_policy_lab.Prelude.{
  ℕ, ◌+◌, List, [], ◌∷◌, ◌++◌, Bool, true, false, Option, none, some, Text, codes, text_Eq, nat_Eq,
  Map, lookup, insert, keys, add, length, sort_texts, ltb, ◌==◌, if◌then◌else◌,
}
use otel_policy_lab.Telemetry.{Json, Metric, Set, unique_series_keys}
use otel_policy_lab.Report.Series.{format_series}
use otel_policy_lab.Report.Check.{metrics, max_series_per_metric, series_details, CheckResult}
use otel_policy_lab.Evaluator.Results.{pass, fail}

-- `seriesByName[name]`, empty where the name is new
unfoldable pub series_at : Map Text (List Text) → Text → List Text
series_at by_name name = elim (lookup by_name name) [ none ↦ [] | some s ↦ s ]

unfoldable pub points_at : Map Text ℕ → Text → ℕ
points_at counts name = elim (lookup counts name) [ none ↦ 0 | some n ↦ n ]

unfoldable pub add_all : List Text → List Text → List Text
unfolding add
add_all seen [] = seen
add_all seen (k ∷ ks) = add_all (add seen k) ks

-- The failure of a name, where its series are too many.
unfoldable pub series_violation : ℕ → Map Text ℕ → Map Text (List Text) → Text → List CheckResult
unfolding fail
series_violation limit counts by_name name =
    let series = length (series_at by_name name) in
    if ltb limit series
    then fail metrics max_series_per_metric
        (codes "metric "
          ++ (name
              ++ (codes " has "
                  ++ (format_series series
                      ++ (codes " unique series; limit is " ++ format_series limit)))))
        (some (series_details name series (points_at counts name) limit))
      ∷ []
    else []

unfoldable pub series_violations :
    ℕ → Map Text ℕ → Map Text (List Text) → List Text → List CheckResult
unfolding series_violation
series_violations limit counts by_name [] = []
series_violations limit counts by_name (name ∷ names) =
    series_violation limit counts by_name name ++ series_violations limit counts by_name names

-- `violations == 0`
unfoldable pub or_pass : ℕ → List CheckResult → List CheckResult
unfolding pass
or_pass limit [] =
    pass metrics max_series_per_metric
      (codes "all metrics within " ++ (format_series limit ++ codes " series limit"))
    ∷ []
or_pass limit (r ∷ results) = r ∷ results

module _ (json : Json) where
  unfoldable pub series_by_name : Map Text (List Text) → List Metric → Map Text (List Text)
  unfolding series_at add_all insert
  series_by_name by_name [] = by_name
  series_by_name by_name (m ∷ ms) =
      series_by_name
        (insert by_name m.name (add_all (series_at by_name m.name) (unique_series_keys json m))) ms

  unfoldable pub point_counts : Map Text ℕ → List Metric → Map Text ℕ
  unfolding points_at insert
  point_counts counts [] = counts
  point_counts counts (m ∷ ms) =
      point_counts (insert counts m.name (points_at counts m.name + length m.datapoints)) ms

  unfoldable pub eval_max_series : Set → ℕ → List CheckResult
  unfolding series_by_name point_counts series_violations or_pass
  eval_max_series output limit =
      let by_name = series_by_name [] output.metrics in
      or_pass limit (
        series_violations limit (point_counts [] output.metrics) by_name
          (sort_texts (keys by_name)))
