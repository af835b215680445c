-- ===== src/Telemetry/Copies.antt =====
-- A clone equals the telemetry that it copies, where each of its maps holds a key once.
use mathlib.Core.List.{append_assoc, append-nil}
use otel_policy_lab.Prelude.{
  ◌≡◌, refl, sym, ap, ap₂, ◌∙◌, true, false, List, [], ◌∷◌, ◌++◌, map, Text, text_Eq, text_eq_iff,
  insert, keys, IsMap, has_key, has_key-snoc, contains, contains-keys, arith, All,
}
use otel_policy_lab.Telemetry.{
  Attributes, LogRecord, Span, Datapoint, Metric, Set, copy_entries, clone_map, clone_log,
  clone_span, clone_metric, clone_datapoint, clone,
}

insert_fresh : (m : Attributes) (k v : Text) → has_key m k ≡ false → insert m k v ≡ m ++ (k, v) ∷ []
unfolding insert has_key
insert_fresh [] k v h = refl
insert_fresh ((j, w) ∷ m) k v h = ground (arith, insert_fresh m k v)

copy_entries-eq :
    (out m : Attributes)
    → IsMap m
    → ((k : Text) → has_key m k ≡ true → has_key out k ≡ false)
    → copy_entries out m ≡ out ++ m
unfolding copy_entries keys has_key contains
copy_entries-eq out [] u h = sym (append-nil out)
copy_entries-eq out ((k, v) ∷ m) u h =
    ap (λ o. copy_entries o m) (insert_fresh out k v (h k (ground (arith, text_eq_iff k k))))
    ∙ copy_entries-eq (out ++ (k, v) ∷ []) m u.1
        (λ j e. ground (arith, has_key-snoc out k v j, h j, text_eq_iff k j, contains-keys m k))
    ∙ append_assoc out ((k, v) ∷ []) m

pub clone_map-eq : (m : Attributes) → IsMap m → clone_map m ≡ m
unfolding clone_map has_key
clone_map-eq m u = copy_entries-eq [] m u (λ k h. refl)

abbrev pub IsLog : LogRecord → Type 0
IsLog l = IsMap l.resource_attributes × IsMap l.attributes

abbrev pub IsSpan : Span → Type 0
IsSpan s = IsMap s.resource_attributes × IsMap s.attributes

abbrev pub IsDatapoint : Datapoint → Type 0
IsDatapoint d = IsMap d.labels

abbrev pub IsMetric : Metric → Type 0
IsMetric m = IsMap m.resource_attributes × All IsDatapoint m.datapoints

-- Every map of the telemetry holds a key once, as Go's maps do.
pub record IsTelemetry (s : Set) : Type 0 where
  pub logs : All IsLog s.logs
  pub spans : All IsSpan s.spans
  pub metrics : All IsMetric s.metrics

map-eq_of_All :
    {A : Type 0} (P : A → Type 0) (f : A → A)
    → ((a : A) → P a → f a ≡ a)
    → (xs : List A) → All P xs
    → map f xs ≡ xs
map-eq_of_All P f h [] a = refl
map-eq_of_All P f h (x ∷ xs) a = ap₂ ◌∷◌ (h x a.0) (map-eq_of_All P f h xs a.1)

clone_log-eq : (l : LogRecord) → IsLog l → clone_log l ≡ l
unfolding clone_log
clone_log-eq l u = cc (clone_map-eq l.resource_attributes u.0, clone_map-eq l.attributes u.1)

clone_span-eq : (s : Span) → IsSpan s → clone_span s ≡ s
unfolding clone_span
clone_span-eq s u = cc (clone_map-eq s.resource_attributes u.0, clone_map-eq s.attributes u.1)

clone_datapoint-eq : (d : Datapoint) → IsDatapoint d → clone_datapoint d ≡ d
unfolding clone_datapoint
clone_datapoint-eq d u = cc (clone_map-eq d.labels u)

clone_metric-eq : (m : Metric) → IsMetric m → clone_metric m ≡ m
unfolding clone_metric
clone_metric-eq m u = cc (
  clone_map-eq m.resource_attributes u.0,
  map-eq_of_All IsDatapoint clone_datapoint clone_datapoint-eq m.datapoints u.1,
)

-- If every map of the telemetry holds a key once, the clone equals the original.
pub clone-eq : (s : Set) → IsTelemetry s → clone s ≡ s
unfolding clone
clone-eq s t = cc (
  map-eq_of_All IsLog clone_log clone_log-eq s.logs t.logs,
  map-eq_of_All IsSpan clone_span clone_span-eq s.spans t.spans,
  map-eq_of_All IsMetric clone_metric clone_metric-eq s.metrics t.metrics,
)
