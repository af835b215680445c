-- ===== src/Telemetry/Groups.antt =====
-- After `Canonicalize` no two metrics share a name and resource.
use otel_policy_lab.Prelude.{
  ◌≡◌, refl, sym, List, [], ◌∷◌, map, Text, text_Eq, text_eq_iff, some, Map, lookup, insert, keys,
  IsUnique, IsUnique-map-sort_by, IsMap, IsMap-insert, sort_by_key, All, ◌==◌, Option-cases, inl,
  inr, Bool-cases,
}
use otel_policy_lab.Telemetry.{Metric, Set, Json}
use otel_policy_lab.Telemetry.Canonical.{
  merge, group_key, group_metric, group_metrics, collect, canonicalize,
}

module _ (json : Json) where
  -- Each entry of `grouped` stands under the key of its metric.
  abbrev IsKeyed : Map Text Metric → Type 0
  IsKeyed = All (λ e. e.0 ≡ group_key json e.1)

  IsKeyed-lookup :
      (g : Map Text Metric) (k : Text) (m : Metric)
      → IsKeyed g
      → lookup g k ≡ some m
      → group_key json m ≡ k
  unfolding lookup
  IsKeyed-lookup [] k m h e = cc
  IsKeyed-lookup ((j, n) ∷ g) k m h e = elim (Bool-cases (j == k)) [
    | inl q ↦ cc ((text_eq_iff j k).0 q, rw q at e, h.0)
    | inr q ↦ IsKeyed-lookup g k m h.1 (rw q at e)
  ]

  IsKeyed-insert :
      (g : Map Text Metric) (k : Text) (m : Metric)
      → IsKeyed g
      → k ≡ group_key json m
      → IsKeyed (insert g k m)
  unfolding insert
  IsKeyed-insert [] k m h e = (e, tt)
  IsKeyed-insert ((j, n) ∷ g) k m h e = elim (Bool-cases (j == k)) [
    | inl q ↦ rw q (e, h.1)
    | inr q ↦ rw q (h.0, IsKeyed-insert g k m h.1 e)
  ]

  group_key-merge :
      (g : Map Text Metric) (m : Metric)
      → IsKeyed g
      → group_key json m ≡ group_key json (merge (lookup g (group_key json m)) m)
  unfolding merge
  group_key-merge g m h = elim (Option-cases (lookup g (group_key json m))) [
    | inl e ↦ rw (e, merge)
    | inr (n, e) ↦ rw (e, merge) (sym (IsKeyed-lookup g (group_key json m) n h e))
  ]

  IsKeyed-group_metrics :
      (g : Map Text Metric) (ms : List Metric)
      → IsKeyed g
      → IsMap g
      → IsKeyed (group_metrics json g ms) × IsMap (group_metrics json g ms)
  unfolding group_metrics group_metric
  IsKeyed-group_metrics g [] k u = (k, u)
  IsKeyed-group_metrics g (m ∷ ms) k u =
      IsKeyed-group_metrics (group_metric json g m) ms
        (IsKeyed-insert g _ _ k (group_key-merge g m k)) (IsMap-insert g _ _ u)

  map-collect : (g : Map Text Metric) → IsKeyed g → map (group_key json) (collect json g) ≡ keys g
  unfolding collect keys
  map-collect [] h = refl
  map-collect ((k, m) ∷ g) h = cc (h.0, map-collect g h.1)

  -- After canonicalizing no two metrics have the same grouping key.
  pub IsUnique-canonicalize :
      (set : Set) → IsUnique (map (group_key json) (canonicalize json set).metrics)
  unfolding canonicalize sort_by_key
  IsUnique-canonicalize set =
      let (k, u) = IsKeyed-group_metrics [] set.metrics tt (unfold keys in tt) in
      IsUnique-map-sort_by (group_key json) _ (collect json (group_metrics json [] set.metrics))
        (rw (map-collect (group_metrics json [] set.metrics) k) u)
