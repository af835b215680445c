-- ===== src/Telemetry/Tests.antt =====
-- The telemetry theorems on the sample fixture.
use otel_policy_lab.Prelude.{
  ◌≡◌, ◌≤◌, refl, [], ◌∷◌, map, any, Text, codes, text_Eq, ◌==◌, length, Perm, contains, IsUnique,
  IsSorted, text_lt, keys,
}
use mathlib.Core.List.Perm
use otel_policy_lab.Telemetry.{Metric, Set, series_key, unique_series_keys, unique_series_count}
use otel_policy_lab.Telemetry.Canonical.{canonicalize, perm-canonicalize}
use otel_policy_lab.Telemetry.Series.{unique_series_keys_lem, unique_series_count-le}
use otel_policy_lab.Telemetry.Copies.{IsTelemetry}
use otel_policy_lab.Samples.{plain, shop, log_of, requests_of}

-- The metric in two requests.
abbrev batched : Set
batched = record shop {
  metrics = requests_of (codes "/a" ∷ []) ∷ requests_of (codes "/b" ∷ codes "/a" ∷ []) ∷ [];
}

abbrev requests : Metric
requests = requests_of (codes "/a" ∷ codes "/b" ∷ codes "/a" ∷ [])

abbrev paid_first : Set
paid_first = record shop { logs = log_of (codes "paid") ∷ log_of (codes "open") ∷ [] }

abbrev open_first : Set
open_first = record shop { logs = log_of (codes "open") ∷ log_of (codes "paid") ∷ [] }

perm-canonicalize_example :
    Perm (canonicalize plain paid_first).logs paid_first.logs
    × Perm (canonicalize plain paid_first).spans paid_first.spans
    × (map plain.log (canonicalize plain paid_first).logs
        ≡ map plain.log (canonicalize plain open_first).logs)
    × (map plain.span (canonicalize plain paid_first).spans
        ≡ map plain.span (canonicalize plain open_first).spans)
perm-canonicalize_example =
    perm-canonicalize plain paid_first open_first
      (Perm.swap (log_of (codes "open")) (log_of (codes "paid")) []) (Perm.refl shop.spans)

unique_series_keys_lem_example :
    IsSorted text_lt (unique_series_keys plain requests)
    × IsUnique (unique_series_keys plain requests)
    × ((k : Text)
        → contains (unique_series_keys plain requests) k
          ≡ any
              (λ dp. series_key plain requests.resource_attributes dp.labels == k)
              requests.datapoints)
unique_series_keys_lem_example = unique_series_keys_lem plain requests

unique_series_count-le_example : unique_series_count plain requests ≤ length requests.datapoints
unique_series_count-le_example = unique_series_count-le plain requests

shop-IsTelemetry : IsTelemetry shop
unfolding keys contains
shop-IsTelemetry = record {
  logs = (((refl, tt), (refl, tt)), tt);
  spans = (((refl, tt), tt), (((refl, tt), tt), tt));
  metrics = (((refl, tt), ((refl, tt), ((refl, tt), ((refl, tt), tt)))), tt);
}
