-- ===== src/Telemetry/Otlp/Tests.antt =====
-- Examples: telemetry of two resources, and a fixture file of one log record with a decoder that
-- knows nothing else.
use otel_policy_lab.Prelude.{
  ◌≡◌, ◌≤◌, refl, true, [], ◌∷◌, map, some, Text, codes, text_Eq, text_eq, ok,
}
use otel_policy_lab.Telemetry.{LogRecord}
use otel_policy_lab.Files.{FileInfo}
use otel_policy_lab.Telemetry.Otlp.{Otlp, max_json_bytes, normalize, load_otlp}
use otel_policy_lab.Samples.Otlp.{pairs, two_resources, decoder, info, one_file, logs_only}
use otel_policy_lab.Telemetry.Otlp.Normal.{attrs_to_map}
use otel_policy_lab.Telemetry.Otlp.Entries.{IsAttributes}
use otel_policy_lab.Telemetry.Otlp.Records.{flat_logs, flat_spans, flat_metrics}
use otel_policy_lab.Telemetry.Otlp.Flat.{normalize-eq}
use otel_policy_lab.Telemetry.Otlp.Bounded.{Reads, load_otlp-bounded}

abbrev fixture : Otlp pairs
fixture = record { logs = two_resources; traces = two_resources; metrics = two_resources }

normalize-eq_example :
    (normalize pairs fixture ≡ record {
      logs = flat_logs pairs two_resources;
      spans = flat_spans pairs two_resources;
      metrics = flat_metrics pairs two_resources;
    })
    × ((attrs : pairs.Attrs) → IsAttributes pairs attrs (attrs_to_map pairs attrs))
normalize-eq_example = normalize-eq pairs fixture

bodies :
    map (λ (l : LogRecord). l.body) (normalize pairs fixture).logs
    ≡ codes "paid" ∷ codes "open" ∷ codes "late" ∷ []
unfolding normalize
bodies = refl

loads : load_otlp pairs decoder one_file (codes "fixture.json") ≡ ok logs_only
unfolding load_otlp text_eq
loads = refl

load_otlp-bounded_example :
    (i : FileInfo) × (f : Text) × (some info ≡ some i)
    × (i.is_regular ≡ true)
    × (i.size ≤ max_json_bytes)
    × (some (codes "{}") ≡ some f)
    × Reads pairs decoder one_file f logs_only
load_otlp-bounded_example =
    load_otlp-bounded pairs decoder one_file (codes "fixture.json") logs_only loads
