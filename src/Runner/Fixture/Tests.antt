-- ===== src/Runner/Fixture/Tests.antt =====
-- A configuration with a known, an unknown and an undefined processor.
use otel_policy_lab.Telemetry.{Attributes}
use otel_policy_lab.Prelude.{◌≡◌, refl, true, has_key, [], ◌∷◌, codes, text_Eq, contains, text_eq}
use otel_policy_lab.Samples.{literals, shop}
use otel_policy_lab.Runner.Fixture.Config.{
  string_value, list_value, map_value, no_values, and_value, Fields, no_fields, with_field,
  CollectorConfig,
}
use otel_policy_lab.Runner.Fixture.{apply_config}
use otel_policy_lab.Runner.Fixture.Accounts.{is_reported}
use otel_policy_lab.Runner.Fixture.Used.{IsUsed, by_pipeline, by_default}
use otel_policy_lab.Runner.Fixture.Reports.{apply_config-reports}

abbrev delete_user : Fields
delete_user =
    with_field (codes "actions")
      (list_value (
        and_value
          (map_value (
            with_field (codes "key") (string_value (codes "user"))
              (with_field (codes "action") (string_value (codes "delete")) no_fields)))
          no_values))
      no_fields

abbrev config : CollectorConfig
config = record {
  processors =
      (codes "batch", no_fields)
      ∷ (codes "attributes/user", delete_user)
      ∷ (codes "tail_sampling", no_fields)
      ∷ [];
  pipelines =
      (codes "logs/a", codes "batch" ∷ codes "attributes/user" ∷ [])
      ∷ (codes "logs/b", codes "redaction" ∷ [])
      ∷ (codes "traces", codes "tail_sampling" ∷ [])
      ∷ [];
}

-- A processor of the second of two pipelines of a signal.
redaction-IsUsed : IsUsed config (codes "redaction")
unfolding contains text_eq
redaction-IsUsed = by_pipeline refl

apply_config-reports_example :
    is_reported (apply_config literals shop config) (codes "redaction") ≡ true
apply_config-reports_example =
    apply_config-reports literals shop config (codes "redaction") redaction-IsUsed

-- Without pipelines all processors are used.
sampling-IsUsed : IsUsed (record config { pipelines = [] }) (codes "tail_sampling")
unfolding has_key text_eq
sampling-IsUsed = by_default refl refl

abbrev ann : Attributes
ann = (codes "user", codes "ann") ∷ (codes "route", codes "/a") ∷ []
