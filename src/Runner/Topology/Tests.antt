-- ===== src/Runner/Topology/Tests.antt =====
-- Examples: the runs of internal/runner/topology.go on a small configuration.
use otel_policy_lab.Prelude.{
  ◌≡◌, refl, ◌≤◌, length, true, false, List, [], ◌∷◌, some, Text, codes, text_Eq, text_eq, Result,
  ok, err, before,
}
use otel_policy_lab.Runner.Topology.Yaml.{
  Node, map_node, seq_node, str_node, max_depth, validate_head, validate_yaml, brace_after_dollars,
}
use otel_policy_lab.Runner.Topology.Sections.{component_sequence, provider_substitution}
use otel_policy_lab.Runner.Topology.{
  Topology, Populated, YamlDecoder, max_config_bytes, parse_topology,
}
use otel_policy_lab.Runner.Topology.Harness.{SplitHost, harness}
use otel_policy_lab.Runner.Topology.Substitution.{opens_substitution, brace_after_dollars-eq}
use otel_policy_lab.Runner.Topology.Plain.{height, IsPlain, validate_yaml_iff}
use otel_policy_lab.Runner.Topology.Accepted.{RunsFixture, parse_topology-RunsFixture}
use otel_policy_lab.Runner.Topology.Isolated.{harness_iff, component_sequence-seq_node}

abbrev chain : List Text
chain = codes "batch" ∷ codes "attributes/pii" ∷ []

abbrev settings : Node
unfolding map_node
settings = map_node ((codes "timeout", str_node (codes "1s")) ∷ [])

abbrev otlp_only : Node
otlp_only = map_node ((codes "otlp", map_node []) ∷ [])

abbrev logs_pipeline : Node
logs_pipeline = map_node (
    (codes "receivers", seq_node (codes "otlp" ∷ []))
    ∷ (codes "processors", seq_node chain)
    ∷ (codes "exporters", seq_node (codes "otlp" ∷ []))
    ∷ [])

abbrev config_of : Node → Node
config_of attributes = map_node (
    (codes "receivers", otlp_only)
    ∷ (
      codes "processors",
      map_node ((codes "batch", settings) ∷ (codes "attributes/pii", attributes) ∷ []),
    )
    ∷ (codes "exporters", otlp_only)
    ∷ (
      codes "service",
      map_node ((codes "pipelines", map_node ((codes "logs", logs_pipeline) ∷ [])) ∷ []),
    )
    ∷ [])

abbrev decoder : Node → YamlDecoder
decoder n = record { decode = λ contents. some (n ∷ []); ends = λ contents. true }

abbrev logs_only : Populated
logs_only = record { logs = true; traces = false; metrics = false }

abbrev secret_settings : Node
unfolding str_node map_node
secret_settings = map_node (
    (codes "key", str_node (codes "x$${env:KEY}"))
    ∷ (codes "password", str_node (codes "$${a}${env:KEY}"))
    ∷ [])

abbrev contents : Text
contents = codes "receivers: ..."

abbrev expected : Topology
expected = record {
  pipelines = record { name = codes "logs"; signal = codes "logs"; processors = chain } ∷ [];
  processors = (codes "batch", settings) ∷ (codes "attributes/pii", settings) ∷ [];
}

parsed : parse_topology (decoder (config_of settings)) contents logs_only ≡ ok expected
unfolding parse_topology map_node seq_node str_node validate_head text_eq brace_after_dollars
parsed = refl

parse_topology-RunsFixture_example :
    RunsFixture logs_only expected × (length contents ≤ max_config_bytes)
parse_topology-RunsFixture_example =
    parse_topology-RunsFixture (decoder (config_of settings)) contents logs_only expected parsed

substituted :
    parse_topology (decoder (config_of secret_settings)) contents logs_only
    ≡ err (provider_substitution (codes "attributes/pii"))
unfolding parse_topology map_node seq_node str_node validate_head text_eq brace_after_dollars
substituted = refl

brace_after_dollars-eq_example :
    brace_after_dollars [] (codes "$${a}${env:KEY}") ≡ opens_substitution (codes "$${a}${env:KEY}")
brace_after_dollars-eq_example = brace_after_dollars-eq (codes "$${a}${env:KEY}")

config_validates : validate_yaml (config_of settings) 0 ≡ ok tt
unfolding validate_yaml map_node seq_node str_node text_eq validate_head
config_validates = refl

validate_yaml_iff_example : IsPlain (config_of settings) × (height (config_of settings) ≤ max_depth)
validate_yaml_iff_example = (validate_yaml_iff (config_of settings)).0 config_validates

abbrev split : SplitHost
split endpoint = some (before b':' endpoint)

abbrev marshal : Node → Result Text Text
marshal n = ok (codes "receivers: ...")

abbrev receiver : Text
receiver = codes "127.0.0.1:4317"

is_split : split receiver ≡ some (codes "127.0.0.1")
unfolding before
is_split = refl

harness_iff_example : harness split marshal expected receiver receiver ≡ ok (codes "receivers: ...")
harness_iff_example =
    (harness_iff split marshal expected receiver receiver (codes "receivers: ...")).0.1
      (is_split, (is_split, refl))

chain_read : component_sequence (some (seq_node chain)) false ≡ ok chain
unfolding component_sequence seq_node text_eq
chain_read = refl

component_sequence-seq_node_example : component_sequence (some (seq_node chain)) true ≡ ok chain
component_sequence-seq_node_example =
    component_sequence-seq_node (seq_node chain) false chain chain_read
