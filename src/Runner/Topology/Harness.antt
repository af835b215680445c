-- ===== src/Runner/Topology/Harness.antt =====
-- internal/runner/topology.go: the configuration that is run in place of the given one, with the
-- receivers and exporters replaced.
use otel_policy_lab.Prelude.{
  Bool, true, false, not, ◌||◌, [], ◌∷◌, map, Option, none, some, Text, codes, text_Eq, ◌==◌,
  Result, ok, err, if◌then◌else◌,
}
use otel_policy_lab.Diagnostics.{PipelineDiagnostics}
use otel_policy_lab.Runner.Topology.Yaml.{
  Node, map_node, seq_node, str_node, bool_node, int_node, clone_node,
}
use otel_policy_lab.Runner.Topology.{Topology}

abbrev pub harness_id : Text
harness_id = codes "otlp/policy_lab"

-- `net.SplitHostPort`: the host, where the endpoint can be split.
abbrev pub SplitHost : Type 0
SplitHost = Text → Option Text

unfoldable pub is_loopback : SplitHost → Text → Bool
is_loopback split endpoint = elim (split endpoint) [
  | none ↦ false
  | some host ↦ host == codes "127.0.0.1"
]

unfoldable pub harness_receivers : Text → Node
unfolding map_node str_node int_node
harness_receivers receiver = map_node (
    (
      harness_id,
      map_node (
          (
            codes "protocols",
            map_node (
                (
                  codes "grpc",
                  map_node (
                      (codes "endpoint", str_node receiver)
                      ∷ (codes "max_recv_msg_size_mib", int_node 16)
                      ∷ []),
                )
                ∷ []),
          )
          ∷ []),
    )
    ∷ [])

unfoldable pub harness_exporters : Text → Node
unfolding map_node str_node bool_node
harness_exporters capture = map_node (
    (
      harness_id,
      map_node (
          (codes "endpoint", str_node capture)
          ∷ (codes "tls", map_node ((codes "insecure", bool_node true) ∷ []))
          ∷ (codes "compression", str_node (codes "none"))
          ∷ (codes "sending_queue", map_node ((codes "enabled", bool_node false) ∷ []))
          ∷ (codes "retry_on_failure", map_node ((codes "enabled", bool_node false) ∷ []))
          ∷ (codes "timeout", str_node (codes "2s"))
          ∷ []),
    )
    ∷ [])

unfoldable pub harness_pipeline : PipelineDiagnostics → Text × Node
unfolding map_node seq_node
harness_pipeline p = (
  p.name,
  map_node (
      (codes "receivers", seq_node (harness_id ∷ []))
      ∷ (codes "processors", seq_node p.processors)
      ∷ (codes "exporters", seq_node (harness_id ∷ []))
      ∷ []),
)

unfoldable pub harness_telemetry : Node
unfolding map_node str_node
harness_telemetry = map_node (
    (codes "logs", map_node ((codes "level", str_node (codes "info")) ∷ []))
    ∷ (codes "metrics", map_node ((codes "level", str_node (codes "none")) ∷ []))
    ∷ [])

-- The root that is marshalled.
unfoldable pub harness_root : Topology → (receiver capture : Text) → Node
unfolding map_node harness_receivers harness_exporters harness_pipeline harness_telemetry clone_node
harness_root t receiver capture = map_node (
    (codes "receivers", harness_receivers receiver)
    ∷ (codes "processors", clone_node (map_node t.processors))
    ∷ (codes "exporters", harness_exporters capture)
    ∷ (
      codes "service",
      map_node (
          (codes "pipelines", map_node (map harness_pipeline t.pipelines))
          ∷ (codes "telemetry", harness_telemetry)
          ∷ []),
    )
    ∷ [])

-- The two errors of `harness`.
pub data HarnessError : Type 0 where
  not_loopback : HarnessError
  marshal_failed : Text → HarnessError

-- `marshal` is `yaml.Marshal`.
unfoldable pub harness :
    SplitHost
    → (Node → Result Text Text)
    → Topology
    → (receiver capture : Text) → Result HarnessError Text
unfolding is_loopback harness_root
harness split marshal t receiver capture =
    if not (is_loopback split receiver) || not (is_loopback split capture)
    then err not_loopback
    else elim (marshal (harness_root t receiver capture)) [
      | ok text ↦ ok text
      | err e ↦ err (marshal_failed e)
    ]
