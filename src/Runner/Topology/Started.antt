-- ===== src/Runner/Topology/Started.antt =====
-- What the configuration of the harness in internal/runner/topology.go starts: the tree is read
-- path by path, by a reader of its own.
use otel_policy_lab.Prelude.{
  ◌≡◌, refl, ap, ap₂, ◌∙◌, List, [], ◌∷◌, map, Option, none, some, Text, codes, text_Eq, text_eq,
  ◌==◌, lookup, keys, if◌then◌else◌, Bool-cases, inl, inr,
}
use otel_policy_lab.Diagnostics.{PipelineDiagnostics}
use otel_policy_lab.Runner.Topology.Yaml.{
  Node, Nodes, no_nodes, and_node, head, content_of, map_node, put_all, seq_node, str_node,
  str_nodes, bool_node, int_node, clone_node, clone_nodes,
}
use otel_policy_lab.Runner.Topology.{Topology}
use otel_policy_lab.Runner.Topology.Harness.{
  harness_receivers, harness_exporters, harness_pipeline, harness_telemetry, harness_root,
}

-- The value at a key of a mapping.
abbrev child : Nodes → Text → Option Node
child no_nodes key = none
child (and_node k no_nodes) key = none
child (and_node k (and_node v rest)) key =
    let later = child rest key in if (head k).value == key then some v else later

-- The keys of a mapping, and the texts of a sequence.
abbrev keys_of : Nodes → List Text
keys_of no_nodes = []
keys_of (and_node k no_nodes) = []
keys_of (and_node k (and_node v rest)) = (head k).value ∷ keys_of rest

abbrev texts_of : Nodes → List Text
texts_of no_nodes = []
texts_of (and_node n rest) = (head n).value ∷ texts_of rest

-- The node at the end of a path of keys, and what is read from it.
abbrev at : Node → List Text → Option Node
at n [] = some n
at n (key ∷ path) = elim (child (content_of n) key) [ none ↦ none | some m ↦ at m path ]

abbrev text_at : Node → List Text → Option Text
text_at n path = elim (at n path) [ none ↦ none | some m ↦ some (head m).value ]

abbrev keys_at : Node → List Text → List Text
keys_at n path = elim (at n path) [ none ↦ [] | some m ↦ keys_of (content_of m) ]

abbrev texts_at : Node → List Text → List Text
texts_at n path = elim (at n path) [ none ↦ [] | some m ↦ texts_of (content_of m) ]

-- A pipeline as a reader finds it: its name, receivers, processors and exporters.
pub record Chain : Type 0 where
  pub name : Text
  pub receivers : List Text
  pub processors : List Text
  pub exporters : List Text

abbrev chains_of : Nodes → List Chain
chains_of no_nodes = []
chains_of (and_node k no_nodes) = []
chains_of (and_node k (and_node v rest)) =
    record {
      name = (head k).value;
      receivers = texts_at v (codes "receivers" ∷ []);
      processors = texts_at v (codes "processors" ∷ []);
      exporters = texts_at v (codes "exporters" ∷ []);
    }
    ∷ chains_of rest

abbrev chains_at : Node → List Text → List Chain
chains_at n path = elim (at n path) [ none ↦ [] | some m ↦ chains_of (content_of m) ]

-- The component that takes the place of all receivers and exporters.
abbrev policy_lab : Text
policy_lab = codes "otlp/policy_lab"

abbrev expected_chain : PipelineDiagnostics → Chain
expected_chain p = record {
  name = p.name;
  receivers = policy_lab ∷ [];
  processors = p.processors;
  exporters = policy_lab ∷ [];
}

-- A configuration that receives at one endpoint and exports to another, without a queue and
-- without retries, and whose pipelines run the processors of the topology in between.
pub record IsHarness (t : Topology) (receiver capture : Text) (root : Node) : Type 0 where
  pub sections :
      keys_at root []
      ≡ codes "receivers" ∷ codes "processors" ∷ codes "exporters" ∷ codes "service" ∷ []
  pub receivers : keys_at root (codes "receivers" ∷ []) ≡ policy_lab ∷ []
  pub protocols :
      keys_at root (codes "receivers" ∷ policy_lab ∷ codes "protocols" ∷ []) ≡ codes "grpc" ∷ []
  pub listens_at :
      text_at root
        (codes "receivers" ∷ policy_lab ∷ codes "protocols" ∷ codes "grpc" ∷ codes "endpoint" ∷ [])
      ≡ some receiver
  pub exporters : keys_at root (codes "exporters" ∷ []) ≡ policy_lab ∷ []
  pub exports_to :
      text_at root (codes "exporters" ∷ policy_lab ∷ codes "endpoint" ∷ []) ≡ some capture
  pub is_unqueued :
      text_at root (codes "exporters" ∷ policy_lab ∷ codes "sending_queue" ∷ codes "enabled" ∷ [])
      ≡ some (codes "false")
  pub is_unretried :
      text_at root
        (codes "exporters" ∷ policy_lab ∷ codes "retry_on_failure" ∷ codes "enabled" ∷ [])
      ≡ some (codes "false")
  pub processors : keys_at root (codes "processors" ∷ []) ≡ keys t.processors
  pub definitions :
      (id : Text)
      → at root (codes "processors" ∷ id ∷ [])
        ≡ elim (lookup t.processors id) [ none ↦ none | some n ↦ some (clone_node n) ]
  pub services : keys_at root (codes "service" ∷ []) ≡ codes "pipelines" ∷ codes "telemetry" ∷ []
  pub pipelines :
      chains_at root (codes "service" ∷ codes "pipelines" ∷ []) ≡ map expected_chain t.pipelines
  pub metrics_level :
      text_at root (codes "service" ∷ codes "telemetry" ∷ codes "metrics" ∷ codes "level" ∷ [])
      ≡ some (codes "none")

texts_of-str_nodes : (ids : List Text) → texts_of (str_nodes ids) ≡ ids
unfolding str_nodes str_node
texts_of-str_nodes [] = refl
texts_of-str_nodes (id ∷ ids) = ap (λ l. id ∷ l) (texts_of-str_nodes ids)

chains_of-put_all :
    (ps : List PipelineDiagnostics)
    → chains_of (put_all (map harness_pipeline ps)) ≡ map expected_chain ps
unfolding put_all harness_pipeline map_node seq_node str_node str_nodes text_eq
chains_of-put_all [] = refl
chains_of-put_all (p ∷ ps) =
    ap₂
      (λ (l : List Text) cs.
        record {
          name = p.name;
          receivers = policy_lab ∷ [];
          processors = l;
          exporters = policy_lab ∷ [];
        }
        ∷ cs)
      (texts_of-str_nodes p.processors) (chains_of-put_all ps)

keys_of-clone : (ps : List (Text × Node)) → keys_of (clone_nodes (put_all ps)) ≡ keys ps
unfolding clone_nodes put_all keys str_node
keys_of-clone [] = refl
keys_of-clone ((k, v) ∷ ps) = ap (λ l. k ∷ l) (keys_of-clone ps)

child-clone :
    (ps : List (Text × Node)) (id : Text)
    → child (clone_nodes (put_all ps)) id
      ≡ elim (lookup ps id) [ none ↦ none | some n ↦ some (clone_node n) ]
unfolding clone_nodes put_all lookup str_node
child-clone [] id = refl
child-clone ((k, v) ∷ ps) id = elim (Bool-cases (k == id)) [
  | inl e ↦ rw e refl
  | inr e ↦ rw e (child-clone ps id)
]

read_again : (o : Option Node) → elim o [ none ↦ none | some n ↦ some n ] ≡ o
read_again none = refl
read_again (some n) = refl

pub harness_root-IsHarness :
    (t : Topology) (receiver capture : Text)
    → IsHarness t receiver capture (harness_root t receiver capture)
unfolding harness_root harness_receivers harness_exporters harness_telemetry map_node put_all
    str_node bool_node int_node clone_node clone_nodes text_eq
harness_root-IsHarness t receiver capture = record {
  sections = refl;
  receivers = refl;
  protocols = refl;
  listens_at = refl;
  exporters = refl;
  exports_to = refl;
  is_unqueued = refl;
  is_unretried = refl;
  processors = keys_of-clone t.processors;
  definitions = λ id.
      ap (λ (o : Option Node). elim o [ none ↦ none | some n ↦ some n ])
        (child-clone t.processors id)
      ∙ read_again _;
  services = refl;
  pipelines = chains_of-put_all t.pipelines;
  metrics_level = refl;
}
