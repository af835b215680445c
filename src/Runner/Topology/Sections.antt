-- ===== src/Runner/Topology/Sections.antt =====
-- internal/runner/topology.go: component identifiers, the sections that define components, and the
-- sequences that refer to them.
use otel_policy_lab.Prelude.{
  ℕ, leb, Bool, true, false, not, ◌||◌, ◌&&◌, List, [], ◌∷◌, Option, none, some, Text, codes,
  text_Eq, nat_Eq, ◌==◌, contains, length, before, drop, Map, insert, Result, ok, err, ◌>>=◌,
  if◌then◌else◌,
}
use otel_policy_lab.Runner.Topology.Yaml.{
  sequence_node, mapping_node, scalar_node, kind_Eq, Node, Nodes, head, content_of, entries, items,
  mapping_value, YamlError,
}

abbrev pub is_letter : ℕ → Bool
is_letter c = (leb b'A' c && leb c b'Z') || (leb b'a' c && leb c b'z')

abbrev pub is_digit : ℕ → Bool
is_digit c = leb b'0' c && leb c b'9'

abbrev pub is_type_char : ℕ → Bool
is_type_char c = is_letter c || is_digit c || c == b'_'

abbrev pub is_name_char : ℕ → Bool
is_name_char c = is_type_char c || c == b'.' || c == b'-'

abbrev pub all_chars : (ℕ → Bool) → Text → Bool
all_chars p [] = true
all_chars p (c ∷ s) = p c && all_chars p s

-- `[A-Za-z][A-Za-z0-9_]{0,63}`
unfoldable pub is_type_part : Text → Bool
is_type_part [] = false
is_type_part (c ∷ s) = is_letter c && all_chars is_type_char s && leb (length s) 63

-- `(/[A-Za-z0-9][A-Za-z0-9_.-]{0,127})?`
unfoldable pub is_name_part : Text → Bool
is_name_part [] = true
is_name_part (c ∷ []) = false
is_name_part (c ∷ d ∷ s) =
    c == b'/' && (is_letter d || is_digit d) && all_chars is_name_char s && leb (length s) 127

-- The expression `componentID`: neither part of it matches a slash but the one between them.
unfoldable pub is_component_id : Text → Bool
unfolding is_type_part is_name_part before
is_component_id id =
    is_type_part (before b'/' id) && is_name_part (drop (length (before b'/' id)) id)

-- `strings.SplitN(id, "/", 2)[0]`
abbrev pub type_of : Text → Text
type_of id = before b'/' id

-- The errors of `parseTopology`. The text after a kind or a name is what the code formats in.
pub data SequenceError : Type 0 where
  no_sequence invalid_reference duplicate_reference : SequenceError

pub data TopologyError : Type 0 where
  config_too_large invalid_yaml not_one_document not_a_mapping : TopologyError
  yaml_error : YamlError → TopologyError
  unsupported_field : TopologyError
  section_not_mapping : Text → TopologyError
  invalid_component_id : Text → TopologyError
  connectors_unsupported service_not_mapping pipelines_not_mapping invalid_pipeline_id :
      TopologyError
  unsupported_signal : Text → TopologyError
  multiple_pipelines : Text → TopologyError
  pipeline_not_mapping : Text → TopologyError
  unsupported_pipeline_field : Text → TopologyError
  bad_sequence : (name kind : Text) → SequenceError → TopologyError
  undefined_component : (name kind id : Text) → TopologyError
  routing_unsupported : TopologyError
  processor_not_mapping : Text → TopologyError
  missing_pipeline : (signal : Text) → TopologyError
  provider_substitution : Text → TopologyError

abbrev pub is_null : Node → Bool
is_null n = (head n).tag == codes "!!null"

-- The loop over the entries of a section.
unfoldable pub collect_items :
    Text → Map Text Node → List (Node × Node) → Result TopologyError (Map Text Node)
unfolding is_component_id insert
collect_items kind found [] = ok found
collect_items kind found ((k, v) ∷ rest) =
    let id = (head k).value in
    let more = collect_items kind (insert found id v) rest in
    if is_component_id id then more else err (invalid_component_id kind)

-- The components that the section `kind` defines.
unfoldable pub section_items : Node → Text → Result TopologyError (Map Text Node)
unfolding mapping_value collect_items entries
section_items root kind = elim (mapping_value (some root) kind) [
  | none ↦ ok []
  | some section ↦
      if is_null section
      then ok []
      else if (head section).kind == mapping_node
      then collect_items kind [] (entries (content_of section))
      else err (section_not_mapping kind)
]

-- The map from kinds to components. Connectors have to be empty and are dropped, extensions are
-- only checked.
pub record Components : Type 0 where
  pub receivers : Map Text Node
  pub processors : Map Text Node
  pub exporters : Map Text Node

unfoldable pub components_of : Node → Result TopologyError Components
unfolding section_items
components_of root = do
  receivers ← section_items root (codes "receivers")
  processors ← section_items root (codes "processors")
  exporters ← section_items root (codes "exporters")
  connectors ← section_items root (codes "connectors")
  extensions ← section_items root (codes "extensions")
  elim connectors [
    | [] ↦ ok (record { receivers = receivers; processors = processors; exporters = exporters })
    | c ∷ cs ↦ err connectors_unsupported
  ]

-- The loop of `componentSequence`, with the references seen so far.
unfoldable pub references : List Text → List Node → Result SequenceError (List Text)
unfolding is_component_id contains
references seen [] = ok []
references seen (item ∷ rest) =
    let id = (head item).value in
    let more = references (id ∷ seen) rest in
    if not ((head item).kind == scalar_node)
      || not ((head item).tag == codes "!!str")
      || not (is_component_id id)
    then err invalid_reference
    else if contains seen id
    then err duplicate_reference
    else (more >>= λ ids. ok (id ∷ ids))

abbrev pub is_empty_content : Nodes → Bool
is_empty_content Nodes.no_nodes = true
is_empty_content (Nodes.and_node n rest) = false

-- `componentSequence` on a node that is there.
unfoldable pub sequence_of : Node → Bool → Result SequenceError (List Text)
unfolding references items
sequence_of n optional =
    if optional && is_null n
    then ok []
    else if not ((head n).kind == sequence_node)
        || (not optional && is_empty_content (content_of n))
    then err no_sequence
    else references [] (items (content_of n))

unfoldable pub component_sequence : Option Node → Bool → Result SequenceError (List Text)
unfolding sequence_of
component_sequence none optional = if optional then ok [] else err no_sequence
component_sequence (some n) optional = sequence_of n optional
