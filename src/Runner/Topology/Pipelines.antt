-- ===== src/Runner/Topology/Pipelines.antt =====
-- internal/runner/topology.go: the loop of `parseTopology` over the pipelines.
use otel_policy_lab.Prelude.{
  Bool, true, false, not, ◌||◌, ◌&&◌, List, [], ◌∷◌, ◌++◌, none, some, Text, codes, text_Eq, ◌==◌,
  contains, Map, lookup, Result, ok, err, ◌>>=◌, ◌>>◌, map_err, if◌then◌else◌,
}
use otel_policy_lab.Diagnostics.{PipelineDiagnostics}
use otel_policy_lab.Runner.Topology.Yaml.{
  mapping_node, kind_Eq, Node, head, content_of, entries, mapping_value, clone_node,
}
use otel_policy_lab.Runner.Topology.Sections.{
  is_component_id, type_of, is_null, Components, component_sequence, TopologyError,
  invalid_pipeline_id, unsupported_signal, multiple_pipelines, pipeline_not_mapping,
  unsupported_pipeline_field, bad_sequence, undefined_component, routing_unsupported,
  processor_not_mapping,
}

-- `out`, with its mapping of processors by the entries that were put into it, and the two sets.
pub record PipelineState : Type 0 where
  pub pipelines : List PipelineDiagnostics
  pub processors : Map Text Node
  pub seen_signals : List Text
  pub seen_processors : List Text

abbrev pub is_signal : Text → Bool
is_signal s = s == codes "logs" || s == codes "traces" || s == codes "metrics"

abbrev pub is_pipeline_field : Text → Bool
is_pipeline_field f = f == codes "receivers" || f == codes "processors" || f == codes "exporters"

unfoldable pub check_fields : Text → List (Node × Node) → Result TopologyError (Unit {0})
check_fields name [] = ok tt
check_fields name ((k, v) ∷ rest) =
    let more = check_fields name rest in
    if is_pipeline_field (head k).value then more else err (unsupported_pipeline_field name)

-- The loop over the references to receivers or exporters.
unfoldable pub check_defined :
    (name kind : Text) → Map Text Node → List Text → Result TopologyError (Unit {0})
unfolding lookup
check_defined name kind defined [] = ok tt
check_defined name kind defined (id ∷ ids) =
    let more = check_defined name kind defined ids in
    elim (lookup defined id) [
      | none ↦ err (undefined_component name kind id)
      | some definition ↦ more
    ]

-- The body of the loop for a processor that is defined.
unfoldable pub use_processor : Text → Node → PipelineState → Result TopologyError PipelineState
unfolding contains clone_node
use_processor id definition st =
    if type_of id == codes "routing"
    then err routing_unsupported
    else if not ((head definition).kind == mapping_node) && not (is_null definition)
    then err (processor_not_mapping id)
    else if contains st.seen_processors id
    then ok st
    else ok (record st {
      processors = st.processors ++ (id, clone_node definition) ∷ [];
      seen_processors = id ∷ st.seen_processors;
    })

-- The loop over the references to processors.
unfoldable pub use_processors :
    Text → Map Text Node → List Text → PipelineState → Result TopologyError PipelineState
unfolding lookup use_processor
use_processors name defined [] st = ok st
use_processors name defined (id ∷ ids) st = elim (lookup defined id) [
  | none ↦ err (undefined_component name (codes "processors") id)
  | some definition ↦ use_processor id definition st >>= use_processors name defined ids
]

unfoldable pub sequence_in : (name kind : Text) → Node → Bool → Result TopologyError (List Text)
unfolding component_sequence mapping_value
sequence_in name kind pipeline optional =
    map_err (bad_sequence name kind)
      (component_sequence (mapping_value (some pipeline) kind) optional)

-- The part of the loop's body that reads the three sequences of a pipeline.
unfoldable pub add_chain :
    Components → (name signal : Text) → Node → PipelineState → Result TopologyError PipelineState
unfolding sequence_in check_defined use_processors
add_chain components name signal pipeline st = do
  receivers ← sequence_in name (codes "receivers") pipeline false
  check_defined name (codes "receivers") components.receivers receivers
  ids ← sequence_in name (codes "processors") pipeline true
  next ← use_processors name components.processors ids st
  exporters ← sequence_in name (codes "exporters") pipeline false
  check_defined name (codes "exporters") components.exporters exporters
  ok (record next {
    pipelines = next.pipelines ++ record { name = name; signal = signal; processors = ids } ∷ [];
  })

-- The body of the loop.
unfoldable pub add_pipeline :
    Components → Text → Node → PipelineState → Result TopologyError PipelineState
unfolding is_component_id contains check_fields entries add_chain
add_pipeline components name pipeline st =
    let signal = type_of name in
    if not (is_component_id name)
    then err invalid_pipeline_id
    else if not (is_signal signal)
    then err (unsupported_signal name)
    else if contains st.seen_signals signal
    then err (multiple_pipelines signal)
    else if not ((head pipeline).kind == mapping_node)
    then err (pipeline_not_mapping name)
    else check_fields name (entries (content_of pipeline))
      >> add_chain components name signal pipeline
          (record st { seen_signals = signal ∷ st.seen_signals })

unfoldable pub add_pipelines :
    Components → List (Node × Node) → PipelineState → Result TopologyError PipelineState
unfolding add_pipeline
add_pipelines components [] st = ok st
add_pipelines components ((k, v) ∷ rest) st =
    add_pipeline components (head k).value v st >>= add_pipelines components rest
