-- ===== src/Runner/Topology.antt =====
-- internal/runner/topology.go: the processor chains of a configuration.
pub mod Yaml
pub mod Sections
pub mod Pipelines
pub mod Harness
pub mod Substitution
pub mod Plain
pub mod Selected
pub mod Used
pub mod Closed
pub mod Accepted
pub mod Started
pub mod Isolated
mod Tests
use otel_policy_lab.Prelude.{
  ℕ, ◌*◌, ltb, Bool, true, false, not, ◌||◌, ◌&&◌, List, [], ◌∷◌, ◌++◌, map, Option, none, some,
  is_some, Text, codes, text_Eq, ◌==◌, contains, Map, lookup, insert, length, text_lt, sort_by,
  sort_texts, Result, ok, err, ◌>>=◌, ◌>>◌, map_err, if◌then◌else◌,
}
use otel_policy_lab.Diagnostics.{PipelineDiagnostics}
use otel_policy_lab.Runner.Topology.Yaml.{
  mapping_node, kind_Eq, Node, Nodes, head, content_of, entries, find_entry, mapping_value,
  validate_yaml, has_provider_substitution, YamlError,
}
use otel_policy_lab.Runner.Topology.Sections.{
  type_of, components_of, Components, TopologyError, config_too_large, invalid_yaml,
  not_one_document, not_a_mapping, yaml_error, unsupported_field, service_not_mapping,
  pipelines_not_mapping, missing_pipeline, provider_substitution,
}
use otel_policy_lab.Runner.Topology.Pipelines.{PipelineState, add_pipelines}

abbrev pub max_config_bytes : ℕ
max_config_bytes = 4194304

-- The decoder of the yaml package: the content of the first document, and whether the input ends
-- after it.
pub record YamlDecoder : Type 0 where
  pub decode : Text → Option (List Node)
  pub ends : Text → Bool

-- Which signals the fixture has records of.
pub record Populated : Type 0 where
  pub logs : Bool
  pub traces : Bool
  pub metrics : Bool

abbrev pub is_populated : Populated → Text → Bool
is_populated raw signal =
    if signal == codes "logs"
    then raw.logs
    else if signal == codes "traces"
    then raw.traces
    else signal == codes "metrics" && raw.metrics

-- The mapping of processors by its entries.
pub record Topology : Type 0 where
  pub pipelines : List PipelineDiagnostics
  pub processors : Map Text Node

abbrev pub is_top_level : Text → Bool
is_top_level f =
    f == codes "receivers"
    || f == codes "processors"
    || f == codes "exporters"
    || f == codes "extensions"
    || f == codes "connectors"
    || f == codes "service"

unfoldable pub check_top_level : List (Node × Node) → Result TopologyError (Unit {0})
check_top_level [] = ok tt
check_top_level ((k, v) ∷ rest) =
    let more = check_top_level rest in
    if is_top_level (head k).value then more else err unsupported_field

-- A mapping that has to be there.
abbrev pub explicit_mapping :
    TopologyError → Option Node → Result TopologyError (List (Node × Node))
explicit_mapping e none = err e
explicit_mapping e (some n) =
    if (head n).kind == mapping_node then ok (entries (content_of n)) else err e

abbrev pub nonempty_mapping :
    TopologyError → List (Node × Node) → Result TopologyError (List (Node × Node))
nonempty_mapping e [] = err e
nonempty_mapping e (entry ∷ rest) = ok (entry ∷ rest)

-- The entries of `service.pipelines`.
unfoldable pub pipeline_entries : Node → Result TopologyError (List (Node × Node))
unfolding mapping_value entries find_entry
pipeline_entries root = do
  service ← explicit_mapping service_not_mapping (mapping_value (some root) (codes "service"))
  found ← explicit_mapping pipelines_not_mapping (find_entry service (codes "pipelines"))
  nonempty_mapping pipelines_not_mapping found

-- Go ranges over the three signals in any order: where several lack a pipeline, the error may name
-- any of them.
unfoldable pub check_populated : Populated → List Text → List Text → Result TopologyError (Unit {0})
unfolding contains
check_populated raw seen [] = ok tt
check_populated raw seen (signal ∷ signals) =
    let more = check_populated raw seen signals in
    if is_populated raw signal && not (contains seen signal)
    then err (missing_pipeline signal)
    else more

-- The body of the inner loop over the processors of an active pipeline, once the definition is
-- looked up. A processor of a pipeline always has one.
unfoldable pub select_definition :
    Text → Option Node → Map Text Node → Result TopologyError (Map Text Node)
unfolding has_provider_substitution
select_definition id none selected = ok selected
select_definition id (some definition) selected =
    if has_provider_substitution definition
    then err (provider_substitution id)
    else ok (selected ++ (id, definition) ∷ [])

unfoldable pub select_processor :
    Map Text Node → Text → Map Text Node → Result TopologyError (Map Text Node)
unfolding lookup select_definition
select_processor used id selected =
    if is_some (lookup selected id)
    then ok selected
    else select_definition id (lookup used id) selected

unfoldable pub select_processors :
    Map Text Node → List Text → Map Text Node → Result TopologyError (Map Text Node)
unfolding select_processor
select_processors used [] selected = ok selected
select_processors used (id ∷ ids) selected =
    select_processor used id selected >>= select_processors used ids

-- The body of the loop over the sorted pipelines: an active one is kept with its processors.
unfoldable pub select_pipeline :
    Populated → Map Text Node → PipelineDiagnostics → Topology → Result TopologyError Topology
unfolding select_processors
select_pipeline raw used p t =
    if is_populated raw p.signal
    then (select_processors used p.processors t.processors >>= λ selected.
        ok (record { pipelines = t.pipelines ++ p ∷ []; processors = selected }))
    else ok t

unfoldable pub select_pipelines :
    Populated → Map Text Node → List PipelineDiagnostics → Topology → Result TopologyError Topology
unfolding select_pipeline
select_pipelines raw used [] t = ok t
select_pipelines raw used (p ∷ ps) t = select_pipeline raw used p t >>= select_pipelines raw used ps

abbrev pub name_less : PipelineDiagnostics → PipelineDiagnostics → Bool
name_less p q = text_lt p.name q.name

abbrev pub no_topology : Topology
no_topology = record { pipelines = []; processors = [] }

abbrev pub no_pipelines : PipelineState
no_pipelines = record { pipelines = []; processors = []; seen_signals = []; seen_processors = [] }

abbrev pub fixture_signals : List Text
fixture_signals = codes "logs" ∷ codes "traces" ∷ codes "metrics" ∷ []

-- What follows the loop over the pipelines.
unfoldable pub select : Populated → PipelineState → Result TopologyError Topology
unfolding check_populated select_pipelines sort_by
select raw st =
    check_populated raw st.seen_signals fixture_signals
    >> select_pipelines raw st.processors (sort_by name_less st.pipelines) no_topology

-- What is done with the root of the document.
unfoldable pub topology_of : Populated → Node → Result TopologyError Topology
unfolding check_top_level components_of pipeline_entries add_pipelines select validate_yaml entries
topology_of raw root = do
  map_err yaml_error (validate_yaml root 0)
  check_top_level (entries (content_of root))
  components ← components_of root
  found ← pipeline_entries root
  st ← add_pipelines components found no_pipelines
  select raw st

-- The document has to have one root, a mapping.
unfoldable pub parse_document : Populated → List Node → Result TopologyError Topology
unfolding topology_of
parse_document raw [] = err not_a_mapping
parse_document raw (root ∷ []) =
    if (head root).kind == mapping_node then topology_of raw root else err not_a_mapping
parse_document raw (root ∷ other ∷ others) = err not_a_mapping

unfoldable pub parse_topology : YamlDecoder → Text → Populated → Result TopologyError Topology
unfolding parse_document
parse_topology yaml contents raw =
    if ltb max_config_bytes (length contents)
    then err config_too_large
    else elim (yaml.decode contents) [
      | none ↦ err invalid_yaml
      | some nodes ↦
          if not (yaml.ends contents) then err not_one_document else parse_document raw nodes
    ]

-- `inconclusive`, of the identifiers of the processors.
abbrev pub holds_back : Text → Bool
holds_back id = type_of id == codes "tail_sampling" || type_of id == codes "groupbytrace"

unfoldable pub inconclusive_reasons : List Text → List Text
inconclusive_reasons [] = []
inconclusive_reasons (id ∷ ids) =
    let rest = inconclusive_reasons ids in
    if holds_back id
    then (codes "processor "
        ++ (id ++ codes " completion cannot be established from a settling interval and shutdown"))
      ∷ rest
    else rest

unfoldable pub inconclusive : List Text → List Text
unfolding inconclusive_reasons sort_texts
inconclusive ids = sort_texts (inconclusive_reasons ids)

-- The loop over the pipelines, with the reasons found so far.
unfoldable pub scoped_reasons_of :
    Map Text (List Text) → List PipelineDiagnostics → Map Text (List Text)
unfolding inconclusive insert
scoped_reasons_of reasons [] = reasons
scoped_reasons_of reasons (p ∷ ps) = elim (inconclusive p.processors) [
  | [] ↦ scoped_reasons_of reasons ps
  | r ∷ rs ↦ scoped_reasons_of (insert reasons p.signal (r ∷ rs)) ps
]

-- `inconclusiveSignals`
unfoldable pub inconclusive_signals : Topology → Map Text (List Text)
unfolding scoped_reasons_of
inconclusive_signals t = scoped_reasons_of [] t.pipelines
