-- ===== src/Runner/Topology/Accepted.antt =====
-- What a configuration that `parseTopology` accepts runs for a fixture.
use otel_policy_lab.Prelude.{
  ◌≡◌, refl, sym, ap, ◌∙◌, true, false, not, ◌&&◌, List, [], ◌∷◌, Option-cases, Text, codes,
  text_Eq, text_eq_iff, ◌==◌, contains, IsUnique, contains-map-sort_by, IsUnique-map-sort_by,
  All-sort_by, sort_by, has_key, All, keep, Result, ok, err, bind-ok, map_err, arith, Bool-cases,
  inl, inr, ltb, ◌≤◌, length,
}
use otel_policy_lab.Diagnostics.{PipelineDiagnostics}
use otel_policy_lab.Runner.Topology.Yaml.{
  Node, entries, content_of, validate_yaml, head, mapping_node, kind_Eq,
}
use otel_policy_lab.Runner.Topology.Sections.{
  TopologyError, missing_pipeline, yaml_error, components_of, config_too_large, invalid_yaml,
  not_one_document, not_a_mapping,
}
use otel_policy_lab.Runner.Topology.Pipelines.{PipelineState, add_pipelines}
use otel_policy_lab.Runner.Topology.Selected.{Runs, RunAll, active, select_pipelines-IsRunnable}
use otel_policy_lab.Runner.Topology.Closed.{signals_of, IsClosed, add_pipelines-IsClosed}
use otel_policy_lab.Runner.Topology.{
  Topology, Populated, is_populated, check_populated, name_less, no_topology, no_pipelines,
  fixture_signals, select, YamlDecoder, max_config_bytes, check_top_level, pipeline_entries,
  parse_document, topology_of, parse_topology,
}

-- The pipelines are those of the signals that the fixture has records of, one for each; and every
-- processor of a pipeline is defined, by a node that holds no provider substitution.
pub record RunsFixture (raw : Populated) (t : Topology) : Type 0 where
  pub of_signal : (k : Text) → contains (signals_of t.pipelines) k ≡ is_populated raw k
  pub one_each : IsUnique (signals_of t.pipelines)
  pub can_run : All (λ p. RunAll t.processors p.processors) t.pipelines

contains-active :
    (raw : Populated) (ps : List PipelineDiagnostics) (k : Text)
    → contains (signals_of (active raw ps)) k ≡ (contains (signals_of ps) k && is_populated raw k)
unfolding active keep contains
contains-active raw [] k = refl
contains-active raw (p ∷ ps) k = elim (Bool-cases (p.signal == k)) [
  | inl e ↦
      (let same : p.signal ≡ k = (text_eq_iff p.signal k).0 e in
        rw (same) ground (arith, contains-active raw ps k, text_eq_iff k k))
  | inr e ↦ ground (arith, contains-active raw ps k)
]

IsUnique-active :
    (raw : Populated) (ps : List PipelineDiagnostics)
    → IsUnique (signals_of ps)
    → IsUnique (signals_of (active raw ps))
unfolding active keep
IsUnique-active raw [] u = tt
IsUnique-active raw (p ∷ ps) u = elim (Bool-cases (is_populated raw p.signal)) [
  | inl e ↦ rw e (contains-active raw ps p.signal ∙ ground arith, IsUnique-active raw ps u.1)
  | inr e ↦ rw e (IsUnique-active raw ps u.1)
]

check_populated-ok :
    (raw : Populated) (seen signals : List Text)
    → check_populated raw seen signals ≡ ok tt
    → All (λ s. (is_populated raw s && not (contains seen s)) ≡ false) signals
unfolding check_populated
check_populated-ok raw seen [] h = tt
check_populated-ok raw seen (s ∷ signals) h =
    elim (Bool-cases (is_populated raw s && not (contains seen s))) [
      | inl e ↦ absurd (
          let r : Result TopologyError (Unit {0}) = err (missing_pipeline s) in
          let q : r ≡ ok tt = ground arith in cc)
      | inr e ↦ (e, check_populated-ok raw seen signals (ground arith))
    ]

-- Where the three signals are checked, every signal of the fixture has been seen.
populated-seen :
    (raw : Populated) (seen : List Text)
    → check_populated raw seen fixture_signals ≡ ok tt
    → (k : Text) → is_populated raw k ≡ true
    → contains seen k ≡ true
populated-seen raw seen h k e =
    let (l, (t, (m, _))) = check_populated-ok raw seen fixture_signals h in
    elim (Bool-cases (k == codes "logs")) [
      | inl q ↦ unseen (codes "logs") l ((text_eq_iff k (codes "logs")).0 q)
      | inr q ↦ elim (Bool-cases (k == codes "traces")) [
        | inl r ↦ unseen (codes "traces") t ((text_eq_iff k (codes "traces")).0 r)
        | inr r ↦ unseen (codes "metrics") m ((text_eq_iff k (codes "metrics")).0 (ground arith))
      ]
    ]
  where
    unseen :
        (s : Text)
        → (is_populated raw s && not (contains seen s)) ≡ false
        → k ≡ s
        → contains seen k ≡ true
    unseen s f q =
        (let there : is_populated raw s ≡ true = ap (is_populated raw) (sym q) ∙ e in
          let found : contains seen s ≡ true = ground arith in ap (contains seen) q ∙ found)

signal_of : PipelineDiagnostics → Text
signal_of p = p.signal

of_selected :
    (raw : Populated) (st : PipelineState)
    → IsClosed st
    → check_populated raw st.seen_signals fixture_signals ≡ ok tt
    → (k : Text)
    → contains (signals_of (active raw (sort_by name_less st.pipelines))) k ≡ is_populated raw k
unfolding signal_of
of_selected raw st g c k =
    let there = contains-map-sort_by signal_of name_less st.pipelines k in
    contains-active raw (sort_by name_less st.pipelines) k
    ∙ ap (λ b. b && is_populated raw k) (there ∙ sym (g.signals k))
    ∙ elim (Bool-cases (is_populated raw k)) [
      | inl e ↦ (let seen = populated-seen raw st.seen_signals c k e in rw (e, seen) refl)
      | inr e ↦ rw e (ground arith)
    ]

All-runs :
    (raw : Populated) (t : Topology) (ps : List PipelineDiagnostics)
    → Runs raw t.processors ps
    → All (λ p. RunAll t.processors p.processors) ps
All-runs raw t [] h = tt
All-runs raw t (p ∷ ps) h = (h.0.1, All-runs raw t ps h.1)

select-RunsFixture :
    (raw : Populated) (st : PipelineState) (t : Topology)
    → IsClosed st
    → select raw st ≡ ok t
    → RunsFixture raw t
unfolding select signal_of
select-RunsFixture raw st t g h =
    let (_, c, h1) = bind-ok (check_populated raw st.seen_signals fixture_signals) _ t h in
    let sorted = sort_by name_less st.pipelines in
    let (r, q) =
      select_pipelines-IsRunnable raw st.processors sorted no_topology t
        (record { is_inline = record { inline = λ id e. e }; all_run = tt })
        ((All-sort_by _ name_less st.pipelines).1 g.defines) h1 in
    record {
      of_signal = λ k. ap (λ ps. contains (signals_of ps) k) q ∙ of_selected raw st g c k;
      one_each = rw (q) (
          IsUnique-active raw sorted
            (IsUnique-map-sort_by signal_of name_less st.pipelines g.unique));
      can_run = All-runs raw t t.pipelines r.all_run;
    }

no_pipelines-IsClosed : IsClosed no_pipelines
unfolding has_key contains
no_pipelines-IsClosed = record {
  is_tracked = record { tracks = λ k. refl };
  signals = λ k. refl;
  unique = tt;
  defines = tt;
}

topology_of-RunsFixture :
    (raw : Populated) (root : Node) (t : Topology) → topology_of raw root ≡ ok t → RunsFixture raw t
unfolding topology_of
topology_of-RunsFixture raw root t h =
    let (_, _, h1) = bind-ok (map_err yaml_error (validate_yaml root 0)) _ t h in
    let (_, _, h2) = bind-ok (check_top_level (entries (content_of root))) _ t h1 in
    let (components, _, h3) = bind-ok (components_of root) _ t h2 in
    let (found, _, h4) = bind-ok (pipeline_entries root) _ t h3 in
    let (st, e, h5) = bind-ok (add_pipelines components found no_pipelines) _ t h4 in
    select-RunsFixture raw st t
      (add_pipelines-IsClosed components found no_pipelines st no_pipelines-IsClosed e) h5

parse_document-RunsFixture :
    (raw : Populated) (nodes : List Node) (t : Topology)
    → parse_document raw nodes ≡ ok t
    → RunsFixture raw t
unfolding parse_document
parse_document-RunsFixture raw [] t h = cc
parse_document-RunsFixture raw (root ∷ []) t h =
    elim (Bool-cases ((head root).kind == mapping_node)) [
      | inl e ↦ topology_of-RunsFixture raw root t (ground arith)
      | inr e ↦ absurd (let q : err not_a_mapping ≡ ok t = ground arith in cc)
    ]
parse_document-RunsFixture raw (root ∷ other ∷ others) t h = cc

-- If a configuration is accepted, it is within the limit of its size, it has exactly one
-- selected pipeline for each signal that the fixture has records of and none for any other
-- signal, and every processor of a selected pipeline is defined by a node that holds no provider
-- substitution.
pub parse_topology-RunsFixture :
    (yaml : YamlDecoder) (contents : Text) (raw : Populated) (t : Topology)
    → parse_topology yaml contents raw ≡ ok t
    → RunsFixture raw t × (length contents ≤ max_config_bytes)
unfolding parse_topology
parse_topology-RunsFixture yaml contents raw t h =
    elim (Bool-cases (ltb max_config_bytes (length contents))) [
      | inl e ↦ absurd (let q : err config_too_large ≡ ok t = ground arith in cc)
      | inr e ↦ elim (Option-cases (yaml.decode contents)) [
        | inl d ↦ absurd (let q : err invalid_yaml ≡ ok t = ground arith in cc)
        | inr (nodes, d) ↦ elim (Bool-cases (yaml.ends contents)) [
          | inr f ↦ absurd (let q : err not_one_document ≡ ok t = ground arith in cc)
          | inl f ↦ (parse_document-RunsFixture raw nodes t (ground arith), ground arith)
        ]
      ]
    ]
