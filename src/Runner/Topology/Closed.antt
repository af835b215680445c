-- ===== src/Runner/Topology/Closed.antt =====
-- What the loop over the pipelines keeps: the processors that the pipelines use are put into the
-- mapping, and no signal has two pipelines.
use mathlib.Core.Path.{subst}
use otel_policy_lab.Prelude.{
  ◌≡◌, refl, sym, ◌∙◌, true, false, ◌||◌, List, [], ◌∷◌, ◌++◌, map, Text, codes, text_Eq,
  text_eq_iff, ◌==◌, contains, IsUnique, Map, has_key, All, All-append, ok, err, ◌>>◌, bind-ok,
  arith, Bool-cases, inl, inr,
}
use otel_policy_lab.Diagnostics.{PipelineDiagnostics}
use otel_policy_lab.Runner.Topology.Yaml.{mapping_node, kind_Eq, Node, head, entries, content_of}
use otel_policy_lab.Runner.Topology.Sections.{
  type_of, is_component_id, Components, invalid_pipeline_id, unsupported_signal, multiple_pipelines,
  pipeline_not_mapping,
}
use otel_policy_lab.Runner.Topology.Pipelines.{
  PipelineState, is_signal, check_fields, check_defined, use_processors, sequence_in, add_chain,
  add_pipeline, add_pipelines,
}
use otel_policy_lab.Runner.Topology.Selected.{Defines}
use otel_policy_lab.Runner.Topology.Used.{
  AllKeys, AllKeys-keeps, IsTracked, Uses, use_processors-Uses,
}

abbrev pub signals_of : List PipelineDiagnostics → List Text
signals_of ps = map (λ (p : PipelineDiagnostics). p.signal) ps

-- What the loop over the pipelines keeps.
pub record IsClosed (st : PipelineState) : Type 0 where
  pub is_tracked : IsTracked st
  pub signals : (k : Text) → contains st.seen_signals k ≡ contains (signals_of st.pipelines) k
  pub unique : IsUnique (signals_of st.pipelines)
  pub defines : Defines st.processors st.pipelines

contains-signals_of :
    (ps : List PipelineDiagnostics) (p : PipelineDiagnostics) (k : Text)
    → contains (signals_of (ps ++ p ∷ [])) k ≡ (p.signal == k || contains (signals_of ps) k)
unfolding contains
contains-signals_of [] p k = refl
contains-signals_of (q ∷ ps) p k = ground (arith, contains-signals_of ps p k)

IsUnique-signals_of :
    (ps : List PipelineDiagnostics) (p : PipelineDiagnostics)
    → IsUnique (signals_of ps)
    → contains (signals_of ps) p.signal ≡ false
    → IsUnique (signals_of (ps ++ p ∷ []))
unfolding contains
IsUnique-signals_of [] p u h = (refl, tt)
IsUnique-signals_of (q ∷ ps) p u h = (
  ground (
    arith,
    contains-signals_of ps p q.signal,
    text_eq_iff p.signal q.signal,
    text_eq_iff q.signal p.signal,
  ),
  IsUnique-signals_of ps p u.1 (ground arith),
)

Defines-keeps :
    (m n : Map Text Node) (ps : List PipelineDiagnostics)
    → ((id : Text) → has_key m id ≡ true → has_key n id ≡ true)
    → Defines m ps
    → Defines n ps
unfolding AllKeys
Defines-keeps m n [] k h = tt
Defines-keeps m n (p ∷ ps) k h = (AllKeys-keeps m n p.processors k h.0, Defines-keeps m n ps k h.1)

-- The pipeline whose processors have been used is added.
kept : Text → Text → List Text → PipelineState → PipelineState
kept name signal ids next = record next {
  pipelines = next.pipelines ++ record { name = name; signal = signal; processors = ids } ∷ [];
}

kept-IsClosed :
    (name signal : Text) (ids : List Text) (st next : PipelineState)
    → IsClosed st
    → contains st.seen_signals signal ≡ false
    → Uses (record st { seen_signals = signal ∷ st.seen_signals }) next ids
    → IsClosed (kept name signal ids next)
unfolding kept contains AllKeys
kept-IsClosed name signal ids st next g e u =
    let p : PipelineDiagnostics = record { name = name; signal = signal; processors = ids } in
    rw (u.same_pipelines) (record {
      is_tracked = record { tracks = u.is_tracked.tracks };
      signals = λ k.
          rw (u.same_signals) ground (arith, contains-signals_of st.pipelines p k, g.signals k);
      unique = IsUnique-signals_of st.pipelines p g.unique (sym (g.signals signal) ∙ e);
      defines =
          (All-append (λ q. All (λ id. has_key next.processors id ≡ true) q.processors) st.pipelines
              (p ∷ [])).1
            (
              Defines-keeps st.processors next.processors st.pipelines u.keeps g.defines,
              (u.all_keys, tt),
            );
    })

add_chain-IsClosed :
    (components : Components) (name signal : Text) (pipeline : Node) (st r : PipelineState)
    → IsClosed st
    → contains st.seen_signals signal ≡ false
    → add_chain components name signal pipeline
        (record st { seen_signals = signal ∷ st.seen_signals })
      ≡ ok r
    → IsClosed r
unfolding add_chain kept
add_chain-IsClosed components name signal pipeline st r g e h =
    let (receivers, _, h1) = bind-ok (sequence_in name (codes "receivers") pipeline false) _ r h in
    let (_, _, h2) =
      bind-ok (check_defined name (codes "receivers") components.receivers receivers) _ r h1 in
    let (ids, _, h3) = bind-ok (sequence_in name (codes "processors") pipeline true) _ r h2 in
    let (next, u, h4) = bind-ok (use_processors name components.processors ids _) _ r h3 in
    let (exporters, _, h5) = bind-ok (sequence_in name (codes "exporters") pipeline false) _ r h4 in
    let (_, _, h6) =
      bind-ok (check_defined name (codes "exporters") components.exporters exporters) _ r h5 in
    let same : kept name signal ids next ≡ r = cc in
    subst IsClosed same (
      kept-IsClosed name signal ids st next g e (
        use_processors-Uses name components.processors ids _ next
          (record { tracks = g.is_tracked.tracks }) u))

add_pipeline-IsClosed :
    (components : Components) (name : Text) (pipeline : Node) (st r : PipelineState)
    → IsClosed st
    → add_pipeline components name pipeline st ≡ ok r
    → IsClosed r
unfolding add_pipeline
add_pipeline-IsClosed components name pipeline st r g h = elim (Bool-cases (is_component_id name)) [
  | inr a ↦ absurd (let q : err invalid_pipeline_id ≡ ok r = ground arith in cc)
  | inl a ↦ elim (Bool-cases (is_signal (type_of name))) [
    | inr b ↦ absurd (let q : err (unsupported_signal name) ≡ ok r = ground arith in cc)
    | inl b ↦ elim (Bool-cases (contains st.seen_signals (type_of name))) [
      | inl c ↦ absurd (let q : err (multiple_pipelines (type_of name)) ≡ ok r = ground arith in cc)
      | inr c ↦ elim (Bool-cases ((head pipeline).kind == mapping_node)) [
        | inr d ↦ absurd (let q : err (pipeline_not_mapping name) ≡ ok r = ground arith in cc)
        | inl d ↦
            (let chain : (check_fields name (entries (content_of pipeline))
                    >> add_chain components name (type_of name) pipeline
                        (record st { seen_signals = type_of name ∷ st.seen_signals }))
                  ≡ ok r =
                ground arith in
              let (_, _, more) =
                bind-ok (check_fields name (entries (content_of pipeline))) _ r chain in
              add_chain-IsClosed components name (type_of name) pipeline st r g c more)
      ]
    ]
  ]
]

-- The loop over the pipelines keeps the invariant.
pub add_pipelines-IsClosed :
    (components : Components) (found : List (Node × Node)) (st r : PipelineState)
    → IsClosed st
    → add_pipelines components found st ≡ ok r
    → IsClosed r
unfolding add_pipelines
add_pipelines-IsClosed components [] st r g h = let same : st ≡ r = cc in subst IsClosed same g
add_pipelines-IsClosed components ((k, v) ∷ rest) st r g h =
    let (next, e, more) = bind-ok (add_pipeline components (head k).value v st) _ r h in
    add_pipelines-IsClosed components rest next r
      (add_pipeline-IsClosed components (head k).value v st next g e) more
