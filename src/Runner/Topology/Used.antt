-- ===== src/Runner/Topology/Used.antt =====
-- What the loop over the processors of a pipeline keeps: the set of the processors seen, and the
-- mapping that holds them.
use mathlib.Core.Path.{subst}
use otel_policy_lab.Prelude.{
  ◌≡◌, refl, sym, ◌∙◌, true, not, ◌&&◌, List, [], ◌∷◌, ◌++◌, Option-cases, Text, codes, text_Eq,
  text_eq_iff, ◌==◌, contains, Map, lookup, has_key, has_key-snoc, All, ok, err, ◌>>=◌, bind-ok,
  arith, Bool-cases, inl, inr,
}
use otel_policy_lab.Runner.Topology.Yaml.{mapping_node, kind_Eq, Node, head, clone_node}
use otel_policy_lab.Runner.Topology.Sections.{
  type_of, is_null, undefined_component, routing_unsupported, processor_not_mapping,
}
use otel_policy_lab.Runner.Topology.Pipelines.{PipelineState, use_processor, use_processors}

-- The set of the processors seen is the set of the keys of the mapping.
pub record IsTracked (st : PipelineState) : Type 0 where
  pub tracks : (id : Text) → contains st.seen_processors id ≡ has_key st.processors id

unfoldable pub AllKeys : Map Text Node → List Text → Type 0
AllKeys m ids = All (λ id. has_key m id ≡ true) ids

-- What the use of some processors has done.
pub record Uses (st next : PipelineState) (ids : List Text) : Type 0 where
  pub is_tracked : IsTracked next
  pub same_pipelines : next.pipelines ≡ st.pipelines
  pub same_signals : next.seen_signals ≡ st.seen_signals
  pub keeps : (id : Text) → has_key st.processors id ≡ true → has_key next.processors id ≡ true
  pub all_keys : AllKeys next.processors ids

used : Text → Node → PipelineState → PipelineState
used id definition st = record st {
  processors = st.processors ++ (id, clone_node definition) ∷ [];
  seen_processors = id ∷ st.seen_processors;
}

used-Uses :
    (id : Text) (definition : Node) (st : PipelineState)
    → IsTracked st
    → Uses st (used id definition st) (id ∷ [])
unfolding used AllKeys contains clone_node
used-Uses id definition st g = record {
  is_tracked = record {
    tracks =
        λ j. ground (arith, g.tracks j, has_key-snoc st.processors id (clone_node definition) j);
  };
  same_pipelines = refl;
  same_signals = refl;
  keeps = λ j h. ground (arith, has_key-snoc st.processors id (clone_node definition) j);
  all_keys = (
    ground (arith, has_key-snoc st.processors id (clone_node definition) id, text_eq_iff id id),
    tt,
  );
}

use_processor-Uses :
    (id : Text) (definition : Node) (st next : PipelineState)
    → IsTracked st
    → use_processor id definition st ≡ ok next
    → Uses st next (id ∷ [])
unfolding use_processor used AllKeys
use_processor-Uses id definition st next g h = elim (Bool-cases (type_of id == codes "routing")) [
  | inl a ↦ absurd (let q : err routing_unsupported ≡ ok next = ground arith in cc)
  | inr a ↦
      elim (Bool-cases (not ((head definition).kind == mapping_node) && not (is_null definition))) [
        | inl b ↦ absurd (let q : err (processor_not_mapping id) ≡ ok next = ground arith in cc)
        | inr b ↦ elim (Bool-cases (contains st.seen_processors id)) [
          | inl c ↦
              (let same : st ≡ next = ground arith in
                rw (← same) (record {
                  is_tracked = g;
                  same_pipelines = refl;
                  same_signals = refl;
                  keeps = λ j q. q;
                  all_keys = (sym (g.tracks id) ∙ c, tt);
                }))
          | inr c ↦
              (let same : used id definition st ≡ next = ground arith in
                subst (λ n. Uses st n (id ∷ [])) same (used-Uses id definition st g))
        ]
      ]
]

pub AllKeys-keeps :
    (m n : Map Text Node) (ids : List Text)
    → ((id : Text) → has_key m id ≡ true → has_key n id ≡ true)
    → AllKeys m ids
    → AllKeys n ids
unfolding AllKeys
AllKeys-keeps m n [] k h = tt
AllKeys-keeps m n (id ∷ ids) k h = (k id h.0, AllKeys-keeps m n ids k h.1)

pub use_processors-Uses :
    (name : Text) (defined : Map Text Node) (ids : List Text) (st next : PipelineState)
    → IsTracked st
    → use_processors name defined ids st ≡ ok next
    → Uses st next ids
unfolding use_processors AllKeys
use_processors-Uses name defined [] st next g h =
    let same : st ≡ next = cc in
    subst (λ n. Uses st n []) same
      (record {
        is_tracked = g;
        same_pipelines = refl;
        same_signals = refl;
        keeps = λ j q. q;
        all_keys = tt;
      })
use_processors-Uses name defined (id ∷ ids) st next g h = elim (Option-cases (lookup defined id)) [
  | inl e ↦ absurd (
      let q : err (undefined_component name (codes "processors") id) ≡ ok next = ground arith in cc)
  | inr (definition, e) ↦
      (let chain : (use_processor id definition st >>= use_processors name defined ids) ≡ ok next =
          ground arith in
        let (mid, d, more) = bind-ok (use_processor id definition st) _ next chain in
        let one = use_processor-Uses id definition st mid g d in
        let rest = use_processors-Uses name defined ids mid next one.is_tracked more in
        record {
          is_tracked = rest.is_tracked;
          same_pipelines = rest.same_pipelines ∙ one.same_pipelines;
          same_signals = rest.same_signals ∙ one.same_signals;
          keeps = λ j q. rest.keeps j (one.keeps j q);
          all_keys = (rest.keeps id one.all_keys.0, rest.all_keys);
        })
]
