-- ===== src/Runner/Topology/Isolated.antt =====
-- internal/runner/topology.go: when the configuration of the harness is made and what it then starts,
-- and the processor chains that it is given.
use mathlib.Core.Path.{subst}
use otel_policy_lab.Prelude.{
  ◌≡◌, ◌↔◌, refl, Bool, true, false, not, ◌||◌, ◌&&◌, List, [], ◌∷◌, some, Option-cases, Text,
  codes, text_Eq, text_eq, text_eq_iff, ◌==◌, contains, IsUnique, All, Result, ok, err, ◌>>=◌,
  bind-ok, arith, Bool-cases, inl, inr,
}
use otel_policy_lab.Runner.Topology.Yaml.{
  Node, items, content_of, head, scalar_node, sequence_node, kind_Eq, seq_node, str_nodes, str_node,
}
use otel_policy_lab.Runner.Topology.Sections.{
  is_component_id, references, sequence_of, component_sequence, invalid_reference,
  duplicate_reference, no_sequence, is_null, is_empty_content,
}
use otel_policy_lab.Runner.Topology.{Topology}
use otel_policy_lab.Runner.Topology.Started.{IsHarness, harness_root-IsHarness}
use otel_policy_lab.Runner.Topology.Harness.{SplitHost, is_loopback, harness_root, harness}

is_loopback_iff :
    (split : SplitHost) (endpoint : Text)
    → (is_loopback split endpoint ≡ true) ↔ (split endpoint ≡ some (codes "127.0.0.1"))
unfolding is_loopback
is_loopback_iff split endpoint = elim (Option-cases (split endpoint)) [
  | inl e ↦ ground arith
  | inr (host, e) ↦ ground (arith, text_eq_iff host (codes "127.0.0.1"))
]

-- The harness is made exactly if both endpoints have the host 127.0.0.1 and its tree can be
-- written as YAML, and it is then what is written. Read path by path, the tree has one receiver,
-- which listens at the one endpoint, one exporter, which exports to the other endpoint without a
-- queue and without retries, the processor definitions of the topology, and for each pipeline of
-- the topology one of its name that runs its processors from that receiver to that exporter.
pub harness_iff :
    (split : SplitHost) (marshal : Node → Result Text Text) (t : Topology)
    (receiver capture text : Text)
    → ((harness split marshal t receiver capture ≡ ok text) ↔ (
        (split receiver ≡ some (codes "127.0.0.1"))
        × ((split capture ≡ some (codes "127.0.0.1"))
            × (marshal (harness_root t receiver capture) ≡ ok text))))
      × IsHarness t receiver capture (harness_root t receiver capture)
unfolding harness
harness_iff split marshal t receiver capture text = (
  ground (arith, is_loopback_iff split receiver, is_loopback_iff split capture),
  harness_root-IsHarness t receiver capture,
)

fresh_iff :
    (seen : List Text) (x : Text) (ids : List Text)
    → All (λ id. contains (x ∷ seen) id ≡ false) ids
      ↔ ((contains ids x ≡ false) × All (λ id. contains seen id ≡ false) ids)
unfolding contains
fresh_iff seen x [] = (λ _. (refl, tt), λ _. tt)
fresh_iff seen x (id ∷ ids) =
    let ih = fresh_iff seen x ids in
    (
      λ h.
          let (n, f) = ih.0 h.1 in
          (ground (arith, text_eq_iff x id, text_eq_iff id x), (ground arith, f)),
      λ h. (ground (arith, text_eq_iff x id, text_eq_iff id x), ih.1 (ground arith, h.1.1)),
    )

all_fresh : (ids : List Text) → All (λ id. contains [] id ≡ false) ids
unfolding contains
all_fresh [] = tt
all_fresh (id ∷ ids) = (refl, all_fresh ids)

-- The identifiers of a chain, each well formed and none used twice.
pub record IsChain (ids : List Text) : Type 0 where
  pub well_formed : All (λ id. is_component_id id ≡ true) ids
  pub unique : IsUnique ids

references-str_nodes :
    (seen ids : List Text)
    → All (λ id. is_component_id id ≡ true) ids
    → All (λ id. contains seen id ≡ false) ids
    → IsUnique ids
    → references seen (items (str_nodes ids)) ≡ ok ids
unfolding references str_nodes str_node items contains text_eq
references-str_nodes seen [] c f u = refl
references-str_nodes seen (id ∷ ids) c f u =
    let more =
      references-str_nodes (id ∷ seen) ids c.1 ((fresh_iff seen id ids).1 (u.0, f.1)) u.1 in
    rw (more) rw (c.0, f.0) refl

-- What a reader of the harness finds as the processors of a pipeline.
sequence_of-seq_node :
    (ids : List Text) → IsChain ids → component_sequence (some (seq_node ids)) true ≡ ok ids
unfolding component_sequence sequence_of seq_node text_eq
sequence_of-seq_node ids c = references-str_nodes [] ids c.well_formed (all_fresh ids) c.unique

abbrev is_reference : Node → Bool
is_reference n = not (
    not ((head n).kind == scalar_node)
    || not ((head n).tag == codes "!!str")
    || not (is_component_id (head n).value))

references-IsChain :
    (seen : List Text) (nodes : List Node) (ids : List Text)
    → references seen nodes ≡ ok ids
    → All (λ id. contains seen id ≡ false) ids × IsChain ids
unfolding references
references-IsChain seen [] ids h =
    let same : [] ≡ ids = cc in
    subst (λ l. All (λ id. contains seen id ≡ false) l × IsChain l) same
      (tt, record { well_formed = tt; unique = tt })
references-IsChain seen (n ∷ nodes) ids h = elim (Bool-cases (is_reference n)) [
  | inr e ↦ absurd (let q : err invalid_reference ≡ ok ids = ground arith in cc)
  | inl e ↦ elim (Bool-cases (contains seen (head n).value)) [
    | inl f ↦ absurd (let q : err duplicate_reference ≡ ok ids = ground arith in cc)
    | inr f ↦
        (let chain : (references ((head n).value ∷ seen) nodes >>= λ rest.
        ok ((head n).value ∷ rest))
              ≡ ok ids =
            ground arith in
          let (rest, q, done) = bind-ok (references ((head n).value ∷ seen) nodes) _ ids chain in
          let (fresh_rest, is_chain) = references-IsChain ((head n).value ∷ seen) nodes rest q in
          let (new, others) = (fresh_iff seen (head n).value rest).0 fresh_rest in
          let same : (head n).value ∷ rest ≡ ids = cc in
          subst (λ l. All (λ id. contains seen id ≡ false) l × IsChain l) same
            (
              (f, others),
              record {
                well_formed = (ground arith, is_chain.well_formed);
                unique = (new, is_chain.unique);
              },
            ))
  ]
]

-- If a sequence of component identifiers is read from a node, the node that the harness is given
-- for these identifiers reads back as the same identifiers.
pub component_sequence-seq_node :
    (n : Node) (optional : Bool) (ids : List Text)
    → component_sequence (some n) optional ≡ ok ids
    → component_sequence (some (seq_node ids)) true ≡ ok ids
unfolding component_sequence sequence_of
component_sequence-seq_node n optional ids h = elim (Bool-cases (optional && is_null n)) [
  | inl e ↦ sequence_of-seq_node ids (
      let none_read : [] ≡ ids = ground arith in
      subst IsChain none_read (record { well_formed = tt; unique = tt }))
  | inr e ↦
      elim (Bool-cases (
        not ((head n).kind == sequence_node)
        || (not optional && is_empty_content (content_of n)))) [
          | inl f ↦ absurd (let q : err no_sequence ≡ ok ids = ground arith in cc)
          | inr f ↦
              sequence_of-seq_node ids
                (references-IsChain [] (items (content_of n)) ids (ground arith)).1
        ]
]
