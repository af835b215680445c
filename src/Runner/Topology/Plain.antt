-- ===== src/Runner/Topology/Plain.antt =====
-- What `validateYAML` accepts: trees of a bounded height, without aliases and anchors, whose
-- mappings have distinct plain keys.
use otel_policy_lab.Prelude.{
  ℕ, suc, ◌+◌, ◌≤◌, ◌≡◌, ◌≢◌, ◌↔◌, refl, true, false, not, ◌||◌, List, [], ◌∷◌, map, Text, text_Eq,
  text_eq_iff, ◌==◌, contains, IsUnique, All, ltb, Result, ok, err, ◌>>◌, arith, if◌then◌else◌,
}
use Prim.Native.Nat.{max}
use otel_policy_lab.Runner.Topology.Yaml.{
  YamlError, too_deep, aliases_unsupported, mapping_node, alias_node, kind_Eq, same_kind_iff,
  NodeHead, Node, Nodes, node, no_nodes, and_node, head, entries, max_depth, is_plain_key,
  validate_keys, validate_head, validate_yaml, validate_children,
}

-- The height of a node above its deepest descendant.
unfoldable mutual
  pub height : Node → ℕ
  height (node h content) = heights content

  pub heights : Nodes → ℕ
  heights no_nodes = 0
  heights (and_node n rest) = max (suc (height n)) (heights rest)

-- The keys of a mapping are plain strings, and distinct.
abbrev pub HasKeys : Nodes → Type 0
HasKeys content =
    All (λ e. is_plain_key (head e.0) ≡ true) (entries content)
    × IsUnique (map (λ e. (head e.0).value) (entries content))

abbrev pub IsPlainHead : NodeHead → Nodes → Type 0
IsPlainHead h content =
    (h.kind ≢ alias_node) × (h.anchor ≡ []) × (h.kind ≡ mapping_node → HasKeys content)

unfoldable mutual
  pub IsPlain : Node → Type 0
  IsPlain (node h content) = IsPlainHead h content × ArePlain content

  pub ArePlain : Nodes → Type 0
  ArePlain no_nodes = Unit
  ArePlain (and_node n rest) = IsPlain n × ArePlain rest

-- No key of the entries was seen before.
abbrev Unseen : List Text → List (Node × Node) → Type 0
Unseen seen = All (λ e. contains seen (head e.0).value ≡ false)

abbrev key_values : List (Node × Node) → List Text
key_values es = map (λ e. (head e.0).value) es

Unseen-cons :
    (k : Text) (seen : List Text) (es : List (Node × Node))
    → Unseen (k ∷ seen) es ↔ (Unseen seen es × (contains (key_values es) k ≡ false))
unfolding contains
Unseen-cons k seen [] = (λ _. (tt, refl), λ _. tt)
Unseen-cons k seen ((j, v) ∷ es) =
    ground
      (arith, Unseen-cons k seen es, text_eq_iff k (head j).value, text_eq_iff (head j).value k)

validate_keys_iff :
    (seen : List Text) (es : List (Node × Node))
    → (validate_keys seen es ≡ ok tt)
      ↔ (All (λ e. is_plain_key (head e.0) ≡ true) es × Unseen seen es × IsUnique (key_values es))
unfolding validate_keys
validate_keys_iff seen [] = (λ _. (tt, tt, tt), λ _. refl)
validate_keys_iff seen ((k, v) ∷ es) =
    ground (arith, validate_keys_iff ((head k).value ∷ seen) es, Unseen-cons (head k).value seen es)

Unseen-nil : (es : List (Node × Node)) → Unseen [] es
unfolding contains
Unseen-nil [] = tt
Unseen-nil (e ∷ es) = (refl, Unseen-nil es)

all_keys_iff : (content : Nodes) → (validate_keys [] (entries content) ≡ ok tt) ↔ HasKeys content
all_keys_iff content =
    let keys = validate_keys_iff [] (entries content) in
    (λ e. ((keys.0 e).0, (keys.0 e).2), λ h. keys.1 (h.0, Unseen-nil (entries content), h.1))

-- The tests on a head, with what is asked of its keys left open.
head_iff :
    (h : NodeHead) (depth : ℕ) (r : Result YamlError (Unit {0})) (P : Type 0)
    → (r ≡ ok tt) ↔ P
    → ((if ltb max_depth depth
          then err too_deep
          else if h.kind == alias_node || not (h.anchor == [])
          then err aliases_unsupported
          else if h.kind == mapping_node
          then r
          else ok tt)
        ≡ ok tt)
      ↔ (((h.kind ≢ alias_node) × (h.anchor ≡ []) × (h.kind ≡ mapping_node → P))
          × (depth ≤ max_depth))
head_iff h depth r P q = ground (
  arith,
  q,
  text_eq_iff h.anchor [],
  same_kind_iff h.kind alias_node,
  same_kind_iff h.kind mapping_node,
)

validate_head_iff :
    (h : NodeHead) (content : Nodes) (depth : ℕ)
    → (validate_head h content depth ≡ ok tt) ↔ (IsPlainHead h content × (depth ≤ max_depth))
unfolding validate_head
validate_head_iff h content depth =
    head_iff h depth (validate_keys [] (entries content)) (HasKeys content) (all_keys_iff content)

then_iff :
    {E : Type 0} (r s : Result E (Unit {0})) → ((r >> s) ≡ ok tt) ↔ ((r ≡ ok tt) × (s ≡ ok tt))
then_iff (ok tt) s = (λ e. (refl, e), λ e. e.1)
then_iff (err e) s = (λ q. cc, λ q. cc)

mutual
  unfolding validate_yaml height IsPlain

  validate_yaml-depth_iff :
      (n : Node) (depth : ℕ)
      → (validate_yaml n depth ≡ ok tt) ↔ (IsPlain n × (depth + height n ≤ max_depth))
  validate_yaml-depth_iff (node h content) depth =
      let both = then_iff (validate_head h content depth) (validate_children content (suc depth)) in
      let of_head = validate_head_iff h content depth in
      let below = validate_children_iff content depth in
      (
        λ e.
            let a = of_head.0 (both.0 e).0 in
            let b = (below a.1).0 (both.0 e).1 in ((a.0, b.0), b.1),
        λ q.
            let room : depth ≤ max_depth = omega (arith, q.1) in
            both.1 (of_head.1 (q.0.0, room), (below room).1 (q.0.1, q.1)),
      )

  validate_children_iff :
      (content : Nodes) (depth : ℕ)
      → depth ≤ max_depth
      → (validate_children content (suc depth) ≡ ok tt)
        ↔ (ArePlain content × (depth + heights content ≤ max_depth))
  validate_children_iff no_nodes depth h = (λ _. (tt, omega arith), λ _. refl)
  validate_children_iff (and_node n rest) depth h =
      let both = then_iff (validate_yaml n (suc depth)) (validate_children rest (suc depth)) in
      let first = validate_yaml-depth_iff n (suc depth) in
      let others = validate_children_iff rest depth h in
      (
        λ e.
            let a = first.0 (both.0 e).0 in
            let b = others.0 (both.0 e).1 in ((a.0, b.0), omega (arith, a.1, b.1)),
        λ q. both.1 (first.1 (q.0.0, omega (arith, q.1)), others.1 (q.0.1, omega (arith, q.1))),
      )

-- The validation of a YAML tree from its root accepts exactly the trees that hold no alias and
-- no anchor, whose mappings have distinct string keys and no merge key, and which are nested no
-- deeper than the limit.
pub validate_yaml_iff :
    (n : Node) → (validate_yaml n 0 ≡ ok tt) ↔ (IsPlain n × (height n ≤ max_depth))
validate_yaml_iff n =
    let h = validate_yaml-depth_iff n 0 in
    (λ e. let a = h.0 e in (a.0, omega (arith, a.1)), λ q. h.1 (q.0, omega (arith, q.1)))
