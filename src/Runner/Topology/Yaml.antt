-- ===== src/Runner/Topology/Yaml.antt =====
-- internal/runner/topology.go: YAML nodes, the checks on a decoded document, and the nodes that
-- the harness is built of.
use otel_policy_lab.Prelude.{
  ℕ, suc, ◌%◌, ◌≡◌, Bool, true, false, not, ◌||◌, ◌&&◌, List, [], ◌∷◌, Option, none, some, Text,
  codes, text_Eq, nat_Eq, ◌==◌, contains, ltb, if◌then◌else◌, Result, ok, err, ◌>>◌, Eq, ◌↔◌, arith,
  itoa,
}

-- The kinds of `yaml.Node` that the decoder yields below a document.
pub data NodeKind : Type 0 where
  sequence_node mapping_node scalar_node alias_node : NodeKind

abbrev pub same_kind : NodeKind → NodeKind → Bool
same_kind sequence_node sequence_node = true
same_kind mapping_node mapping_node = true
same_kind scalar_node scalar_node = true
same_kind alias_node alias_node = true
same_kind _ _ = false

pub same_kind_iff : (a b : NodeKind) → (same_kind a b ≡ true) ↔ (a ≡ b)
same_kind_iff a b = ground arith

instance abbrev pub kind_Eq : Eq NodeKind
kind_Eq = record { beq = same_kind; beq_iff = same_kind_iff }

-- The fields of a node that the code reads or sets, all but its children.
pub record NodeHead : Type 0 where
  pub kind : NodeKind
  pub tag : Text
  pub value : Text
  pub anchor : Text
  pub head_comment : Text
  pub line_comment : Text
  pub foot_comment : Text

mutual
  pub data Node : Type 0 where
    node : NodeHead → Nodes → Node

  pub data Nodes : Type 0 where
    no_nodes : Nodes
    and_node : Node → Nodes → Nodes

abbrev pub head : Node → NodeHead
head (node h content) = h

abbrev pub content_of : Node → Nodes
content_of (node h content) = content

-- The children of a mapping, taken as keys and values in turn. The decoder yields an even number
-- of them.
unfoldable pub entries : Nodes → List (Node × Node)
entries no_nodes = []
entries (and_node k no_nodes) = []
entries (and_node k (and_node v rest)) = (k, v) ∷ entries rest

unfoldable pub items : Nodes → List Node
items no_nodes = []
items (and_node n rest) = n ∷ items rest

unfoldable pub find_entry : List (Node × Node) → Text → Option Node
find_entry [] key = none
find_entry ((k, v) ∷ rest) key = if (head k).value == key then some v else find_entry rest key

-- `mappingValue`; a nil node is `none`.
unfoldable pub mapping_value : Option Node → Text → Option Node
unfolding find_entry entries
mapping_value none key = none
mapping_value (some n) key =
    if (head n).kind == mapping_node then find_entry (entries (content_of n)) key else none

-- The four errors of `validateYAML`.
pub data YamlError : Type 0 where
  too_deep aliases_unsupported string_keys_required duplicate_keys : YamlError

abbrev pub is_plain_key : NodeHead → Bool
is_plain_key k = k.kind == scalar_node && k.tag == codes "!!str" && not (k.value == codes "<<")

unfoldable pub validate_keys : List Text → List (Node × Node) → Result YamlError (Unit {0})
unfolding contains
validate_keys seen [] = ok tt
validate_keys seen ((k, v) ∷ rest) =
    let more = validate_keys ((head k).value ∷ seen) rest in
    if not (is_plain_key (head k))
    then err string_keys_required
    else if contains seen (head k).value
    then err duplicate_keys
    else more

abbrev pub max_depth : ℕ
max_depth = 100

-- The checks of `validateYAML` on one node, before those on its children.
unfoldable pub validate_head : NodeHead → Nodes → ℕ → Result YamlError (Unit {0})
unfolding validate_keys entries
validate_head h content depth =
    if ltb max_depth depth
    then err too_deep
    else if h.kind == alias_node || not (h.anchor == [])
    then err aliases_unsupported
    else if h.kind == mapping_node
    then validate_keys [] (entries content)
    else ok tt

unfoldable mutual
  pub validate_yaml : Node → ℕ → Result YamlError (Unit {0})
  validate_yaml (node h content) depth =
      validate_head h content depth >> validate_children content (suc depth)

  pub validate_children : Nodes → ℕ → Result YamlError (Unit {0})
  validate_children no_nodes depth = ok tt
  validate_children (and_node n rest) depth = validate_yaml n depth >> validate_children rest depth

-- The inner loop of `hasProviderSubstitution`: the dollar signs right before a position, given
-- what stands before it from back to front.
unfoldable pub dollars : Text → ℕ
dollars [] = 0
dollars (c ∷ back) = let more = suc (dollars back) in if c == b'$' then more else 0

-- Its outer loop, over the positions of the value.
unfoldable pub brace_after_dollars : Text → Text → Bool
unfolding dollars
brace_after_dollars back [] = false
brace_after_dollars back (c ∷ s) =
    let rest = brace_after_dollars (c ∷ back) s in
    if c == b'{' && dollars back % 2 == 1 then true else rest

unfoldable mutual
  pub has_provider_substitution : Node → Bool
  has_provider_substitution (node h content) =
      (h.kind == scalar_node && brace_after_dollars [] h.value) || any_provider_substitution content

  pub any_provider_substitution : Nodes → Bool
  any_provider_substitution no_nodes = false
  any_provider_substitution (and_node n rest) =
      has_provider_substitution n || any_provider_substitution rest

unfoldable mutual
  pub clone_node : Node → Node
  clone_node (node h content) =
      node (record h { head_comment = []; line_comment = []; foot_comment = [] })
        (clone_nodes content)

  pub clone_nodes : Nodes → Nodes
  clone_nodes no_nodes = no_nodes
  clone_nodes (and_node n rest) = and_node (clone_node n) (clone_nodes rest)

abbrev pub new_head : NodeKind → Text → Text → NodeHead
new_head kind tag value = record {
  kind = kind;
  tag = tag;
  value = value;
  anchor = [];
  head_comment = [];
  line_comment = [];
  foot_comment = [];
}

unfoldable pub str_node : Text → Node
str_node s = node (new_head scalar_node (codes "!!str") s) no_nodes

unfoldable pub bool_node : Bool → Node
bool_node b =
    node (new_head scalar_node (codes "!!bool") (if b then codes "true" else codes "false"))
      no_nodes

unfoldable pub int_node : ℕ → Node
unfolding itoa
int_node i = node (new_head scalar_node (codes "!!int") (itoa i)) no_nodes

-- The content that `put` appends for each key and value.
unfoldable pub put_all : List (Text × Node) → Nodes
unfolding str_node
put_all [] = no_nodes
put_all ((key, value) ∷ pairs) = and_node (str_node key) (and_node value (put_all pairs))

unfoldable pub map_node : List (Text × Node) → Node
unfolding put_all
map_node pairs = node (new_head mapping_node (codes "!!map") []) (put_all pairs)

unfoldable pub str_nodes : List Text → Nodes
unfolding str_node
str_nodes [] = no_nodes
str_nodes (s ∷ rest) = and_node (str_node s) (str_nodes rest)

unfoldable pub seq_node : List Text → Node
unfolding str_nodes
seq_node values = node (new_head sequence_node (codes "!!seq") []) (str_nodes values)
