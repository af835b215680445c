-- ===== src/Runner/Fixture/Config.antt =====
-- internal/runner/runner.go: the decoded configuration and what is read from it.
use otel_policy_lab.Prelude.{
  ◌&&◌, not, List, [], ◌∷◌, ◌++◌, Option, none, some, Text, codes, text_Eq, ◌==◌, before, Map,
  lookup, insert, has_key, keys, keep, contains, sort_texts, if◌then◌else◌,
}

-- A decoded YAML value, as far as the code tells its types apart. A key of `Fields` is there once.
mutual
  pub data Value : Type 0 where
    string_value : Text → Value
    list_value : Values → Value
    map_value : Fields → Value
    other_value : Value

  pub data Values : Type 0 where
    no_values : Values
    and_value : Value → Values → Values

  pub data Fields : Type 0 where
    no_fields : Fields
    with_field : Text → Value → Fields → Fields

unfoldable pub field : Fields → Text → Option Value
field no_fields name = none
field (with_field key v more) name =
    let rest = field more name in if key == name then some v else rest

-- `v, _ := x.(string)`
unfoldable pub text_of : Option Value → Text
text_of (some (string_value s)) = s
text_of _ = []

-- `stringSlice(actions, "key")`: the keys of the actions that delete.
unfoldable pub delete_key : Value → List Text
unfolding field text_of
delete_key (map_value m) =
    let key = text_of (field m (codes "key")) in
    if text_of (field m (codes "action")) == codes "delete" && not (key == []) then key ∷ [] else []
delete_key _ = []

unfoldable pub delete_keys_in : Values → List Text
unfolding delete_key
delete_keys_in no_values = []
delete_keys_in (and_value v vs) = delete_key v ++ delete_keys_in vs

unfoldable pub delete_keys : Option Value → List Text
unfolding delete_keys_in
delete_keys (some (list_value vs)) = delete_keys_in vs
delete_keys _ = []

-- The pipelines stand in the order in which the code meets them.
pub record CollectorConfig : Type 0 where
  pub processors : Map Text Fields
  pub pipelines : Map Text (List Text)

abbrev pub listed : Map Text (List Text) → Text → List Text
listed used signal = elim (lookup used signal) [ none ↦ [] | some names ↦ names ]

unfoldable pub used_processors : Map Text (List Text) → Map Text (List Text) → Map Text (List Text)
unfolding lookup insert before
used_processors used [] = used
used_processors used ((name, processors) ∷ pipelines) =
    let signal = before b'/' name in
    used_processors (insert used signal (listed used signal ++ processors)) pipelines

unfoldable pub pipeline_processors : CollectorConfig → Map Text (List Text)
unfolding used_processors keys sort_texts
pipeline_processors cfg =
    let all = sort_texts (keys cfg.processors) in
    elim (used_processors [] cfg.pipelines) [
      | [] ↦ (codes "logs", all) ∷ (codes "traces", all) ∷ (codes "metrics", all) ∷ []
      | entry ∷ used ↦ entry ∷ used
    ]

abbrev pub known_signals : List Text
known_signals = codes "logs" ∷ codes "traces" ∷ codes "metrics" ∷ []

unfoldable pub ordered_signals : Map Text (List Text) → List Text
unfolding keep has_key keys contains sort_texts
ordered_signals pipelines =
    keep (λ s. has_key pipelines s) known_signals
    ++ sort_texts (keep (λ s. not (contains known_signals s)) (keys pipelines))
