-- ===== src/Runner/Fixture.antt =====
-- internal/runner/runner.go: the fixture runner, which applies the processors of a Collector
-- configuration to the telemetry.
pub mod Config
pub mod Edit
pub mod Deletion
pub mod Accounts
pub mod Used
pub mod Reports
mod Tests
use otel_policy_lab.Prelude.{
  ℕ, ◌+◌, ◌-◌, ltb, leb, Bool, true, false, not, ◌||◌, ◌&&◌, List, [], ◌∷◌, ◌++◌, map, Option, none,
  some, is_some, Text, codes, text_Eq, ◌==◌, Map, lookup, keys, length, has_prefix, contains_text,
  sort_texts, add, keep, contains, if◌then◌else◌, Result, ok, err,
}
use otel_policy_lab.Telemetry.{Set, clone}
use otel_policy_lab.Library.{Library}
use Config.{
  Value, string_value, list_value, map_value, Values, no_values, and_value, Fields, CollectorConfig,
  field, text_of, delete_keys, pipeline_processors, ordered_signals,
}
use Edit.{remove_attributes_for_signal, filter_debug_logs}

pub record ApplyResult : Type 0 where
  pub output : Set
  pub warnings : List Text
  pub simulated : List Text
  pub unsupported : List Text

abbrev pub is_no_content_effect_processor : Text → Bool
is_no_content_effect_processor name =
    name == codes "batch"
    || has_prefix name (codes "batch/")
    || name == codes "memory_limiter"
    || has_prefix name (codes "memory_limiter/")

abbrev pub warn : Text → ApplyResult → ApplyResult
warn warning r = record r { warnings = r.warnings ++ warning ∷ [] }

abbrev pub simulate : Text → ApplyResult → ApplyResult
simulate name r = record r { simulated = r.simulated ++ name ∷ [] }

abbrev pub give_up : Text → Text → ApplyResult → ApplyResult
give_up name warning r = record r {
  warnings = r.warnings ++ warning ∷ [];
  unsupported = r.unsupported ++ name ∷ [];
}

-- The conditions of `applyDebugLogFilter`: does the processor filter logs whose body matches an
-- expression that mentions "debug"?
unfoldable pub drops_debug_logs : Fields → Bool
unfolding field text_of contains_text
drops_debug_logs processor = elim (field processor (codes "logs")) [
  | some (map_value expr) ↦ elim (field expr (codes "include")) [
    | some (map_value include) ↦
        (let listed : Bool = elim (field include (codes "expressions")) [
          | some (list_value (and_value first rest)) ↦
              contains_text (text_of (some first)) (codes "debug")
          | _ ↦ false
        ] in
          text_of (field include (codes "match_type")) == codes "regexp" && listed)
    | _ ↦ false
  ]
  | _ ↦ false
]

abbrev pub processors_of : Map Text (List Text) → Text → List Text
processors_of pipelines signal = elim (lookup pipelines signal) [ none ↦ [] | some names ↦ names ]

-- `sortedUnique`
abbrev pub unique_of : List Text → List Text → List Text
unique_of seen [] = seen
unique_of seen (v ∷ values) = unique_of (add seen v) values

abbrev pub sorted_unique : List Text → List Text
sorted_unique values = sort_texts (unique_of [] values)

module _ (lib : Library) where
  -- The rest of `applyDebugLogFilter`. The reduction is at least 50 percent.
  unfoldable pub apply_debug_log_filter : ApplyResult → ApplyResult
  unfolding filter_debug_logs
  apply_debug_log_filter r =
      let kept = filter_debug_logs lib.unicode_lower r.output.logs in
      let before = length r.output.logs in
      let removed = before - length kept in
      let filtered : ApplyResult = record r { output = record r.output { logs = kept } } in
      if ltb 0 before && leb before (removed + removed)
      then warn
          (codes "log volume reduced by "
            ++ (lib.percent removed before ++ codes "%; verify debug logs are not over-filtered"))
          filtered
      else filtered

  -- The case of an attributes processor.
  unfoldable pub apply_attributes : Text → Text → Fields → ApplyResult → ApplyResult
  unfolding field delete_keys remove_attributes_for_signal
  apply_attributes signal name processor r =
      let partly : Text = codes "fixture runner partially simulated processor " ++ name in
      let included : ApplyResult =
        if is_some (field processor (codes "include"))
        then warn (partly ++ codes "; include matching is not supported") r
        else r in
      let excluded : ApplyResult =
        if is_some (field processor (codes "exclude"))
        then warn (partly ++ codes "; exclude matching is not supported") included
        else included in
      elim (delete_keys (field processor (codes "actions"))) [
        | [] ↦
            give_up name (partly ++ codes "; only attributes delete actions are supported") excluded
        | key ∷ more ↦ simulate name (record excluded {
          output = remove_attributes_for_signal signal (key ∷ more) excluded.output;
        })
      ]

  -- The case of a filter processor.
  unfoldable pub apply_filter : Text → Text → Fields → ApplyResult → ApplyResult
  unfolding drops_debug_logs apply_debug_log_filter
  apply_filter signal name processor r =
      let refused : Text = codes "fixture runner did not simulate processor " ++ name in
      if not (signal == codes "logs")
      then give_up name (refused ++ (codes " for " ++ (signal ++ codes " pipeline"))) r
      else if drops_debug_logs processor
      then warn
          (codes "fixture runner partially simulated processor "
            ++ (name ++ codes "; full filter/OTTL semantics are not supported"))
          (simulate name (apply_debug_log_filter r))
      else give_up name refused r

  unfoldable pub apply_processor : Text → Text → Fields → ApplyResult → ApplyResult
  unfolding apply_attributes apply_filter has_prefix
  apply_processor signal name processor r =
      if is_no_content_effect_processor name
      then simulate name r
      else if has_prefix name (codes "attributes/") || name == codes "attributes"
      then apply_attributes signal name processor r
      else if has_prefix name (codes "filter/") || name == codes "filter"
      then apply_filter signal name processor r
      else give_up name (codes "fixture runner did not simulate processor " ++ name) r

  -- The body of the loop over the names that a signal uses, and the loop.
  unfoldable pub apply_named : CollectorConfig → Text → Text → ApplyResult → ApplyResult
  unfolding apply_processor lookup
  apply_named cfg signal name r = elim (lookup cfg.processors name) [
    | none ↦ give_up name (codes "collector pipeline references undefined processor " ++ name) r
    | some processor ↦ apply_processor signal name processor r
  ]

  unfoldable pub apply_names : CollectorConfig → Text → List Text → ApplyResult → ApplyResult
  unfolding apply_named
  apply_names cfg signal [] r = r
  apply_names cfg signal (name ∷ names) r =
      apply_names cfg signal names (apply_named cfg signal name r)

  unfoldable pub apply_signals :
      CollectorConfig → Map Text (List Text) → List Text → ApplyResult → ApplyResult
  unfolding apply_names lookup
  apply_signals cfg pipelines [] r = r
  apply_signals cfg pipelines (signal ∷ signals) r =
      let warned : ApplyResult =
        if signal == codes "traces"
        then warn
            (codes
              "fixture runner does not simulate span dropping or sampling; trace preservation checks are fixture-local")
            r
        else r in
      apply_signals cfg pipelines signals
        (apply_names cfg signal (processors_of pipelines signal) warned)

  unfoldable pub apply_config : Set → CollectorConfig → ApplyResult
  unfolding apply_signals pipeline_processors ordered_signals clone sort_texts
  apply_config input cfg =
      let pipelines = pipeline_processors cfg in
      let r =
        apply_signals cfg pipelines (ordered_signals pipelines)
          record { output = clone input; warnings = []; simulated = []; unsupported = [] } in
      record r { simulated = sorted_unique r.simulated; unsupported = sorted_unique r.unsupported }
