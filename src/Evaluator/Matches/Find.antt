-- ===== src/Evaluator/Matches/Find.antt =====
-- internal/evaluator/matches.go: what matches in one record, before duplicates are dropped.
use otel_policy_lab.Prelude.{
  ℕ, List, [], ◌∷◌, ◌++◌, map, Bool, false, not, ◌&&◌, Option, none, some, Text, codes, text_Eq,
  length, contains_text, has_prefix, to_lower, sort_texts, keys, lookup, concat_map,
  concat_map_index, keep, ◌==◌, if◌then◌else◌, Result, ok, err, ◌>>=◌,
}
use otel_policy_lab.Telemetry.{Attributes, LogRecord, Span, Datapoint, Metric}
use otel_policy_lab.Policy.{LogsAssertions, TracesAssertions, MetricsAssertions}
use otel_policy_lab.Report.Check.{
  Kind, resource_key, resource_value, attribute_key, attribute_value, label_key, label_value, body,
  span_name, ForbiddenMatch,
}
use otel_policy_lab.Library.{Library}

unfoldable pub sorted_keys : Attributes → List Text
sorted_keys attrs = sort_texts (keys attrs)

-- `attrs[key]`, which is the empty string for a missing key
unfoldable pub value_at : Attributes → Text → Text
value_at attrs key = elim (lookup attrs key) [ none ↦ [] | some v ↦ v ]

-- What `regexp.Compile` gives for a pattern, with the expression named in the error.
pub data PatternError : Type 0 where
  invalid_pattern : (pattern reason : Text) → PatternError

module _ (lib : Library) where
  open lib use {Regexp}

  unfoldable pub glob_matches : Option Bool → Bool
  glob_matches none = false
  glob_matches (some ok?) = ok?

  -- The comparison of a pattern and a key whose case is settled.
  unfoldable pub match_folded : Text → Text → Bool
  unfolding glob_matches
  match_folded pattern key =
      if contains_text pattern (codes "*")
      then glob_matches (lib.path_match pattern key)
      else pattern == key

  unfoldable pub match_key : Text → Text → Bool → Bool
  unfolding match_folded
  match_key pattern key case_insensitive =
      if case_insensitive
      then match_folded (to_lower lib.unicode_lower pattern) (to_lower lib.unicode_lower key)
      else match_folded pattern key

  unfoldable pub find_forbidden_attribute_matches :
      Kind → ℕ → Text → Attributes → List Text → Bool → List ForbiddenMatch
  unfolding concat_map keep
  find_forbidden_attribute_matches kind index metric attrs forbidden case_insensitive =
      concat_map
        (λ key.
          map
            (λ pattern. record {
              kind = kind;
              key = key;
              pattern = pattern;
              value_length = 0;
              index = index;
              metric = metric;
            })
            (keep (λ pattern. match_key pattern key case_insensitive) forbidden))
        (sorted_keys attrs)

  unfoldable pub find_forbidden_value_matches :
      Kind → ℕ → Text → Attributes → List Regexp → List ForbiddenMatch
  unfolding concat_map keep
  find_forbidden_value_matches kind index metric attrs patterns =
      concat_map
        (λ key.
          map
            (λ pattern. record {
              kind = kind;
              key = key;
              pattern = lib.source pattern;
              value_length = length (value_at attrs key);
              index = index;
              metric = metric;
            })
            (keep (λ pattern. lib.match_string pattern (value_at attrs key)) patterns))
        (sorted_keys attrs)

  unfoldable pub find_forbidden_string_matches :
      Kind → ℕ → Text → Text → List Regexp → List ForbiddenMatch
  unfolding keep
  find_forbidden_string_matches kind index metric value patterns =
      map
        (λ pattern. record {
          kind = kind;
          key = [];
          pattern = lib.source pattern;
          value_length = length value;
          index = index;
          metric = metric;
        })
        (keep (λ pattern. lib.match_string pattern value) patterns)

  abbrev pub ignore_case : Text
  ignore_case = codes "(?i)"

  -- The pattern that is compiled.
  unfoldable pub fold_pattern : Bool → Text → Text
  fold_pattern case_insensitive pattern =
      if case_insensitive && not (has_prefix pattern ignore_case)
      then ignore_case ++ pattern
      else pattern

  unfoldable pub compile_pattern : Text → Result PatternError Regexp
  compile_pattern pattern = elim (lib.compile pattern) [
    | ok re ↦ ok re
    | err reason ↦ err (invalid_pattern pattern reason)
  ]

  unfoldable pub compile_patterns : List Text → Bool → Result PatternError (List Regexp)
  unfolding fold_pattern compile_pattern
  compile_patterns [] case_insensitive = ok []
  compile_patterns (pattern ∷ rest) case_insensitive = do
    re ← compile_pattern (fold_pattern case_insensitive pattern)
    compiled ← compile_patterns rest case_insensitive
    ok (re ∷ compiled)

  -- The body of the loop over the logs.
  unfoldable pub log_matches :
      LogsAssertions → List Regexp → List Regexp → ℕ → LogRecord → List ForbiddenMatch
  log_matches a value_patterns body_patterns i log =
      find_forbidden_attribute_matches resource_key i [] log.resource_attributes
        a.forbidden_attributes a.case_insensitive
      ++ (find_forbidden_value_matches resource_value i [] log.resource_attributes value_patterns
          ++ (find_forbidden_attribute_matches attribute_key i [] log.attributes
                a.forbidden_attributes a.case_insensitive
              ++ (find_forbidden_value_matches attribute_value i [] log.attributes value_patterns
                  ++ find_forbidden_string_matches body i [] log.body body_patterns)))

  unfoldable pub span_matches : TracesAssertions → List Regexp → ℕ → Span → List ForbiddenMatch
  span_matches a value_patterns i span =
      find_forbidden_attribute_matches resource_key i [] span.resource_attributes
        a.forbidden_attributes a.case_insensitive
      ++ (find_forbidden_value_matches resource_value i [] span.resource_attributes value_patterns
          ++ (find_forbidden_attribute_matches attribute_key i [] span.attributes
                a.forbidden_attributes a.case_insensitive
              ++ (find_forbidden_value_matches attribute_value i [] span.attributes value_patterns
                  ++ find_forbidden_string_matches span_name i [] span.name value_patterns)))

  unfoldable pub datapoint_matches :
      MetricsAssertions → List Regexp → Text → ℕ → Datapoint → List ForbiddenMatch
  datapoint_matches a value_patterns name i dp =
      find_forbidden_attribute_matches label_key i name dp.labels a.forbidden_labels
        a.case_insensitive
      ++ find_forbidden_value_matches label_value i name dp.labels value_patterns

  unfoldable pub metric_matches : MetricsAssertions → List Regexp → ℕ → Metric → List ForbiddenMatch
  unfolding datapoint_matches concat_map_index
  metric_matches a value_patterns mi metric =
      find_forbidden_attribute_matches resource_key mi metric.name metric.resource_attributes
        a.forbidden_labels a.case_insensitive
      ++ (find_forbidden_value_matches resource_value mi metric.name metric.resource_attributes
            value_patterns
          ++ concat_map_index 0 (datapoint_matches a value_patterns metric.name) metric.datapoints)
