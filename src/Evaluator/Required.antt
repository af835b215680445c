-- ===== src/Evaluator/Required.antt =====
-- internal/evaluator/evaluator.go: required resource attributes.
pub mod Sound
use otel_policy_lab.Prelude.{
  ℕ, suc, ◌+◌, List, [], ◌∷◌, ◌++◌, map, Bool, true, false, not, Option, none, some, Text, codes,
  text_Eq, nat_Eq, Map, lookup, insert, keys, has_key, keep, length, itoa, join, sort_texts, ltb,
  concat_map, ◌==◌, if◌then◌else◌,
}
use otel_policy_lab.Telemetry.{Attributes, LogRecord, Span, Metric, Set}
use otel_policy_lab.Report.Check.{
  Signal, Example, Details, resource_details, CheckResult, required_resource_attributes,
}
use otel_policy_lab.Evaluator.Results.{pass, fail}

pub record RequiredResourceCheck : Type 0 where
  pub failed : Bool
  pub total_records : ℕ
  pub missing_counts : Map Text ℕ
  pub examples : List Example

-- `missingCounts[key]`, zero for a missing key
unfoldable pub count_at : Map Text ℕ → Text → ℕ
count_at counts key = elim (lookup counts key) [ none ↦ 0 | some n ↦ n ]

-- The required names that a record lacks, in the order of the policy.
unfoldable pub missing_in : List Text → Attributes → List Text
unfolding keep
missing_in required attrs = keep (λ req. not (has_key attrs req)) required

-- `missingCounts[req]++` for each of the names.
unfoldable pub count_missing : Map Text ℕ → List Text → Map Text ℕ
unfolding insert count_at
count_missing counts [] = counts
count_missing counts (req ∷ rest) = count_missing (insert counts req (count_at counts req + 1)) rest

-- What the loop does with a record, given the names that it lacks.
unfoldable pub note_record : ℕ → List Text → RequiredResourceCheck → RequiredResourceCheck
note_record i [] c = c
note_record i (req ∷ missing) c = record c {
  failed = true;
  missing_counts = count_missing c.missing_counts (req ∷ missing);
  examples =
      if ltb (length c.examples) 3
      then c.examples ++ record { index = i; missing = req ∷ missing } ∷ []
      else c.examples;
}

unfoldable pub check_records :
    List Text → ℕ → List Attributes → RequiredResourceCheck → RequiredResourceCheck
unfolding note_record missing_in
check_records required i [] c = c
check_records required i (attrs ∷ rest) c =
    check_records required (suc i) rest (note_record i (missing_in required attrs) c)

-- `missingCounts[req] = 0` for each required name, where there is no record.
unfoldable pub zero_counts : Map Text ℕ → List Text → Map Text ℕ
zero_counts counts [] = counts
zero_counts counts (req ∷ rest) = zero_counts (insert counts req 0) rest

unfoldable pub check_required_resource_attributes :
    List Text → List Attributes → RequiredResourceCheck
unfolding check_records zero_counts insert
check_required_resource_attributes required [] = record {
  failed = true;
  total_records = 0;
  missing_counts = zero_counts [] required;
  examples = [];
}
check_required_resource_attributes required (attrs ∷ rest) =
    check_records required 0 (attrs ∷ rest) (record {
      failed = false;
      total_records = length (attrs ∷ rest);
      missing_counts = [];
      examples = [];
    })

unfoldable pub check_required_log_resource_attributes : Set → List Text → RequiredResourceCheck
check_required_log_resource_attributes set required =
    check_required_resource_attributes required
      (map (λ (l : LogRecord). l.resource_attributes) set.logs)

unfoldable pub check_required_span_resource_attributes : Set → List Text → RequiredResourceCheck
check_required_span_resource_attributes set required =
    check_required_resource_attributes required
      (map (λ (s : Span). s.resource_attributes) set.spans)

unfoldable pub check_required_metric_resource_attributes : Set → List Text → RequiredResourceCheck
check_required_metric_resource_attributes set required =
    check_required_resource_attributes required
      (map (λ (m : Metric). m.resource_attributes) set.metrics)

unfoldable pub sorted_missing_keys : Map Text ℕ → List Text
sorted_missing_keys counts = sort_texts (keys counts)

-- "name (count/total records)" for a name that some record lacks.
unfoldable pub missing_part : RequiredResourceCheck → Text → List Text
missing_part c key =
    if ltb 0 (count_at c.missing_counts key)
    then (key
        ++ (codes " ("
            ++ (itoa (count_at c.missing_counts key)
                ++ (codes "/" ++ (itoa c.total_records ++ codes " records)")))))
      ∷ []
    else []

unfoldable pub message : RequiredResourceCheck → Text → Text
unfolding missing_part concat_map
message c signal =
    if c.total_records == 0
    then codes "no "
      ++ (signal
          ++ (codes " available to verify required resource attributes: "
              ++ join (codes ", ") (sorted_missing_keys c.missing_counts)))
    else signal
      ++ (codes " missing required resource attributes: "
          ++ join (codes ", ") (concat_map (missing_part c) (sorted_missing_keys c.missing_counts)))

unfoldable pub details : RequiredResourceCheck → Details
details c = resource_details c.total_records c.missing_counts c.examples

-- The results that `evalLogs`, `evalTraces` and `evalMetrics` append for their required names:
-- none without such names, else one.
unfoldable pub required_results :
    Signal → Text → List Text → RequiredResourceCheck → List CheckResult
unfolding pass fail
required_results signal name [] check = []
required_results signal name (req ∷ required) check =
    (if not check.failed
      then pass signal required_resource_attributes
          (codes "all " ++ (name ++ (codes " include " ++ join (codes ", ") (req ∷ required))))
      else fail signal required_resource_attributes (message check name) (some (details check)))
    ∷ []
