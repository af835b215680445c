-- ===== src/Evaluator/Tests/Records.antt =====
-- The theorems on single checks, at concrete records.
use otel_policy_lab.Prelude.{
  ℕ, ◌≡◌, ◌≤◌, ◌↔◌, refl, List, [], ◌∷◌, map, All, In, true, false, Text, codes, length, contains,
  IsUnique, text_Eq, nat_Eq, text_eq,
}
use otel_policy_lab.Telemetry.{Attributes, Span}
use otel_policy_lab.Report.Check.{ForbiddenMatch, attribute_key, status_pass}
use otel_policy_lab.Samples.{literals, plain, shop, shop_output, service, span_of}
use otel_policy_lab.Evaluator.Matches.Dedupe.{
  dedupe_key, dedupe_forbidden_matches, dedupe_forbidden_matches_lem, dedupe_forbidden_matches-nil,
}
use otel_policy_lab.Evaluator.Required.{count_at, check_required_resource_attributes}
use otel_policy_lab.Evaluator.Required.Sound.{
  HasAll, check_required_resource_attributes_iff, lacking, count_at-check,
}
use otel_policy_lab.Evaluator.Preserve.{is_error, eval_error_trace_preservation}
use otel_policy_lab.Evaluator.Preserve.Identity.{
  HasNoColon, has_error_span, eval_error_trace_preservation_identity,
}
use otel_policy_lab.Evaluator.Cardinality.{eval_max_series}
use otel_policy_lab.Evaluator.Cardinality.Sound.{series_of, eval_max_series_iff}

abbrev match_at : ℕ → ForbiddenMatch
match_at i = record {
  kind = attribute_key;
  key = codes "password";
  pattern = codes "password";
  value_length = 0;
  index = i;
  metric = [];
}

abbrev found : List ForbiddenMatch
found = match_at 1 ∷ match_at 0 ∷ match_at 1 ∷ []

dedupe_forbidden_matches_lem_example :
    ((a : ForbiddenMatch) → In a (dedupe_forbidden_matches found) → In a found)
    × IsUnique (map dedupe_key (dedupe_forbidden_matches found))
    × ((k : Text)
        → contains (map dedupe_key (dedupe_forbidden_matches found)) k
          ≡ contains (map dedupe_key found) k)
dedupe_forbidden_matches_lem_example = dedupe_forbidden_matches_lem found

dedupe_forbidden_matches-nil_example : (dedupe_forbidden_matches found ≡ []) ↔ (found ≡ [])
dedupe_forbidden_matches-nil_example = dedupe_forbidden_matches-nil found

abbrev names : List Text
names = codes "service.name" ∷ codes "env" ∷ []

abbrev records : List Attributes
records = service ∷ [] ∷ []

check_required_resource_attributes_iff_example :
    ((check_required_resource_attributes names records).failed ≡ false)
    ↔ ((1 ≤ length records) × All (HasAll names) records)
check_required_resource_attributes_iff_example =
    check_required_resource_attributes_iff names records

names-IsUnique : IsUnique names
unfolding contains text_eq
names-IsUnique = (refl, (refl, tt))

env_is_required : contains names (codes "env") ≡ true
unfolding contains text_eq
env_is_required = refl

count_at-check_example :
    count_at (check_required_resource_attributes names records).missing_counts (codes "env")
    ≡ lacking (codes "env") records
count_at-check_example =
    count_at-check names service ([] ∷ []) (codes "env") names-IsUnique env_is_required

t1-HasNoColon : HasNoColon (codes "t1")
t1-HasNoColon = ((λ e. cc), ((λ e. cc), tt))

eval_error_trace_preservation_identity_example :
    ((eval_error_trace_preservation literals shop shop_output []).status ≡ status_pass)
    ↔ All
        (λ s. is_error literals s ≡ true → has_error_span literals s shop_output.spans ≡ true)
        shop.spans
eval_error_trace_preservation_identity_example =
    eval_error_trace_preservation_identity literals shop shop_output []
      (t1-HasNoColon, (t1-HasNoColon, tt)) (t1-HasNoColon, tt)

abbrev first : Span
first = span_of (codes "s1") (codes "ERROR")

abbrev second : Span
second = span_of (codes "s2") (codes "OK")

eval_max_series_iff_example :
    All (λ r. r.status ≡ status_pass) (eval_max_series plain shop 2)
    ↔ All (λ m. length (series_of plain [] m.name shop.metrics) ≤ 2) shop.metrics
eval_max_series_iff_example = eval_max_series_iff plain shop 2
