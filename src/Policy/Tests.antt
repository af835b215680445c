-- ===== src/Policy/Tests.antt =====
-- The policy theorems on the sample policy and on one that asks for an unknown predicate.
use otel_policy_lab.Prelude.{
  ◌≡◌, ◌↔◌, refl, All, [], ◌∷◌, none, some, false, pos, codes, ok, err, text_eq,
}
use otel_policy_lab.Policy.{
  Policy, preserve_exprs, validate, unsupported_preserve, check_preserve,
  normalize_preserve_expression, squeeze, has_assertions,
}
use otel_policy_lab.Policy.Predicates.{IsSupported, IsIdle}
use otel_policy_lab.Policy.Valid.{validate_iff}
use otel_policy_lab.Policy.Rejected.{Rejects, validate-err_iff}
use otel_policy_lab.Samples.{rules}

validate_iff_example : (validate rules ≡ ok tt) ↔ (
    (rules.version ≡ pos 1)
    × (¬ (IsIdle rules))
    × All IsSupported (preserve_exprs rules.assertions.traces))
validate_iff_example = validate_iff rules

-- The second expression is not supported.
abbrev picky : Policy
picky = record {
  version = pos 1;
  assertions = record {
    logs = none;
    traces = some (record {
      preserve = codes "status.code  =='ERROR'" ∷ codes "name == \"GET\"" ∷ [];
      forbidden_attributes = [];
      forbidden_value_patterns = [];
      case_insensitive = false;
      required_resource_attributes = [];
    });
    metrics = none;
  };
}

picky_is_rejected : validate picky ≡ err (unsupported_preserve (codes "name == \"GET\""))
unfolding validate check_preserve normalize_preserve_expression squeeze has_assertions text_eq
picky_is_rejected = refl

validate-err_iff_example : Rejects picky (unsupported_preserve (codes "name == \"GET\""))
validate-err_iff_example =
    (validate-err_iff picky (unsupported_preserve (codes "name == \"GET\""))).0 picky_is_rejected
