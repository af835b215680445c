-- ===== src/Policy/Valid.antt =====
-- What a policy that passes validation looks like.
use otel_policy_lab.Prelude.{
  pos, ◌≡◌, refl, ◌↔◌, List, [], ◌∷◌, Text, All, arith, int_Eq, int_eq_iff, text_Eq, text_eq_iff,
  Result, ok,
}
use otel_policy_lab.Policy.{
  Policy, canonical_preserve, normalize_preserve_expression, check_preserve, preserve_exprs,
  validate, parse, supported_version,
}
use otel_policy_lab.Policy.Predicates.{
  IsSupported, normalize-IsSupported, IsIdle, has_assertions_iff,
}

pub check_preserve_iff :
    (exprs : List Text) → (check_preserve exprs ≡ ok tt) ↔ All IsSupported exprs
unfolding check_preserve
check_preserve_iff [] = (λ _. tt, λ _. refl)
check_preserve_iff (expr ∷ rest) = ground (
  arith,
  check_preserve_iff rest,
  normalize-IsSupported expr,
  text_eq_iff (normalize_preserve_expression expr) canonical_preserve,
)

-- A policy is valid exactly if its version is 1, it is not the case that no section forbids,
-- requires, preserves or limits anything, and every expression to preserve is the supported one,
-- up to spaces and the kind of its quotes.
pub validate_iff :
    (p : Policy)
    → (validate p ≡ ok tt) ↔ (
        (p.version ≡ pos 1) × (¬ (IsIdle p)) × All IsSupported (preserve_exprs p.assertions.traces))
unfolding validate
validate_iff p =
    let supported = check_preserve_iff (preserve_exprs p.assertions.traces) in
    let checks = has_assertions_iff p in
    let zero_version = int_eq_iff p.version (pos 0) in
    let version = int_eq_iff p.version supported_version in
    (
      λ h. (version.0 (ground arith), checks.0 (ground arith), supported.0 (ground arith)),
      λ (v, n, s).
          let is_one = version.1 v in
          let has_checks = checks.1 n in
          let done = supported.1 s in ground (arith, is_one, has_checks, done, v),
    )

-- A document is parsed to a policy exactly if the decoder yields this policy and it is valid.
pub parse_iff :
    (decode : Text → Result Text Policy) (contents : Text) (p : Policy)
    → (parse decode contents ≡ ok p) ↔ ((decode contents ≡ ok p) × (validate p ≡ ok tt))
unfolding parse
parse_iff decode contents p = ground arith
