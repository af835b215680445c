-- ===== src/Policy/Predicates.antt =====
-- internal/policy/policy.go: the expressions that a policy can preserve, and the policies that check
-- nothing, described on their own.
use mathlib.Core.Bool.{false≢true}
use otel_policy_lab.Prelude.{
  ℕ, suc, ℤ, Bool, false, not, map, keep, nat_eq, codes, Option, none, some, is_positive,
  if◌then◌else◌, negsuc, zero, replace_byte, ap, pos, ◌≡◌, refl, ◌↔◌, inl, inr, true, List, [], ◌∷◌,
  Text, arith, int_Eq, text_eq, text_Eq, ◌==◌, text_eq_iff, sym, ◌∙◌, Bool-cases,
}
use otel_policy_lab.Policy.{
  LogsAssertions, TracesAssertions, MetricsAssertions, is_nonempty, logs_has_checks,
  traces_has_checks, metrics_has_checks, Policy, canonical_preserve, squeezed_preserve, squeeze,
  normalize_preserve_expression, has_assertions,
}

-- An expression is normalised to the canonical predicate exactly if it is that predicate once
-- its spaces are dropped and its single quotes are made double.
pub normalize_iff :
    (expr : Text)
    → (normalize_preserve_expression expr ≡ canonical_preserve) ↔ (squeeze expr ≡ squeezed_preserve)
unfolding normalize_preserve_expression squeeze
normalize_iff expr = elim (Bool-cases (squeeze expr == squeezed_preserve)) [
  | inl h ↦ rw h (λ _. (text_eq_iff _ _).0 h, λ _. refl)
  | inr h ↦ rw h (λ e. rw e, λ e. absurd (false≢true (sym h ∙ (text_eq_iff _ _).1 e)))
]

-- Normalising an expression twice is normalising it once.
pub normalize_idem :
    (expr : Text)
    → normalize_preserve_expression (normalize_preserve_expression expr)
      ≡ normalize_preserve_expression expr
unfolding normalize_preserve_expression squeeze text_eq
normalize_idem expr = elim (Bool-cases (squeeze expr == squeezed_preserve)) [
  | inl h ↦ rw h
  | inr h ↦ rw (h, h)
]

-- The expression without its spaces, with double quotes for single ones.
abbrev pub quoted : ℕ → ℕ
quoted c = if nat_eq c b'\'' then b'"' else c

abbrev pub is_no_space : ℕ → Bool
is_no_space c = not (nat_eq c b' ')

abbrev pub IsSupported : Text → Type 0
IsSupported expr = map quoted (keep is_no_space expr) ≡ codes "status.code==\"ERROR\""

squeeze-eq : (expr : Text) → squeeze expr ≡ map quoted (keep is_no_space expr)
unfolding squeeze replace_byte keep
squeeze-eq [] = refl
squeeze-eq (c ∷ expr) = elim (Bool-cases (nat_eq c b' ')) [
  | inl e ↦ rw e (squeeze-eq expr)
  | inr e ↦ elim (Bool-cases (nat_eq c b'\'')) [
    | inl q ↦ rw (e, q) (ap (λ s. b'"' ∷ s) (squeeze-eq expr))
    | inr q ↦ rw (e, q) (ap (λ s. c ∷ s) (squeeze-eq expr))
  ]
]

pub normalize-IsSupported :
    (expr : Text) → (normalize_preserve_expression expr ≡ canonical_preserve) ↔ IsSupported expr
normalize-IsSupported expr =
    let (there, back) = normalize_iff expr in
    (λ h. sym (squeeze-eq expr) ∙ there h, λ h. back (squeeze-eq expr ∙ h))

-- A section that checks nothing.
abbrev pub IsIdleLogs : Option LogsAssertions → Type 0
IsIdleLogs none = Unit {0}
IsIdleLogs (some l) =
    (l.forbidden_attributes ≡ [])
    × ((l.forbidden_value_patterns ≡ [])
        × ((l.forbidden_body_patterns ≡ []) × (l.required_resource_attributes ≡ [])))

abbrev pub IsIdleTraces : Option TracesAssertions → Type 0
IsIdleTraces none = Unit {0}
IsIdleTraces (some t) =
    (t.preserve ≡ [])
    × ((t.forbidden_attributes ≡ [])
        × ((t.forbidden_value_patterns ≡ []) × (t.required_resource_attributes ≡ [])))

abbrev pub IsIdleMetrics : Option MetricsAssertions → Type 0
IsIdleMetrics none = Unit {0}
IsIdleMetrics (some m) =
    (m.forbidden_labels ≡ [])
    × ((m.forbidden_label_value_patterns ≡ [])
        × (((n : ℕ) → ¬ (m.max_series_per_metric ≡ pos (suc n)))
            × (m.required_resource_attributes ≡ [])))

-- A policy of which no section forbids, requires, preserves or limits anything.
pub record IsIdle (p : Policy) : Type 0 where
  pub logs : IsIdleLogs p.assertions.logs
  pub traces : IsIdleTraces p.assertions.traces
  pub metrics : IsIdleMetrics p.assertions.metrics

is_nonempty-false_iff : (xs : List Text) → (is_nonempty xs ≡ false) ↔ (xs ≡ [])
is_nonempty-false_iff [] = (λ _. refl, λ _. refl)
is_nonempty-false_iff (x ∷ xs) = (λ h. cc, λ h. cc)

is_positive-false_iff : (i : ℤ) → (is_positive i ≡ false) ↔ ((n : ℕ) → ¬ (i ≡ pos (suc n)))
is_positive-false_iff (pos zero) = (λ _ n e. cc, λ _. refl)
is_positive-false_iff (pos (suc k)) = (
  λ h n e.
      let positive : is_positive (pos (suc k)) ≡ true = ground arith in
      false≢true (sym h ∙ positive),
  λ h. absurd (h k refl),
)
is_positive-false_iff (negsuc k) = (λ _ n e. cc, λ _. refl)

logs_has_checks-false_iff : (l : Option LogsAssertions) → (logs_has_checks l ≡ false) ↔ IsIdleLogs l
unfolding logs_has_checks
logs_has_checks-false_iff none = (λ _. tt, λ _. refl)
logs_has_checks-false_iff (some l) = ground (
  arith,
  is_nonempty-false_iff l.forbidden_attributes,
  is_nonempty-false_iff l.forbidden_value_patterns,
  is_nonempty-false_iff l.forbidden_body_patterns,
  is_nonempty-false_iff l.required_resource_attributes,
)

traces_has_checks-false_iff :
    (t : Option TracesAssertions) → (traces_has_checks t ≡ false) ↔ IsIdleTraces t
unfolding traces_has_checks
traces_has_checks-false_iff none = (λ _. tt, λ _. refl)
traces_has_checks-false_iff (some t) = ground (
  arith,
  is_nonempty-false_iff t.preserve,
  is_nonempty-false_iff t.forbidden_attributes,
  is_nonempty-false_iff t.forbidden_value_patterns,
  is_nonempty-false_iff t.required_resource_attributes,
)

metrics_has_checks-false_iff :
    (m : Option MetricsAssertions) → (metrics_has_checks m ≡ false) ↔ IsIdleMetrics m
unfolding metrics_has_checks
metrics_has_checks-false_iff none = (λ _. tt, λ _. refl)
metrics_has_checks-false_iff (some m) =
    let labels = is_nonempty-false_iff m.forbidden_labels in
    let patterns = is_nonempty-false_iff m.forbidden_label_value_patterns in
    let limit = is_positive-false_iff m.max_series_per_metric in
    let required = is_nonempty-false_iff m.required_resource_attributes in
    (
      λ h. (
        labels.0 (ground arith),
        (patterns.0 (ground arith), (limit.0 (ground arith), required.0 (ground arith))),
      ),
      λ h.
          let a = labels.1 h.0 in
          let b = patterns.1 h.1.0 in
          let c = limit.1 h.1.1.0 in let d = required.1 h.1.1.1 in rw (a, b, c, d) refl,
    )

pub has_assertions-false_iff : (p : Policy) → (has_assertions p ≡ false) ↔ IsIdle p
unfolding has_assertions
has_assertions-false_iff p =
    let l = logs_has_checks-false_iff p.assertions.logs in
    let t = traces_has_checks-false_iff p.assertions.traces in
    let m = metrics_has_checks-false_iff p.assertions.metrics in
    (
      λ h. record {
        logs = l.0 (ground arith);
        traces = t.0 (ground arith);
        metrics = m.0 (ground arith);
      },
      λ i. rw (l.1 i.logs, t.1 i.traces, m.1 i.metrics) refl,
    )

pub has_assertions_iff : (p : Policy) → (has_assertions p ≡ true) ↔ ¬ (IsIdle p)
has_assertions_iff p = elim (Bool-cases (has_assertions p)) [
  | inl e ↦ (λ _ i. false≢true (sym ((has_assertions-false_iff p).1 i) ∙ e), λ _. e)
  | inr e ↦ (λ h. cc, λ n. absurd (n ((has_assertions-false_iff p).0 e)))
]
