-- ===== src/Verdict.antt =====
-- What the verdict of a fixture run means: internal/evaluator and internal/report together, as
-- internal/cli/cli.go composes them.
pub mod Exit
pub mod Tests
use mathlib.Core.Bool.{false≢true}
use mathlib.Core.Path.{subst}
use otel_policy_lab.Prelude.{
  ℕ, ◌≡◌, ◌≢◌, refl, sym, ap, ◌∙◌, ◌↔◌, List, [], ◌∷◌, ◌++◌, map, Bool, true, false, ◌&&◌, Option,
  none, some, Text, All, All-append, All-map, any, iff_trans, ×-iff, if◌then◌else◌, arith, ◌==◌,
  Result, ok, err, Bool-cases, inl, inr,
}
use otel_policy_lab.Telemetry.{Json, Set}
use otel_policy_lab.Policy.{LogsAssertions, TracesAssertions, MetricsAssertions, Policy}
use otel_policy_lab.Library.{Library}
use otel_policy_lab.Report.Check.{
  CheckResult, Status, status_pass, status_fail, status_warn, status_inconclusive, status_error,
  same_status, same_status_iff, status_Eq,
}
use otel_policy_lab.Report.{
  Report, FileMetadata, RunnerMetadata, SummaryStatistics, build, exit_code,
}
use otel_policy_lab.Report.Outcome.{has, exit_code-build}
use otel_policy_lab.Evaluator.Matches.Find.{PatternError, compile_patterns}
use otel_policy_lab.Evaluator.Signals.{eval_logs, eval_traces, eval_metrics}
use otel_policy_lab.Evaluator.Signals.Verdict.{
  AllPass, LogsSatisfy, TracesSatisfy, MetricsSatisfy, eval_logs_iff, eval_traces_iff,
  eval_metrics_iff,
}
use otel_policy_lab.Evaluator.Run.{Options, policy_results, warning_result, evaluate}
use otel_policy_lab.Evaluator.Run.Reliable.{evaluate-eq}

module _ (lib : Library) where
  -- All patterns of the policy compile, to the expressions that are given.
  pub record HasPatterns (p : Policy) : Type 0 where
    pub log_values : List lib.Regexp
    pub log_bodies : List lib.Regexp
    pub span_values : List lib.Regexp
    pub label_values : List lib.Regexp
    pub log_values_compile :
        (a : LogsAssertions)
        → p.assertions.logs ≡ some a
        → compile_patterns lib a.forbidden_value_patterns a.case_insensitive ≡ ok log_values
    pub log_bodies_compile :
        (a : LogsAssertions)
        → p.assertions.logs ≡ some a
        → compile_patterns lib a.forbidden_body_patterns a.case_insensitive ≡ ok log_bodies
    pub span_values_compile :
        (a : TracesAssertions)
        → p.assertions.traces ≡ some a
        → compile_patterns lib a.forbidden_value_patterns a.case_insensitive ≡ ok span_values
    pub label_values_compile :
        (a : MetricsAssertions)
        → p.assertions.metrics ≡ some a
        → compile_patterns lib a.forbidden_label_value_patterns a.case_insensitive ≡ ok label_values

  -- The output satisfies every section that the policy has.
  pub record Satisfies (json : Json) (p : Policy) (c : HasPatterns p) (input output : Set)
      : Type 0 where
    pub logs :
        (a : LogsAssertions)
        → p.assertions.logs ≡ some a
        → LogsSatisfy lib a c.log_values c.log_bodies output.logs
    pub traces :
        (a : TracesAssertions)
        → p.assertions.traces ≡ some a
        → TracesSatisfy lib a c.span_values input output
    pub metrics :
        (a : MetricsAssertions)
        → p.assertions.metrics ≡ some a
        → MetricsSatisfy lib json a c.label_values output.metrics

-- The results of a section that may be absent.
AllPass-option :
    {A : Type 0} (o : Option A) (f : A → List CheckResult)
    → AllPass (let rs : List CheckResult = elim o [ none ↦ [] | some a ↦ f a ] in rs)
      ↔ ((a : A) → o ≡ some a → AllPass (f a))
AllPass-option none f = (λ _ a e. cc, λ _. tt)
AllPass-option (some b) f =
    (λ h a e. let q : b ≡ a = cc in subst (λ x. AllPass (f x)) q h, λ h. h b refl)

section_iff :
    {A : Type 0} {o : Option A} {P Q : A → Type 0}
    → ((a : A) → o ≡ some a → P a ↔ Q a)
    → ((a : A) → o ≡ some a → P a) ↔ ((a : A) → o ≡ some a → Q a)
section_iff h = (λ f a e. (h a e).0 (f a e), λ f a e. (h a e).1 (f a e))

module _ (lib : Library) (json : Json) (p : Policy) (c : HasPatterns lib p) where
  -- If all patterns of the policy compile, the checks of the policy all pass exactly if the
  -- output satisfies every section that the policy has, which is stated on the records of the
  -- telemetry alone.
  pub policy_results_iff :
      (input output : Set) (warnings : List Text)
      → AllPass (policy_results lib json p input output warnings)
        ↔ Satisfies lib json p c input output
  unfolding policy_results
  policy_results_iff input output warnings =
      let of_logs = iff_trans (AllPass-option p.assertions.logs (λ a. eval_logs lib a output)) (
        section_iff (λ a e.
          eval_logs_iff lib a output c.log_values c.log_bodies (c.log_values_compile a e)
            (c.log_bodies_compile a e))) in
      let of_traces =
        iff_trans
          (AllPass-option p.assertions.traces (λ a. eval_traces lib a input output warnings))
          (section_iff (λ a e.
            eval_traces_iff lib a input output warnings c.span_values
              (c.span_values_compile a e))) in
      let of_metrics =
        iff_trans (AllPass-option p.assertions.metrics (λ a. eval_metrics lib json a output)) (
          section_iff (λ a e.
            eval_metrics_iff lib json a output c.label_values (c.label_values_compile a e))) in
      iff_trans
        (iff_trans (All-append _ _ _)
          (×-iff of_logs (iff_trans (All-append _ _ _) (×-iff of_traces of_metrics))))
        (
          λ h. record { logs = h.0; traces = h.1.0; metrics = h.1.1 },
          λ s. (s.logs, (s.traces, s.metrics)),
        )
