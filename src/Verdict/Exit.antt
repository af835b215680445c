-- ===== src/Verdict/Exit.antt =====
-- The exit code of a run, from the telemetry to the code: internal/evaluator/evaluator.go,
-- internal/report/report.go.
use otel_policy_lab.Prelude.{
  ◌≡◌, refl, ap, ◌∙◌, ◌↔◌, inl, inr, List, [], ◌∷◌, ◌++◌, map, Bool, false, ◌&&◌, ◌||◌, Option,
  none, some, Text, All-append, any, iff_trans, ×-iff, arith, ◌==◌, Bool-cases,
}
use otel_policy_lab.Telemetry.{Json, Set}
use otel_policy_lab.Policy.{Policy, is_nonempty}
use otel_policy_lab.Library.{Library}
use otel_policy_lab.Report.Check.{
  CheckResult, Status, status_pass, status_fail, status_warn, status_inconclusive, status_error,
  status_Eq,
}
use otel_policy_lab.Report.{FileMetadata, RunnerMetadata, SummaryStatistics, build, exit_code}
use otel_policy_lab.Report.Outcome.{has, exit_code-build}
use otel_policy_lab.Evaluator.Signals.{eval_logs, eval_traces, eval_metrics}
use otel_policy_lab.Evaluator.Signals.Verdict.{AllPass}
use otel_policy_lab.Evaluator.Signals.Statuses.{
  IsVerdict, AllVerdicts, eval_logs-AllVerdicts, eval_traces-AllVerdicts, eval_metrics-AllVerdicts,
}
use otel_policy_lab.Evaluator.Run.{policy_results, warning_result, evaluate}
use otel_policy_lab.Evaluator.Run.Reliable.{evaluate-eq}
use otel_policy_lab.Verdict.{HasPatterns, Satisfies, policy_results_iff}

option_verdicts :
    {A : Type 0} (o : Option A) (f : A → List CheckResult)
    → ((a : A) → AllVerdicts (f a))
    → AllVerdicts (let rs : List CheckResult = elim o [ none ↦ [] | some a ↦ f a ] in rs)
option_verdicts none f h = tt
option_verdicts (some a) f h = h a

any-append :
    {A : Type 0} (f : A → Bool) (xs ys : List A) → any f (xs ++ ys) ≡ (any f xs || any f ys)
unfolding any
any-append f [] ys = refl
any-append f (x ∷ xs) ys = ground (arith, any-append f xs ys)

-- No verdict is an error, inconclusive or a warning.
no_other :
    (s : Status) (rs : List CheckResult)
    → AllVerdicts rs
    → (status_pass == s) ≡ false
    → (status_fail == s) ≡ false
    → has s rs ≡ false
unfolding any
no_other s [] h p f = refl
no_other s (r ∷ rs) (inl e, h) p f = rw e (rw p (no_other s rs h p f))
no_other s (r ∷ rs) (inr e, h) p f = rw e (rw f (no_other s rs h p f))

no_failure_iff :
    (rs : List CheckResult) → AllVerdicts rs → (has status_fail rs ≡ false) ↔ AllPass rs
unfolding any
no_failure_iff [] h = (λ _. tt, λ _. refl)
no_failure_iff (r ∷ rs) (inl e, h) =
    let ih = no_failure_iff rs h in rw e (λ q. (refl, ih.0 q), λ q. ih.1 q.1)
no_failure_iff (r ∷ rs) (inr e, h) = rw e (λ q. cc, λ q. cc)

module _ (lib : Library) where
  policy_results-AllVerdicts :
      (json : Json) (p : Policy) (input output : Set) (warnings : List Text)
      → AllVerdicts (policy_results lib json p input output warnings)
  unfolding policy_results
  policy_results-AllVerdicts json p input output warnings = (All-append IsVerdict _ _).1 (
    option_verdicts p.assertions.logs (λ a. eval_logs lib a output)
        (λ a. eval_logs-AllVerdicts lib a output),
    (All-append IsVerdict _ _).1 (
      option_verdicts p.assertions.traces (λ a. eval_traces lib a input output warnings)
          (λ a. eval_traces-AllVerdicts lib a input output warnings),
      option_verdicts p.assertions.metrics (λ a. eval_metrics lib json a output)
          (λ a. eval_metrics-AllVerdicts lib json a output),
    ),
  )

  has-warnings :
      (s : Status) (ws : List Text)
      → has s (map (warning_result lib) ws) ≡ (is_nonempty ws && (status_warn == s))
  unfolding any warning_result
  has-warnings s [] = refl
  has-warnings s (w ∷ ws) =
      ground (arith, has-warnings s ws, Bool-cases (is_nonempty ws), Bool-cases (status_warn == s))

  -- The flags of a report on verdicts and warnings.
  has-verdicts :
      (s : Status) (rs : List CheckResult) (ws : List Text)
      → has s (rs ++ map (warning_result lib) ws)
        ≡ (has s rs || (is_nonempty ws && (status_warn == s)))
  has-verdicts s rs ws =
      any-append (λ (c : CheckResult). c.status == s) rs (map (warning_result lib) ws)
      ∙ ap (λ b. has s rs || b) (has-warnings s ws)

  exit_code-verdicts :
      (rs : List CheckResult) (ws : List Text) (runner : RunnerMetadata)
      (input_file policy_file collector_file : FileMetadata) (summary : SummaryStatistics)
      (now : Text) (fail_on_warn : Bool)
      → AllVerdicts rs
      → (exit_code
            (build
              (rs ++ map (warning_result lib) ws)
              runner
              input_file
              policy_file
              collector_file
              summary
              now)
            fail_on_warn
          ≡ 0)
        ↔ (AllPass rs × ((fail_on_warn && is_nonempty ws) ≡ false))
  exit_code-verdicts rs ws runner input_file policy_file collector_file summary now fail_on_warn h =
      let code =
        exit_code-build (rs ++ map (warning_result lib) ws) runner input_file policy_file
          collector_file summary now fail_on_warn in
      let passing = no_failure_iff rs h in
      ground (
        arith,
        code,
        has-verdicts status_error rs ws,
        has-verdicts status_fail rs ws,
        has-verdicts status_warn rs ws,
        has-verdicts status_inconclusive rs ws,
        no_other status_error rs h refl refl,
        no_other status_warn rs h refl refl,
        no_other status_inconclusive rs h refl refl,
        passing,
      )

module _ (lib : Library) (json : Json) (p : Policy) (c : HasPatterns lib p) where
  -- If all patterns of the policy compile, the exit code of the report that is built from an
  -- evaluation with the default options is 0 exactly if the output satisfies every section of
  -- the policy and it is not the case that warnings are to fail the run and there is a warning.
  pub exit_code-evaluate :
      (input output : Set) (warnings : List Text) (runner : RunnerMetadata)
      (input_file policy_file collector_file : FileMetadata) (summary : SummaryStatistics)
      (now : Text) (fail_on_warn : Bool)
      → (exit_code
            (build
              (evaluate lib json p input output warnings)
              runner
              input_file
              policy_file
              collector_file
              summary
              now)
            fail_on_warn
          ≡ 0)
        ↔ (Satisfies lib json p c input output × ((fail_on_warn && is_nonempty warnings) ≡ false))
  exit_code-evaluate input output warnings runner input_file policy_file collector_file summary now
        fail_on_warn =
      rw (evaluate-eq lib json p input output warnings) (
        iff_trans
          (exit_code-verdicts lib (policy_results lib json p input output warnings) warnings runner
            input_file policy_file collector_file summary now fail_on_warn
            (policy_results-AllVerdicts lib json p input output warnings))
          (×-iff (policy_results_iff lib json p c input output warnings) (λ q. q, λ q. q)))
