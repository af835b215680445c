-- ===== src/Verdict/Tests.antt =====
-- The meaning of the verdict and of the exit code, on the sample policy and fixture.
use mathlib.Core.Path.{subst}
use otel_policy_lab.Prelude.{
  ◌≡◌, ◌↔◌, List, [], ◌∷◌, Bool, true, false, ◌&&◌, Text, codes, ok, some,
}
use otel_policy_lab.Policy.{is_nonempty, LogsAssertions, TracesAssertions, MetricsAssertions}
use otel_policy_lab.Samples.{
  literals, plain, shop, shop_output, rules, secret, token, secret_compiles, token_compiles, runner,
  a_file, no_summary,
}
use otel_policy_lab.Report.{build, exit_code}
use otel_policy_lab.Evaluator.Matches.Find.{compile_patterns}
use otel_policy_lab.Evaluator.Signals.Verdict.{AllPass}
use otel_policy_lab.Evaluator.Run.{policy_results, evaluate}
use otel_policy_lab.Verdict.{HasPatterns, Satisfies, policy_results_iff}
use otel_policy_lab.Verdict.Exit.{exit_code-evaluate}

-- The patterns of the section that an option holds.
compile_patterns-some :
    {A : Type 0} {x y : A} {v : List Text} (f : A → List Text) (g : A → Bool)
    → some x ≡ some y
    → compile_patterns literals (f x) (g x) ≡ ok v
    → compile_patterns literals (f y) (g y) ≡ ok v
compile_patterns-some {x = x} {y = y} {v = v} f g e h =
    let q : x ≡ y = cc in subst (λ a. compile_patterns literals (f a) (g a) ≡ ok v) q h

pub rules-HasPatterns : HasPatterns literals rules
rules-HasPatterns = record {
  log_values = secret;
  log_bodies = token;
  span_values = secret;
  label_values = secret;
  log_values_compile = λ a e.
      compile_patterns-some (λ (x : LogsAssertions). x.forbidden_value_patterns)
        (λ x. x.case_insensitive) e secret_compiles;
  log_bodies_compile = λ a e.
      compile_patterns-some (λ (x : LogsAssertions). x.forbidden_body_patterns)
        (λ x. x.case_insensitive) e token_compiles;
  span_values_compile = λ a e.
      compile_patterns-some (λ (x : TracesAssertions). x.forbidden_value_patterns)
        (λ x. x.case_insensitive) e secret_compiles;
  label_values_compile = λ a e.
      compile_patterns-some (λ (x : MetricsAssertions). x.forbidden_label_value_patterns)
        (λ x. x.case_insensitive) e secret_compiles;
}

policy_results_iff_example :
    AllPass (policy_results literals plain rules shop shop_output [])
    ↔ Satisfies literals plain rules rules-HasPatterns shop shop_output
policy_results_iff_example =
    policy_results_iff literals plain rules rules-HasPatterns shop shop_output []

exit_code-evaluate_example :
    (exit_code
        (build
          (evaluate literals plain rules shop shop_output (codes "slow" ∷ []))
          runner
          a_file
          a_file
          a_file
          no_summary
          (codes "12:00"))
        true
      ≡ 0)
    ↔ (Satisfies literals plain rules rules-HasPatterns shop shop_output
        × ((true && is_nonempty (codes "slow" ∷ [])) ≡ false))
exit_code-evaluate_example =
    exit_code-evaluate literals plain rules rules-HasPatterns shop shop_output (codes "slow" ∷ [])
      runner a_file a_file a_file no_summary (codes "12:00") true
