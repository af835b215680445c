-- ===== src/Evaluator/Run/Reliable.antt =====
-- What weighing the evidence may and may not do to a result.
use mathlib.Core.Path.{subst}
use otel_policy_lab.Prelude.{
  ℕ, ◌<◌, ◌≡◌, ◌≢◌, refl, sym, ap, ap₂, ◌∙◌, ◌⊎◌, inl, inr, List, [], ◌∷◌, ◌++◌, map, true, false,
  not, ◌&&◌, Text, codes, text_Eq, text_eq_iff, nat_Eq, lookup, length, join, All, In, All-append,
  All-map, All-intro, In-append_left, In-map, ◌==◌, arith, Bool-cases,
}
use otel_policy_lab.Telemetry.{Json, Set}
use otel_policy_lab.Policy.{Policy}
use otel_policy_lab.Report.Check.{
  signal_Eq, check_Eq, same_check_iff, forbidden_data, forbidden_labels, preserve_error_traces,
  max_series_per_metric, CheckResult, status_pass, status_fail, status_inconclusive, status_Eq,
}
use otel_policy_lab.Library.{Library}
use otel_policy_lab.Evaluator.Preserve.{error_spans}
use otel_policy_lab.Evaluator.Run.{
  Options, default_options, conclusive_failure, conclusive_observation, scoped_reasons, reason_for,
  weigh, warning_result, policy_results, evaluate_with_options, evaluate,
}

-- A check whose failure is an observation: something forbidden was seen in the output.
abbrev pub IsViolation : CheckResult → Type 0
IsViolation r =
    (r.status ≡ status_fail)
    × ((r.check ≡ forbidden_data)
        ⊎ ((r.check ≡ forbidden_labels) ⊎ (r.check ≡ max_series_per_metric)))

join-ne-nil : (sep : Text) (c : ℕ) (s : Text) (rest : List Text) → join sep ((c ∷ s) ∷ rest) ≢ []
unfolding join
join-ne-nil sep c s [] h = cc
join-ne-nil sep c s (t ∷ rest) h = cc

module _ (lib : Library) where
  violation_conclusive :
      (r : CheckResult) (input : Set) → IsViolation r → conclusive_observation lib r input ≡ true
  unfolding conclusive_observation conclusive_failure
  violation_conclusive r input (f, inl c) = rw (f, c)
  violation_conclusive r input (f, inr (inl c)) = rw (f, c)
  violation_conclusive r input (f, inr (inr c)) = rw (f, c)

  weigh_violation :
      (options : Options) (input : Set) (r : CheckResult)
      → IsViolation r
      → weigh lib options input r ≡ r
  unfolding weigh
  weigh_violation options input r v = ground (arith, violation_conclusive r input v)

  -- Weighing a result against the evidence leaves it unchanged or makes it inconclusive, and
  -- keeps its signal and its check.
  pub weigh_cases :
      (options : Options) (input : Set) (r : CheckResult)
      → ((weigh lib options input r ≡ r)
          ⊎ ((weigh lib options input r).status ≡ status_inconclusive))
        × ((weigh lib options input r).signal ≡ r.signal)
        × ((weigh lib options input r).check ≡ r.check)
  unfolding weigh
  weigh_cases options input r =
      elim (Bool-cases
        (not (reason_for lib options input r == []) && not (conclusive_observation lib r input))) [
          | inl e ↦ rw e (inr refl, refl, refl)
          | inr e ↦ rw e (inl refl, refl, refl)
        ]

  conclusive_pass :
      (r : CheckResult) (input : Set)
      → r.status ≡ status_pass
      → conclusive_observation lib r input ≡ true
      → (r.check ≡ preserve_error_traces) × (0 < length (error_spans lib input))
  unfolding conclusive_observation
  conclusive_pass r input p c = ground (arith, same_check_iff r.check preserve_error_traces)

  weigh_pass :
      (options : Options) (input : Set) (r : CheckResult)
      → reason_for lib options input r ≢ []
      → (weigh lib options input r).status ≡ status_pass
      → ((weigh lib options input r).check ≡ preserve_error_traces)
        × (0 < length (error_spans lib input))
  unfolding weigh
  weigh_pass options input r doubt p = elim (Bool-cases (conclusive_observation lib r input)) [
    | inl c ↦
        (let same : weigh lib options input r ≡ r = rw c (ground arith) in
          let q : r.status ≡ status_pass = ap (λ x. x.status) (sym same) ∙ p in
          let (a, b) = conclusive_pass r input q c in (ap (λ x. x.check) same ∙ a, b))
    | inr c ↦ absurd (
        let hit : (reason_for lib options input r == []) ≡ false =
          ground (arith, text_eq_iff (reason_for lib options input r) []) in
        ground (arith, hit, c))
  ]

  -- Results of the default options are those of the policy, followed by the warnings.
  reason_for-default : (input : Set) (r : CheckResult) → reason_for lib default_options input r ≡ []
  unfolding reason_for scoped_reasons lookup
  reason_for-default input r = refl

  weigh-default : (input : Set) (r : CheckResult) → weigh lib default_options input r ≡ r
  unfolding weigh
  weigh-default input r = rw (reason_for-default input r) (rw ((text_eq_iff [] []).1 refl))

  map-weigh-default :
      (input : Set) (rs : List CheckResult) → map (weigh lib default_options input) rs ≡ rs
  map-weigh-default input [] = refl
  map-weigh-default input (r ∷ rs) = ap₂ ◌∷◌ (weigh-default input r) (map-weigh-default input rs)

  -- With the default options the results are those of the policy, unchanged, followed by one
  -- warning for each warning of the runner.
  pub evaluate-eq :
      (json : Json) (p : Policy) (input output : Set) (warnings : List Text)
      → evaluate lib json p input output warnings
        ≡ policy_results lib json p input output warnings ++ map (warning_result lib) warnings
  unfolding evaluate evaluate_with_options
  evaluate-eq json p input output warnings =
      ap (λ rs. rs ++ map (warning_result lib) warnings)
        (map-weigh-default input (policy_results lib json p input output warnings))

  -- A failed result of a search for forbidden data or labels or of the series limit is reported
  -- unchanged under all options.
  pub evaluate_with_options-violation :
      (json : Json) (p : Policy) (input output : Set) (warnings : List Text) (options : Options)
      (r : CheckResult)
      → In r (policy_results lib json p input output warnings)
      → IsViolation r
      → In r (evaluate_with_options lib json p input output warnings options)
  unfolding evaluate_with_options
  evaluate_with_options-violation json p input output warnings options r m v =
      In-append_left r _ _ (
        subst
          (λ x.
            In x (map (weigh lib options input) (policy_results lib json p input output warnings)))
          (weigh_violation options input r v)
          (In-map (weigh lib options input) r (policy_results lib json p input output warnings) m))

  general_reason :
      (options : Options) (input : Set) (r : CheckResult) (c : ℕ) (reason : Text) (more : List Text)
      → options.unreliable_output_reasons ≡ (c ∷ reason) ∷ more
      → options.unreliable_signals ≡ []
      → reason_for lib options input r ≢ []
  unfolding reason_for scoped_reasons lookup
  general_reason options input r c reason more h k =
      rw (k, h) (join-ne-nil (codes "; ") c reason more)

  -- If the first reason for an unreliable output is not the empty text and no signal has reasons
  -- of its own, then every result that passes is the preservation of error traces, and the input
  -- has an error span.
  pub evaluate_with_options_closed :
      (json : Json) (p : Policy) (input output : Set) (warnings : List Text) (options : Options)
      (c : ℕ) (reason : Text) (more : List Text)
      → options.unreliable_output_reasons ≡ (c ∷ reason) ∷ more
      → options.unreliable_signals ≡ []
      → All
          (λ r.
            r.status ≡ status_pass
            → (r.check ≡ preserve_error_traces) × (0 < length (error_spans lib input)))
          (evaluate_with_options lib json p input output warnings options)
  unfolding evaluate_with_options
  evaluate_with_options_closed json p input output warnings options c reason more h k =
      (All-append _ _ _).1 (
        (All-map _ (weigh lib options input) _).1 (
            All-intro _ _ (λ r m q.
              weigh_pass options input r (general_reason options input r c reason more h k) q)),
        (All-map _ (warning_result lib) warnings).1
            (All-intro _ _ (λ w m q. unfold warning_result in cc)),
      )
