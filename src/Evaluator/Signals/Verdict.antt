-- ===== src/Evaluator/Signals/Verdict.antt =====
-- When the checks of a signal pass, stated on the telemetry alone.
use mathlib.Core.Bool.{false≢true}
use otel_policy_lab.Prelude.{
  suc, ◌≤◌, ◌≡◌, refl, sym, ap, ◌∙◌, ◌↔◌, List, [], ◌∷◌, map, Bool, true, false, ◌||◌, Text, codes,
  text_Eq, text_eq_iff, length, All, All-append, All-map, iff_trans, ×-iff, when_iff, is_positive,
  magnitude, Result, ok, err, if◌then◌else◌, arith, Bool-cases, ◌==◌, inl, inr,
}
use otel_policy_lab.Telemetry.{Json, Set, Attributes, LogRecord, Span, Metric}
use otel_policy_lab.Policy.{
  LogsAssertions, TracesAssertions, MetricsAssertions, is_nonempty, canonical_preserve,
  normalize_preserve_expression,
}
use otel_policy_lab.Policy.Predicates.{IsSupported, normalize-IsSupported}
use otel_policy_lab.Report.Check.{
  Signal, Check, logs, traces, metrics, forbidden_data, forbidden_labels, ForbiddenMatch,
  CheckResult, status_pass,
}
use otel_policy_lab.Library.{Library}
use otel_policy_lab.Evaluator.Matches.Find.{PatternError, compile_patterns}
use otel_policy_lab.Evaluator.Matches.Clean.{
  IsCleanLog, IsCleanSpan, IsCleanMetric, find_forbidden_log_matches-nil,
  find_forbidden_span_matches-nil, find_forbidden_metric_matches-nil,
}
use otel_policy_lab.Evaluator.Required.{
  RequiredResourceCheck, check_required_resource_attributes, check_required_log_resource_attributes,
  check_required_span_resource_attributes, check_required_metric_resource_attributes,
  required_results,
}
use otel_policy_lab.Evaluator.Required.Sound.{HasAll, check_required_resource_attributes_iff}
use otel_policy_lab.Evaluator.Preserve.Sound.{has_error, eval_error_trace_preservation_iff}
use otel_policy_lab.Evaluator.Cardinality.Sound.{series_of, eval_max_series_iff}
use otel_policy_lab.Evaluator.Signals.{
  no_log_data, log_data, no_span_data, span_data, no_label_data, label_data, forbidden_result,
  eval_logs, eval_preserve, eval_traces, eval_metrics,
}

abbrev pub AllPass : List CheckResult → Type 0
AllPass = All (λ r. r.status ≡ status_pass)

-- The results under a test pass exactly if they pass where the test holds.
AllPass-if :
    (b : Bool) (rs : List CheckResult) → AllPass (if b then rs else []) ↔ (b ≡ true → AllPass rs)
AllPass-if true rs = (λ h _. h, λ h. h refl)
AllPass-if false rs = (λ _ e. cc, λ _. tt)

-- What a policy demands of the resources of some records.
abbrev pub HasRequired : {A : Type 0} → List Text → List A → (A → Type 0) → Type 0
HasRequired required records P = is_nonempty required ≡ true → (1 ≤ length records) × All P records

AllPass-required :
    (signal : Signal) (name : Text) (required : List Text) (check : RequiredResourceCheck)
    → AllPass (required_results signal name required check)
      ↔ (is_nonempty required ≡ true → check.failed ≡ false)
unfolding required_results
AllPass-required signal name [] check = (λ _ e. cc, λ _. tt)
AllPass-required signal name (req ∷ required) check = ground arith

length-map : {A B : Type 0} (f : A → B) (xs : List A) → length (map f xs) ≡ length xs
length-map f [] = refl
length-map f (x ∷ xs) = ap suc (length-map f xs)

module _ {A : Type 0} (resource : A → Attributes) where
  required_iff :
      (required : List Text) (records : List A)
      → ((check_required_resource_attributes required (map resource records)).failed ≡ false)
        ↔ ((1 ≤ length records) × All (λ r. HasAll required (resource r)) records)
  required_iff required records =
      iff_trans (check_required_resource_attributes_iff required (map resource records)) (
        ×-iff (rw (length-map resource records) (λ h. h, λ h. h))
          (All-map (HasAll required) resource records))

module _ (lib : Library) where
  status-forbidden_result :
      (signal : Signal) (check : Check) (s t : Text) (r : Result PatternError (List ForbiddenMatch))
      → AllPass (forbidden_result lib signal check s t r ∷ []) ↔ (r ≡ ok [])
  unfolding forbidden_result
  status-forbidden_result signal check s t (err e) = ground arith
  status-forbidden_result signal check s t (ok []) = ground arith
  status-forbidden_result signal check s t (ok (m ∷ ms)) = ground arith

  -- The demands of a logs section: no forbidden data in any log, and the required names on all.
  abbrev pub LogsSatisfy :
      LogsAssertions → List lib.Regexp → List lib.Regexp → List LogRecord → Type 0
  LogsSatisfy a vs bs records =
      ((is_nonempty a.forbidden_attributes
            || is_nonempty a.forbidden_value_patterns
            || is_nonempty a.forbidden_body_patterns)
          ≡ true
        → All (IsCleanLog lib a vs bs) records)
      × HasRequired a.required_resource_attributes records
          (λ l. HasAll a.required_resource_attributes l.resource_attributes)

  -- With value and body patterns that compile, the results for logs all pass exactly if every
  -- log is clean, where something is forbidden, and, where attributes are required, there is a
  -- log and every log has all of them on its resource.
  pub eval_logs_iff :
      (a : LogsAssertions) (output : Set) (vs bs : List lib.Regexp)
      → compile_patterns lib a.forbidden_value_patterns a.case_insensitive ≡ ok vs
      → compile_patterns lib a.forbidden_body_patterns a.case_insensitive ≡ ok bs
      → AllPass (eval_logs lib a output) ↔ LogsSatisfy a vs bs output.logs
  unfolding eval_logs
  eval_logs_iff a output vs bs h k = iff_trans (All-append _ _ _) (
      ×-iff
        (iff_trans (AllPass-if _ _) (
          when_iff (λ _.
            iff_trans (status-forbidden_result logs forbidden_data no_log_data log_data _)
              (find_forbidden_log_matches-nil lib output a vs bs h k))))
        (iff_trans
          (AllPass-required logs (codes "logs") a.required_resource_attributes
            (check_required_log_resource_attributes output a.required_resource_attributes))
          (when_iff (λ _.
            unfold check_required_log_resource_attributes in
            required_iff (λ (l : LogRecord). l.resource_attributes) a.required_resource_attributes
              output.logs))))

  -- The demands of a traces section. Every error span of the input has its key in the output, if
  -- some expression asks for it.
  abbrev pub TracesSatisfy : TracesAssertions → List lib.Regexp → Set → Set → Type 0
  TracesSatisfy a vs input output =
      All
        (λ expr.
          IsSupported expr
          → (k : Text) → has_error lib k input.spans ≡ true
          → has_error lib k output.spans ≡ true)
        a.preserve
      × (((is_nonempty a.forbidden_attributes || is_nonempty a.forbidden_value_patterns) ≡ true
            → All (IsCleanSpan lib a vs) output.spans)
          × HasRequired a.required_resource_attributes output.spans
              (λ s. HasAll a.required_resource_attributes s.resource_attributes))

  eval_preserve_iff :
      (exprs : List Text) (input output : Set) (warnings : List Text)
      → AllPass (eval_preserve lib exprs input output warnings)
        ↔ All
            (λ expr.
              IsSupported expr
              → (k : Text) → has_error lib k input.spans ≡ true
              → has_error lib k output.spans ≡ true)
            exprs
  unfolding eval_preserve
  eval_preserve_iff [] input output warnings = (λ h. h, λ h. h)
  eval_preserve_iff (expr ∷ exprs) input output warnings =
      let ih = eval_preserve_iff exprs input output warnings in
      let verdict = eval_error_trace_preservation_iff lib input output warnings in
      let same =
        iff_trans (text_eq_iff (normalize_preserve_expression expr) canonical_preserve)
          (normalize-IsSupported expr) in
      elim (Bool-cases (normalize_preserve_expression expr == canonical_preserve)) [
        | inl e ↦
            rw e (λ h. (λ _. verdict.0 h.0, ih.0 h.1), λ h. (verdict.1 (h.0 (same.0 e)), ih.1 h.1))
        | inr e ↦ rw e (λ h. (λ q. absurd (false≢true (sym e ∙ same.1 q)), ih.0 h), λ h. ih.1 h.1)
      ]

  -- With value patterns that compile, the results for traces all pass exactly if every key of an
  -- error span of the input is that of an error span of the output, where a supported expression
  -- asks for it, every span is clean, where something is forbidden, and, where attributes are
  -- required, there is a span and every span has all of them on its resource.
  pub eval_traces_iff :
      (a : TracesAssertions) (input output : Set) (warnings : List Text) (vs : List lib.Regexp)
      → compile_patterns lib a.forbidden_value_patterns a.case_insensitive ≡ ok vs
      → AllPass (eval_traces lib a input output warnings) ↔ TracesSatisfy a vs input output
  unfolding eval_traces
  eval_traces_iff a input output warnings vs h = iff_trans (All-append _ _ _) (
      ×-iff (eval_preserve_iff a.preserve input output warnings) (
        iff_trans (All-append _ _ _) (
          ×-iff
            (iff_trans (AllPass-if _ _) (
              when_iff (λ _.
                iff_trans (status-forbidden_result traces forbidden_data no_span_data span_data _)
                  (find_forbidden_span_matches-nil lib output a vs h))))
            (iff_trans
              (AllPass-required traces (codes "traces") a.required_resource_attributes
                (check_required_span_resource_attributes output a.required_resource_attributes))
              (when_iff (λ _.
                unfold check_required_span_resource_attributes in
                required_iff (λ (s : Span). s.resource_attributes) a.required_resource_attributes
                  output.spans))))))

  -- The demands of a metrics section.
  abbrev pub MetricsSatisfy : Json → MetricsAssertions → List lib.Regexp → List Metric → Type 0
  MetricsSatisfy json a vs records =
      ((is_nonempty a.forbidden_labels || is_nonempty a.forbidden_label_value_patterns) ≡ true
        → All (IsCleanMetric lib a vs) records)
      × ((is_positive a.max_series_per_metric ≡ true
            → All
                (λ m. length (series_of json [] m.name records) ≤ magnitude a.max_series_per_metric)
                records)
          × HasRequired a.required_resource_attributes records
              (λ m. HasAll a.required_resource_attributes m.resource_attributes))

  -- With label value patterns that compile, the results for metrics all pass exactly if every
  -- metric is clean, where something is forbidden, every metric's name has at most as many
  -- series as the limit, where the limit is positive, and, where attributes are required, there
  -- is a metric and every metric has all of them on its resource.
  pub eval_metrics_iff :
      (json : Json) (a : MetricsAssertions) (output : Set) (vs : List lib.Regexp)
      → compile_patterns lib a.forbidden_label_value_patterns a.case_insensitive ≡ ok vs
      → AllPass (eval_metrics lib json a output) ↔ MetricsSatisfy json a vs output.metrics
  unfolding eval_metrics
  eval_metrics_iff json a output vs h = iff_trans (All-append _ _ _) (
      ×-iff
        (iff_trans (AllPass-if _ _) (
          when_iff (λ _.
            iff_trans (status-forbidden_result metrics forbidden_labels no_label_data label_data _)
              (find_forbidden_metric_matches-nil lib output a vs h))))
        (iff_trans (All-append _ _ _) (
          ×-iff
            (iff_trans (AllPass-if _ _)
              (when_iff (λ _. eval_max_series_iff json output (magnitude a.max_series_per_metric))))
            (iff_trans
              (AllPass-required metrics (codes "metrics") a.required_resource_attributes
                (check_required_metric_resource_attributes output a.required_resource_attributes))
              (when_iff (λ _.
                unfold check_required_metric_resource_attributes in
                required_iff (λ (m : Metric). m.resource_attributes) a.required_resource_attributes
                  output.metrics))))))
