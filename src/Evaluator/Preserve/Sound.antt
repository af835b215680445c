-- ===== src/Evaluator/Preserve/Sound.antt =====
-- The verdict on error traces, against the spans themselves.
use mathlib.Core.Bool.{false≢true}
use otel_policy_lab.Prelude.{
  ℕ, suc, ◌≤◌, ◌≡◌, refl, sym, ap, ◌∙◌, ◌↔◌, List, [], ◌∷◌, Bool, true, false, ◌||◌, ◌&&◌, Text,
  text_Eq, nat_Eq, Map, insert, has_key, has_key-insert, length, any, All, ◌==◌, arith, text_eq_iff,
  Bool-cases, inl, inr,
}
use otel_policy_lab.Telemetry.{Span, Set}
use otel_policy_lab.Report.Check.{status_pass}
use otel_policy_lab.Library.{Library}
use otel_policy_lab.Evaluator.Preserve.{
  span_key, is_error, collect_errors, error_spans, count_preserved, preservation_result,
  eval_error_trace_preservation,
}

module _ (lib : Library) where
  -- Is there an error span with this key?
  abbrev pub has_error : Text → List Span → Bool
  has_error k = any (λ s. is_error lib s && span_key s == k)

  has_key-collect_errors :
      (out : Map Text Span) (spans : List Span) (k : Text)
      → has_key (collect_errors lib out spans) k ≡ (has_key out k || has_error k spans)
  unfolding collect_errors any
  has_key-collect_errors out [] k = ground arith
  has_key-collect_errors out (s ∷ spans) k = ground (
    arith,
    has_key-collect_errors out spans k,
    has_key-collect_errors (insert out (span_key s) s) spans k,
    has_key-insert out (span_key s) k s,
  )

  has_key-error_spans :
      (set : Set) (k : Text) → has_key (error_spans lib set) k ≡ has_error k set.spans
  unfolding error_spans has_key
  has_key-error_spans set k = has_key-collect_errors [] set.spans k

  -- Every span of the map stands under its key.
  abbrev IsKeyed : Map Text Span → Type 0
  IsKeyed = All (λ e. e.0 ≡ span_key e.1)

  IsKeyed-insert : (m : Map Text Span) (s : Span) → IsKeyed m → IsKeyed (insert m (span_key s) s)
  unfolding insert
  IsKeyed-insert [] s h = (refl, tt)
  IsKeyed-insert ((j, t) ∷ m) s h = elim (Bool-cases (j == span_key s)) [
    | inl e ↦ rw e (refl, h.1)
    | inr e ↦ rw e (h.0, IsKeyed-insert m s h.1)
  ]

  IsKeyed-collect_errors :
      (out : Map Text Span) (spans : List Span)
      → IsKeyed out
      → IsKeyed (collect_errors lib out spans)
  unfolding collect_errors
  IsKeyed-collect_errors out [] h = h
  IsKeyed-collect_errors out (s ∷ spans) h = elim (Bool-cases (is_error lib s)) [
    | inl e ↦
        rw e (IsKeyed-collect_errors (insert out (span_key s) s) spans (IsKeyed-insert out s h))
    | inr e ↦ rw e (IsKeyed-collect_errors out spans h)
  ]

  count_preserved-le : (ins outs : Map Text Span) → count_preserved lib ins outs ≤ length ins
  unfolding count_preserved
  count_preserved-le [] outs = omega arith
  count_preserved-le ((k, s) ∷ ins) outs = ground (arith, count_preserved-le ins outs)

  -- All spans are counted exactly if each has its key in the output.
  count_preserved_all :
      (ins outs : Map Text Span)
      → IsKeyed ins
      → (count_preserved lib ins outs ≡ length ins)
        ↔ ((k : Text) → has_key ins k ≡ true → has_key outs k ≡ true)
  unfolding count_preserved has_key
  count_preserved_all [] outs h = (λ e k q. cc, λ q. refl)
  count_preserved_all ((j, s) ∷ ins) outs h = elim (Bool-cases (has_key outs (span_key s))) [
    | inl e ↦ rw e (
      λ q k m.
          ground
            (arith, (count_preserved_all ins outs h.1).0 (omega arith) k, text_eq_iff j k, h.0, e),
      λ q. ap suc ((count_preserved_all ins outs h.1).1 (λ k m. q k (ground arith))),
    )
    | inr e ↦ rw e (
      λ q. absurd (omega (arith, count_preserved-le ins outs)),
      λ q.
          absurd
            (false≢true (sym e ∙ q (span_key s) (ground (arith, text_eq_iff j (span_key s), h.0)))),
    )
  ]

  status-preservation_result :
      (preserved total : ℕ) (w : List Text)
      → ((preservation_result lib preserved total w).status ≡ status_pass) ↔ (preserved ≡ total)
  unfolding preservation_result
  status-preservation_result preserved total w = ground arith

  nothing_to_preserve :
      (set : Set) (k : Text)
      → length (error_spans lib set) ≡ 0
      → has_key (error_spans lib set) k ≡ false
  nothing_to_preserve set k h = none_in (error_spans lib set) h
    where
      none_in : (m : Map Text Span) → length m ≡ 0 → has_key m k ≡ false
      none_in [] h = unfold has_key in refl
      none_in (e ∷ m) h = absurd (omega arith)

  -- The preservation check passes exactly if every key of an error span of the input is the key
  -- of an error span of the output.
  pub eval_error_trace_preservation_iff :
      (input output : Set) (w : List Text)
      → ((eval_error_trace_preservation lib input output w).status ≡ status_pass)
        ↔ ((k : Text) → has_error k input.spans ≡ true → has_error k output.spans ≡ true)
  unfolding eval_error_trace_preservation
  eval_error_trace_preservation_iff input output w =
      elim (Bool-cases (length (error_spans lib input) == 0)) [
        | inl e ↦ rw e (
          λ _ k h. absurd (
              false≢true (
                sym (nothing_to_preserve input k (ground arith))
                ∙ has_key-error_spans input k
                ∙ h)),
          λ _. refl,
        )
        | inr e ↦ rw e (
            let all =
              count_preserved_all (error_spans lib input) (error_spans lib output)
                (unfold error_spans in IsKeyed-collect_errors [] input.spans tt) in
            let verdict =
              status-preservation_result
                (count_preserved lib (error_spans lib input) (error_spans lib output))
                (length (error_spans lib input)) w in
            (
              λ p k h.
                  sym (has_key-error_spans output k)
                  ∙ all.0 (verdict.0 p) k (has_key-error_spans input k ∙ h),
              λ p. verdict.1 (
                  all.1 (λ k h.
                    has_key-error_spans output k ∙ p k (sym (has_key-error_spans input k) ∙ h))),
            ))
      ]
