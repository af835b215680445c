-- ===== src/Evaluator/Preserve/Identity.antt =====
-- `spanKey` joins two identifiers with a colon. Identifiers that the OTLP parser yields are
-- hexadecimal, so that the key stands for the pair.
use mathlib.Core.List.{cons-eq-cons}
use otel_policy_lab.Prelude.{
  All-intro, All-elim, ◌≡◌, ◌≢◌, refl, sym, ap, ap₂, ◌∙◌, ◌↔◌, List, [], ◌∷◌, ◌++◌, Bool, true,
  ◌&&◌, Text, codes, text_Eq, text_eq_iff, any, All, In, inl, inr, Bool-cases, ◌==◌, arith,
}
use otel_policy_lab.Telemetry.{Span, Set}
use otel_policy_lab.Report.Check.{status_pass}
use otel_policy_lab.Library.{Library}
use otel_policy_lab.Evaluator.Preserve.{span_key, is_error, eval_error_trace_preservation}
use otel_policy_lab.Evaluator.Preserve.Sound.{has_error, eval_error_trace_preservation_iff}

abbrev pub HasNoColon : Text → Type 0
HasNoColon = All (λ c. c ≢ b':')

-- What stands before the first colon, and what stands behind it.
split_colon :
    (s t x y : Text)
    → HasNoColon s
    → HasNoColon t
    → s ++ (codes ":" ++ x) ≡ t ++ (codes ":" ++ y)
    → (s ≡ t) × (x ≡ y)
split_colon [] [] x y h k e = (refl, (cons-eq-cons.0 e).1)
split_colon [] (d ∷ t) x y h k e = absurd (k.0 (sym (cons-eq-cons.0 e).0))
split_colon (c ∷ s) [] x y h k e = absurd (h.0 (cons-eq-cons.0 e).0)
split_colon (c ∷ s) (d ∷ t) x y h k e =
    let (p, q) = cons-eq-cons.0 e in let (a, b) = split_colon s t x y h.1 k.1 q in (ap₂ ◌∷◌ p a, b)

-- If the trace identifiers of two spans hold no colon, the spans have one key exactly if they
-- agree in both identifiers.
pub span_key_iff :
    (a b : Span)
    → HasNoColon a.trace_id
    → HasNoColon b.trace_id
    → (span_key a ≡ span_key b) ↔ ((a.trace_id ≡ b.trace_id) × (a.span_id ≡ b.span_id))
unfolding span_key
span_key_iff a b h k = (
  split_colon a.trace_id b.trace_id a.span_id b.span_id h k,
  λ e. ap₂ (λ (s t : Text). s ++ (codes ":" ++ t)) e.0 e.1,
)

module _ (lib : Library) where
  -- Is there an error span with these identifiers?
  abbrev pub has_error_span : Span → List Span → Bool
  has_error_span s =
      any (λ t. is_error lib t && (t.trace_id == s.trace_id && t.span_id == s.span_id))

  has_error-key :
      (s : Span) (spans : List Span)
      → HasNoColon s.trace_id
      → All (λ t. HasNoColon t.trace_id) spans
      → has_error lib (span_key s) spans ≡ has_error_span s spans
  unfolding any
  has_error-key s [] h a = refl
  has_error-key s (t ∷ spans) h a = ground (
    arith,
    has_error-key s spans h a.1,
    span_key_iff t s a.0 h,
    text_eq_iff (span_key t) (span_key s),
    text_eq_iff t.trace_id s.trace_id,
    text_eq_iff t.span_id s.span_id,
  )

  has_error_of_In :
      (s : Span) (spans : List Span)
      → In s spans
      → is_error lib s ≡ true
      → has_error lib (span_key s) spans ≡ true
  unfolding any
  has_error_of_In s [] m h = elim m [ ]
  has_error_of_In s (t ∷ spans) (inl e) h =
      rw (ap (λ x. is_error lib x) (sym e) ∙ h)
        (ground (arith, text_eq_iff (span_key t) (span_key s), ap span_key e))
  has_error_of_In s (t ∷ spans) (inr m) h = ground (arith, has_error_of_In s spans m h)

  -- A key of an error span comes from such a span.
  In-has_error :
      (k : Text) (spans : List Span)
      → has_error lib k spans ≡ true
      → (s : Span) × In s spans × (is_error lib s ≡ true) × (span_key s ≡ k)
  unfolding any
  In-has_error k [] h = cc
  In-has_error k (t ∷ spans) h = elim (Bool-cases (is_error lib t && span_key t == k)) [
    | inl e ↦ (t, inl refl, ground arith, (text_eq_iff (span_key t) k).0 (ground arith))
    | inr e ↦ let (s, m, q, r) = In-has_error k spans (rw e at h) in (s, inr m, q, r)
  ]

  -- If no trace identifier of the input or the output holds a colon, the preservation check
  -- passes exactly if for every error span of the input the output has an error span with the
  -- same trace and span identifiers.
  pub eval_error_trace_preservation_identity :
      (input output : Set) (w : List Text)
      → All (λ s. HasNoColon s.trace_id) input.spans
      → All (λ s. HasNoColon s.trace_id) output.spans
      → ((eval_error_trace_preservation lib input output w).status ≡ status_pass)
        ↔ All (λ s. is_error lib s ≡ true → has_error_span s output.spans ≡ true) input.spans
  eval_error_trace_preservation_identity input output w hi ho =
      let verdict = eval_error_trace_preservation_iff lib input output w in
      (
        λ p. All-intro _ input.spans (λ s m e.
            sym (has_error-key s output.spans (All-elim _ input.spans s hi m) ho)
            ∙ verdict.0 p (span_key s) (has_error_of_In s input.spans m e)),
        λ a. verdict.1 (λ k h.
            let (s, m, e, q) = In-has_error k input.spans h in
            ap (λ j. has_error lib j output.spans) (sym q)
            ∙ has_error-key s output.spans (All-elim _ input.spans s hi m) ho
            ∙ All-elim _ input.spans s a m e),
      )
