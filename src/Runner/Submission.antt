-- ===== src/Runner/Submission.antt =====
-- internal/runner/capture.go: the submission of a fixture to the Collector, and the check of its
-- size.
use otel_policy_lab.Prelude.{
  ℕ, ℤ, pos, int_Eq, int_eq_iff, ◌≡◌, ◌↔◌, ◌≤◌, refl, ap, ◌∙◌, Bool, true, not, ◌||◌, ◌&&◌, ltb, [],
  Text, text_Eq, text_eq_iff, bind-ok, ok-bind, nat_Eq, ◌==◌, Result, ok, err, ◌>>◌, arith,
  Bool-cases, inl, inr, if◌then◌else◌,
}
use otel_policy_lab.Runner.Capture.{max_message_bytes}

-- The partial success of an export response: how many items were rejected, an `int64`,
-- and its message.
pub record PartialSuccess : Type 0 where
  pub rejected : ℤ
  pub error_message : Text

pub data SubmittedSignal : Type 0 where
  submitted_logs submitted_traces submitted_metrics : SubmittedSignal

pub data SubmissionError : Type 0 where
  submission_failed : SubmittedSignal → SubmissionError
  submitted_partially : SubmittedSignal → SubmissionError

-- A fixture as the submission meets it: the number of its records, spans and metrics, the encoded
-- size of each signal, and how the Collector answers the export of each.
pub record Submission : Type 0 where
  pub count : SubmittedSignal → ℕ
  pub size : SubmittedSignal → ℕ
  pub export : SubmittedSignal → Result Text PartialSuccess

abbrev pub is_complete : PartialSuccess → Bool
is_complete r = r.rejected == pos 0 && r.error_message == []

abbrev pub answer : SubmittedSignal → Result Text PartialSuccess → Result SubmissionError (Unit {0})
answer signal (err e) = err (submission_failed signal)
answer signal (ok r) = if is_complete r then ok tt else err (submitted_partially signal)

-- The three alike parts of `submitFixture`.
unfoldable pub submit_signal : Submission → SubmittedSignal → Result SubmissionError (Unit {0})
submit_signal s signal = if ltb 0 (s.count signal) then answer signal (s.export signal) else ok tt

unfoldable pub submit_fixture : Submission → Result SubmissionError (Unit {0})
unfolding submit_signal
submit_fixture s =
    submit_signal s submitted_logs
    >> submit_signal s submitted_traces
    >> submit_signal s submitted_metrics

-- Is the size of every signal within the limit of a message?
unfoldable pub validate_fixture_size : Submission → Bool
validate_fixture_size s = not (
    ltb max_message_bytes (s.size submitted_logs)
    || ltb max_message_bytes (s.size submitted_traces)
    || ltb max_message_bytes (s.size submitted_metrics))

-- The Collector takes the whole signal, where the fixture has any of it.
pub record Accepts (s : Submission) (signal : SubmittedSignal) : Type 0 where
  pub response :
      1 ≤ s.count signal
      → (r : PartialSuccess) × (s.export signal ≡ ok r)
        × (r.rejected ≡ pos 0)
        × (r.error_message ≡ [])

answer_iff :
    (signal : SubmittedSignal) (m : Result Text PartialSuccess)
    → (answer signal m ≡ ok tt)
      ↔ ((r : PartialSuccess) × (m ≡ ok r) × (r.rejected ≡ pos 0) × (r.error_message ≡ []))
answer_iff signal (err e) = (λ h. cc, λ h. cc)
answer_iff signal (ok r) = (
  λ h. elim (Bool-cases (is_complete r)) [
    | inl q ↦ (
      r,
      refl,
      (int_eq_iff r.rejected (pos 0)).0 (ground arith),
      (text_eq_iff r.error_message []).0 (ground arith),
    )
    | inr q ↦ absurd (
        let x : Result SubmissionError (Unit {0}) = err (submitted_partially signal) in
        let y : x ≡ ok tt = ground arith in cc)
  ],
  λ (t, e, n, m).
      let same : r ≡ t = cc in
      let none_rejected : (r.rejected == pos 0) ≡ true =
        (int_eq_iff r.rejected (pos 0)).1 (ap (λ (x : PartialSuccess). x.rejected) same ∙ n) in
      let no_message : (r.error_message == []) ≡ true =
        (text_eq_iff r.error_message []).1
          (ap (λ (x : PartialSuccess). x.error_message) same ∙ m) in
      ground arith,
)

submit_signal_iff :
    (s : Submission) (signal : SubmittedSignal)
    → (submit_signal s signal ≡ ok tt) ↔ Accepts s signal
unfolding submit_signal
submit_signal_iff s signal = elim (Bool-cases (ltb 0 (s.count signal))) [
  | inl q ↦ rw q (
    λ h. record { response = λ _. (answer_iff signal (s.export signal)).0 h },
    λ a. (answer_iff signal (s.export signal)).1 (a.response (ground arith)),
  )
  | inr q ↦ rw q (λ _. record { response = λ h. absurd (ground arith) }, λ _. refl)
]

-- The submission of a fixture succeeds exactly if for each signal of which the fixture has any
-- the Collector answers without an error, rejects nothing and sends no message of partial
-- success.
pub submit_fixture_iff :
    (s : Submission)
    → (submit_fixture s ≡ ok tt)
      ↔ (Accepts s submitted_logs × (Accepts s submitted_traces × Accepts s submitted_metrics))
unfolding submit_fixture
submit_fixture_iff s =
    let l = submit_signal_iff s submitted_logs in
    let t = submit_signal_iff s submitted_traces in
    let m = submit_signal_iff s submitted_metrics in
    (
      λ h.
          let (_, ab, c) =
            bind-ok (submit_signal s submitted_logs >> submit_signal s submitted_traces) _ tt h in
          let (_, a, b) = bind-ok (submit_signal s submitted_logs) _ tt ab in
          (l.0 a, (t.0 b, m.0 c)),
      λ h. ok-bind _ (ok-bind _ (l.1 h.0) (t.1 h.1.0)) (m.1 h.1.1),
    )
