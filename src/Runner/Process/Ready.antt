-- ===== src/Runner/Process/Ready.antt =====
-- internal/runner/process.go: how the wait for the readiness marker ends.
use otel_policy_lab.Prelude.{
  ℕ, zero, suc, ◌+◌, ◌<◌, ◌≡◌, ◌≢◌, ap, ◌∙◌, Bool, true, false, ◌||◌, arith,
}
use otel_policy_lab.Runner.Process.{is_ready, still_waiting, wait_collector_readiness}

module _ (ready ended : ℕ → Bool) where
  -- x
  pub wait_collector_readiness-ends :
      (turns i k : ℕ)
      → (ready (i + k) || ended (i + k)) ≡ true
      → k < turns
      → wait_collector_readiness ready ended turns i ≢ still_waiting
  unfolding wait_collector_readiness
  wait_collector_readiness-ends zero i k h l = absurd (omega arith)
  wait_collector_readiness-ends (suc turns) i zero h l =
      let now : (ready i || ended i) ≡ true = ap (λ j. ready j || ended j) (omega arith) ∙ h in
      ground arith
  wait_collector_readiness-ends (suc turns) i (suc k) h l =
      let later : (ready (suc i + k) || ended (suc i + k)) ≡ true =
        ap (λ j. ready j || ended j) (omega arith) ∙ h in
      ground (arith, wait_collector_readiness-ends turns (suc i) k later (omega arith))

  -- If the readiness marker is there at some turn of the wait and the context ends at no turn
  -- before it, the wait ends with readiness.
  pub wait_collector_readiness-ready :
      (turns i k : ℕ)
      → ready (i + k) ≡ true
      → ((j : ℕ) → j < k → ended (i + j) ≡ false)
      → k < turns
      → wait_collector_readiness ready ended turns i ≡ is_ready
  unfolding wait_collector_readiness
  wait_collector_readiness-ready zero i k r n l = absurd (omega arith)
  wait_collector_readiness-ready (suc turns) i zero r n l =
      let now : ready i ≡ true = ap ready (omega arith) ∙ r in ground arith
  wait_collector_readiness-ready (suc turns) i (suc k) r n l =
      let open_now : ended i ≡ false = ap ended (omega arith) ∙ n 0 (omega arith) in
      let rest : wait_collector_readiness ready ended turns (suc i) ≡ is_ready =
        wait_collector_readiness-ready turns (suc i) k (ap ready (omega arith) ∙ r)
          (λ j m. ap ended (omega arith) ∙ n (suc j) (omega arith)) (omega arith) in
      ground arith
