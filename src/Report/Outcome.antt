-- ===== src/Report/Outcome.antt =====
-- The counts, the overall status and the exit code of a report, against descriptions that look
-- at the results alone.
use otel_policy_lab.Prelude.{
  ℕ, ◌+◌, ◌≡◌, refl, Bool, not, ◌&&◌, List, [], ◌∷◌, Text, codes, length, any, ltb, if◌then◌else◌,
  ◌==◌, text_Eq, nat_Eq, arith,
}
use otel_policy_lab.Report.Check.{
  Status, status_pass, status_fail, status_warn, status_inconclusive, status_error, status_Eq,
  CheckResult,
}
use otel_policy_lab.Report.{
  Report, FileMetadata, RunnerMetadata, SummaryStatistics, count_status, count_statuses,
  count_statuses_from, overall, build, exit_code,
}

-- Does some result have status `s`?
abbrev pub has : Status → List CheckResult → Bool
has s = any (λ c. c.status == s)

-- The counters are the numbers of results of each status.
count_statuses_from-eq :
    (checks : List CheckResult) (p f w : ℕ)
    → count_statuses_from (p, f, w) checks ≡ (
      p + count_status status_pass checks,
      f + count_status status_fail checks,
      w + count_status status_warn checks,
    )
unfolding count_statuses_from count_status
count_statuses_from-eq [] p f w = ground arith
count_statuses_from-eq (c ∷ checks) p f w = ground (
  arith,
  count_statuses_from-eq checks (p + 1) f w,
  count_statuses_from-eq checks p (f + 1) w,
  count_statuses_from-eq checks p f (w + 1),
  count_statuses_from-eq checks p f w,
)

count_status-sum :
    (checks : List CheckResult)
    → count_status status_pass checks
        + count_status status_fail checks
        + count_status status_warn checks
        + count_status status_inconclusive checks
        + count_status status_error checks
      ≡ length checks
unfolding count_status
count_status-sum [] = refl
count_status-sum (c ∷ checks) = ground (arith, count_status-sum checks)

count_statuses-eq :
    (checks : List CheckResult)
    → count_statuses checks ≡ (
      count_status status_pass checks,
      count_status status_fail checks,
      count_status status_warn checks,
    )
unfolding count_statuses
count_statuses-eq checks = ground (arith, count_statuses_from-eq checks 0 0 0)

count_status-pos :
    (s : Status) (checks : List CheckResult) → ltb 0 (count_status s checks) ≡ has s checks
unfolding count_status any
count_status-pos s [] = refl
count_status-pos s (c ∷ checks) = ground (arith, count_status-pos s checks)

module _ (checks : List CheckResult) (runner : RunnerMetadata)
    (input policy collector : FileMetadata) (summary : SummaryStatistics) (now : Text) where
  abbrev built : Report
  built = build checks runner input policy collector summary now

  -- The five counters of a built report add up to the number of its results.
  pub build-counts :
      built.pass_count + built.fail_count + built.warn_count + built.inconclusive_count
        + built.error_count
      ≡ length checks
  unfolding build
  build-counts = ground (arith, count_statuses-eq checks, count_status-sum checks)

  -- The overall status of a built report is that of an error if there is one, else of a failure,
  -- else of an inconclusive result, else a warning if there is one and the runner is not the
  -- Collector, else a pass.
  pub build-overall : built.overall_status ≡ (
      if has status_error checks
      then status_error
      else if has status_fail checks
      then status_fail
      else if has status_inconclusive checks
      then status_inconclusive
      else if has status_warn checks && not (runner.name == codes "otelcol")
      then status_warn
      else status_pass)
  unfolding build overall
  build-overall = ground (
    arith,
    count_statuses-eq checks,
    count_status-pos status_fail checks,
    count_status-pos status_warn checks,
    count_status-pos status_inconclusive checks,
    count_status-pos status_error checks,
  )

  -- The exit code of a built report is 3 if a result is an error, else 1 if one failed, else 4
  -- if one is inconclusive, else 1 if warnings are to fail the run and there is one, else 0.
  pub exit_code-build :
      (fail_on_warn : Bool)
      → exit_code built fail_on_warn ≡ (
          if has status_error checks
          then 3
          else if has status_fail checks
          then 1
          else if has status_inconclusive checks
          then 4
          else if fail_on_warn && has status_warn checks
          then 1
          else 0)
  unfolding build exit_code
  exit_code-build fail_on_warn = ground (
    arith,
    build-overall,
    count_statuses-eq checks,
    count_status-pos status_fail checks,
    count_status-pos status_warn checks,
  )
