-- ===== src/Runner/Startup/Attempts.antt =====
-- internal/runner/collector.go: how the loop that starts the Collector ends.
use mathlib.Core.Path.{subst}
use otel_policy_lab.Prelude.{
  ℕ, zero, suc, ◌+◌, ◌≡◌, ◌≢◌, ◌≤◌, ◌<◌, refl, ltb, Bool, true, false, not, ◌&&◌, none, some,
  is_some, Option-cases, Text, codes, text_Eq, text_eq, ◌==◌, ok, err, arith, Bool-cases, inl, inr,
  ◌⊎◌, if◌then◌else◌,
}
use otel_policy_lab.Runner.PrivateBuffer.{
  ProcessFailure, bind_conflict, missing_component, invalid_config, process_exit, process_failure,
}
use otel_policy_lab.Runner.Startup.{
  Attempt, AttemptEnd, started, try_again, failed, RunFailure, Startup, StartupEnd,
  process_category, exited_early, after_start, before_start, startup_end, stops, after_turn,
  start_collector, startup,
}

AttemptEnd-cases :
    (e : AttemptEnd) → (e ≡ started) ⊎ ((e ≡ try_again) ⊎ ((f : RunFailure) × (e ≡ failed f)))
AttemptEnd-cases started = inl refl
AttemptEnd-cases try_again = inr (inl refl)
AttemptEnd-cases (failed f) = inr (inr (f, refl))

process_category-bind_conflict :
    (c : ProcessFailure) → (process_category c == codes "bind_conflict") ≡ true → c ≡ bind_conflict
unfolding process_category text_eq
process_category-bind_conflict bind_conflict h = refl
process_category-bind_conflict missing_component h = cc
process_category-bind_conflict invalid_config h = cc
process_category-bind_conflict process_exit h = cc

try_again-test :
    (b : Bool) (f : RunFailure) → (if b then try_again else failed f) ≡ try_again → b ≡ true
try_again-test true f h = refl
try_again-test false f h = cc

not_started : (b : Bool) (f : RunFailure) → (if b then try_again else failed f) ≢ started
not_started true f h = cc
not_started false f h = cc

module _ (run : Startup) (attempts : ℕ → Attempt) where
  -- The Collector of the attempt exited and complained of an address in use.
  pub record IsConflict (a : Attempt) : Type 0 where
    pub has_exited : a.exited_later ≡ true
    pub complains : process_failure run.lower a.logs ≡ bind_conflict

  -- The Collector of the attempt was started, got ready and had not exited then.
  pub record IsUp (a : Attempt) : Type 0 where
    pub is_started : before_start run a ≡ none
    pub is_ready : a.is_ready ≡ true
    pub is_running : a.exited ≡ false

  exited_early-try_again :
      (n : ℕ) (logs : Text)
      → exited_early run n logs ≡ try_again
      → (process_failure run.lower logs ≡ bind_conflict) × (n < 2)
  unfolding exited_early
  exited_early-try_again n logs h =
      let name = process_category (process_failure run.lower logs) in
      let both : (name == codes "bind_conflict" && ltb n 2) ≡ true = try_again-test _ _ h in
      (process_category-bind_conflict (process_failure run.lower logs) (ground arith), ground arith)

  exited_early-not_started : (n : ℕ) (logs : Text) → exited_early run n logs ≢ started
  unfolding exited_early
  exited_early-not_started n logs = not_started _ _

  after_start-try_again :
      (n : ℕ) (a : Attempt) → after_start run n a ≡ try_again → IsConflict a × (n < 2)
  unfolding after_start
  after_start-try_again n a h = elim (Bool-cases (a.is_ready && not a.exited)) [
    | inl e ↦ absurd (let q : started ≡ try_again = ground arith in cc)
    | inr e ↦ elim (Bool-cases a.exited_later) [
      | inl x ↦
          (let (c, l) = exited_early-try_again n a.logs (ground arith) in
            (record { has_exited = x; complains = c }, l))
      | inr x ↦ absurd (ground arith)
    ]
  ]

  after_start-started :
      (n : ℕ) (a : Attempt)
      → after_start run n a ≡ started
      → (a.is_ready ≡ true) × (a.exited ≡ false)
  unfolding after_start
  after_start-started n a h = elim (Bool-cases (a.is_ready && not a.exited)) [
    | inl e ↦ (ground arith, ground arith)
    | inr e ↦ elim (Bool-cases a.exited_later) [
      | inl x ↦ absurd (exited_early-not_started n a.logs (ground arith))
      | inr x ↦ absurd (ground arith)
    ]
  ]

  -- How the loop from turn `n` ends.
  pub record EndsWell (n : ℕ) (e : StartupEnd) : Type 0 where
    pub finishes : is_some e.outcome ≡ true
    pub few : e.spawned ≤ 3
    pub one_alive : e.spawned ≤ suc e.stopped
    pub up :
        (k : ℕ)
        → e.outcome ≡ some (ok k)
        → (k < 3) × (n ≤ k) × IsUp (attempts k) × (e.spawned ≡ suc e.stopped)
    pub conflicts : (k j : ℕ) → e.outcome ≡ some (ok k) → n ≤ j → j < k → IsConflict (attempts j)

  failed-EndsWell :
      (n spawned stopped : ℕ) (f : RunFailure)
      → spawned ≤ 3
      → spawned ≤ suc stopped
      → EndsWell n (startup_end run spawned stopped (some (err f)))
  failed-EndsWell n spawned stopped f b o = record {
    finishes = refl;
    few = b;
    one_alive = o;
    up = λ k h. cc;
    conflicts = λ k j h. cc;
  }

  started-EndsWell :
      (n : ℕ) → n < 3 → IsUp (attempts n) → EndsWell n (startup_end run (suc n) n (some (ok n)))
  started-EndsWell n l u = record {
    finishes = refl;
    few = omega arith;
    one_alive = omega arith;
    up = λ k h.
        let same : n ≡ k = cc in
        (subst (λ i. i < 3) same l, omega arith, subst (λ i. IsUp (attempts i)) same u, refl);
    conflicts = λ k j h a b. let same : n ≡ k = cc in absurd (omega arith);
  }

  again-EndsWell :
      (n : ℕ) (e : StartupEnd) → IsConflict (attempts n) → EndsWell (suc n) e → EndsWell n e
  again-EndsWell n e c g = record {
    finishes = g.finishes;
    few = g.few;
    one_alive = g.one_alive;
    up = λ k h. let (a, b, u, s) = g.up k h in (a, omega arith, u, s);
    conflicts = λ k j h a b. elim (Bool-cases (ltb n j)) [
      | inl l ↦ g.conflicts k j h (ground arith) b
      | inr l ↦ (let same : n ≡ j = ground arith in subst (λ i. IsConflict (attempts i)) same c)
    ];
  }

  -- A turn whose first part lets the process start.
  after_turn-EndsWell :
      (n : ℕ) (rest : StartupEnd)
      → n < 3
      → before_start run (attempts n) ≡ none
      → (IsConflict (attempts n) → n < 2 → EndsWell (suc n) rest)
      → EndsWell n
          (after_turn run n n n (stops run (attempts n)) none (after_start run n (attempts n)) rest)
  unfolding after_turn
  after_turn-EndsWell n rest l b h = elim (AttemptEnd-cases (after_start run n (attempts n))) [
    | inl s ↦
        (let (r, x) = after_start-started n (attempts n) s in
          rw s (started-EndsWell n l (record { is_started = b; is_ready = r; is_running = x })))
    | inr (inl t) ↦
        (let (c, m) = after_start-try_again n (attempts n) t in
          rw t (again-EndsWell n rest c (h c m)))
    | inr (inr (f, q)) ↦
        rw q (failed-EndsWell n (suc n) (n + stops run (attempts n)) f (omega arith) (omega arith))
  ]

  start_collector-EndsWell :
      (left n : ℕ) → suc left + n ≡ 3 → EndsWell n (start_collector run attempts (suc left) n n n)
  unfolding start_collector
  start_collector-EndsWell zero n e = elim (Option-cases (before_start run (attempts n))) [
    | inr (f, b) ↦ rw b (failed-EndsWell n n n f (omega arith) (omega arith))
    | inl b ↦ rw b (after_turn-EndsWell n _ (omega arith) b (λ c l. absurd (omega arith)))
  ]
  start_collector-EndsWell (suc left) n e = elim (Option-cases (before_start run (attempts n))) [
    | inr (f, b) ↦ rw b (failed-EndsWell n n n f (omega arith) (omega arith))
    | inl b ↦ rw b (
        after_turn-EndsWell n _ (omega arith) b
          (λ c l. start_collector-EndsWell left (suc n) (omega arith)))
  ]

  -- The loop that starts the Collector always ends with a started Collector or a failure: it
  -- starts at most three processes and leaves at most one of them unstopped; and if a Collector
  -- is started, this one got ready and had not exited, it is the only one left, and every turn
  -- before exited with an address in use.
  pub startup-EndsWell : EndsWell 0 (startup run attempts)
  unfolding startup
  startup-EndsWell = start_collector-EndsWell 2 0 refl
