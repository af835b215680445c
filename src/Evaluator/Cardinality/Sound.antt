-- ===== src/Evaluator/Cardinality/Sound.antt =====
-- The verdict on the number of series, against the metrics themselves.
use mathlib.Core.Path.{subst}
use otel_policy_lab.Prelude.{
  ℕ, ◌≤◌, ◌≡◌, refl, sym, ap, ◌∙◌, ◌↔◌, List, [], ◌∷◌, true, ◌||◌, ◌&&◌, Text, text_Eq, nat_Eq,
  text_eq_iff, Map, lookup, insert, lookup-insert, has_key, has_key-insert, keys, contains,
  contains-add, contains-keys, IsUnique, IsUnique-add, add, length, any, All, ltb, ◌==◌,
  if◌then◌else◌, arith, Bool-cases, inl, inr, iff_trans, ×-iff, append-nil_iff, All-intro, All-elim,
  All-sort_texts, In-contains, contains_of_In, In-any, any_of_In, sort_texts,
}
use otel_policy_lab.Telemetry.{Json, Metric, Set, unique_series_keys}
use otel_policy_lab.Report.Check.{status_pass, status_fail, CheckResult}
use otel_policy_lab.Evaluator.Cardinality.{
  series_at, add_all, series_by_name, point_counts, series_violation, series_violations, or_pass,
  eval_max_series,
}

contains-add_all :
    (seen ks : List Text) (k : Text)
    → contains (add_all seen ks) k ≡ (contains seen k || contains ks k)
unfolding add_all contains
contains-add_all seen [] k = ground arith
contains-add_all seen (j ∷ ks) k =
    ground (arith, contains-add_all (add seen j) ks k, contains-add seen j k)

IsUnique-add_all : (seen ks : List Text) → IsUnique seen → IsUnique (add_all seen ks)
unfolding add_all
IsUnique-add_all seen [] u = u
IsUnique-add_all seen (k ∷ ks) u = IsUnique-add_all (add seen k) ks (IsUnique-add seen k u)

series_at-insert :
    (by_name : Map Text (List Text)) (j k : Text) (s : List Text)
    → series_at (insert by_name j s) k ≡ (if j == k then s else series_at by_name k)
unfolding series_at
series_at-insert by_name j k s = ground (arith, lookup-insert by_name j k s)

violations-nil :
    (limit : ℕ) (counts : Map Text ℕ) (by_name : Map Text (List Text)) (names : List Text)
    → (series_violations limit counts by_name names ≡ [])
      ↔ All (λ n. length (series_at by_name n) ≤ limit) names
unfolding series_violations series_violation
violations-nil limit counts by_name [] = (λ _. tt, λ _. refl)
violations-nil limit counts by_name (n ∷ names) =
    iff_trans (append-nil_iff _ _)
      (×-iff (ground arith) (violations-nil limit counts by_name names))

violations_fail :
    (limit : ℕ) (counts : Map Text ℕ) (by_name : Map Text (List Text)) (names : List Text)
    → All (λ r. r.status ≡ status_fail) (series_violations limit counts by_name names)
unfolding series_violations series_violation
violations_fail limit counts by_name [] = tt
violations_fail limit counts by_name (n ∷ names) =
    elim (Bool-cases (ltb limit (length (series_at by_name n)))) [
      | inl e ↦ rw e (refl, violations_fail limit counts by_name names)
      | inr e ↦ rw e (violations_fail limit counts by_name names)
    ]

or_pass_iff :
    (limit : ℕ) (results : List CheckResult)
    → All (λ r. r.status ≡ status_fail) results
    → All (λ r. r.status ≡ status_pass) (or_pass limit results) ↔ (results ≡ [])
unfolding or_pass
or_pass_iff limit [] h = (λ _. refl, λ _. (refl, tt))
or_pass_iff limit (r ∷ results) h = (λ a. cc (a.0, h.0), λ e. cc)

All-keys :
    (P : Text → Type 0) (m : Map Text (List Text))
    → All P (keys m) ↔ ((k : Text) → has_key m k ≡ true → P k)
All-keys P m = (
  λ a k h. All-elim P (keys m) k a (In-contains (keys m) k (contains-keys m k ∙ h)),
  λ h. All-intro P (keys m) (λ k i. h k (sym (contains-keys m k) ∙ contains_of_In (keys m) k i)),
)

module _ (json : Json) where
  -- The distinct series of all metrics with a name, over resources and requests.
  unfoldable pub series_of : List Text → Text → List Metric → List Text
  unfolding add_all
  series_of seen name [] = seen
  series_of seen name (m ∷ ms) =
      series_of (if m.name == name then add_all seen (unique_series_keys json m) else seen) name ms

  pub contains-series_of :
      (seen : List Text) (name : Text) (ms : List Metric) (k : Text)
      → contains (series_of seen name ms) k ≡ (
          contains seen k || any (λ m. m.name == name && contains (unique_series_keys json m) k) ms)
  unfolding series_of any
  contains-series_of seen name [] k = ground arith
  contains-series_of seen name (m ∷ ms) k = ground (
    arith,
    contains-series_of (add_all seen (unique_series_keys json m)) name ms k,
    contains-series_of seen name ms k,
    contains-add_all seen (unique_series_keys json m) k,
  )

  pub IsUnique-series_of :
      (seen : List Text) (name : Text) (ms : List Metric)
      → IsUnique seen
      → IsUnique (series_of seen name ms)
  unfolding series_of
  IsUnique-series_of seen name [] u = u
  IsUnique-series_of seen name (m ∷ ms) u = elim (Bool-cases (m.name == name)) [
    | inl e ↦ rw e (
        IsUnique-series_of (add_all seen (unique_series_keys json m)) name ms
          (IsUnique-add_all seen (unique_series_keys json m) u))
    | inr e ↦ rw e (IsUnique-series_of seen name ms u)
  ]

  series_at-series_by_name :
      (by_name : Map Text (List Text)) (ms : List Metric) (name : Text)
      → series_at (series_by_name json by_name ms) name ≡ series_of (series_at by_name name) name ms
  unfolding series_by_name series_of
  series_at-series_by_name by_name [] name = refl
  series_at-series_by_name by_name (m ∷ ms) name =
      let s = add_all (series_at by_name m.name) (unique_series_keys json m) in
      ground (
        arith,
        series_at-series_by_name (insert by_name m.name s) ms name,
        series_at-insert by_name m.name name s,
        text_eq_iff m.name name,
      )

  has_key-series_by_name :
      (by_name : Map Text (List Text)) (ms : List Metric) (name : Text)
      → has_key (series_by_name json by_name ms) name
        ≡ (has_key by_name name || any (λ m. m.name == name) ms)
  unfolding series_by_name any
  has_key-series_by_name by_name [] name = ground arith
  has_key-series_by_name by_name (m ∷ ms) name =
      let s = add_all (series_at by_name m.name) (unique_series_keys json m) in
      ground (
        arith,
        has_key-series_by_name (insert by_name m.name s) ms name,
        has_key-insert by_name m.name name s,
      )

  series_from_nothing :
      (ms : List Metric) (name : Text)
      → length (series_at (series_by_name json [] ms) name) ≡ length (series_of [] name ms)
  series_from_nothing ms name = ap length (
      series_at-series_by_name [] ms name
      ∙ ap (λ s. series_of s name ms)
          (let e : series_at [] name ≡ [] = unfold series_at lookup in refl in e))

  names_from_nothing :
      (ms : List Metric) (name : Text)
      → has_key (series_by_name json [] ms) name ≡ any (λ m. m.name == name) ms
  unfolding has_key
  names_from_nothing ms name = has_key-series_by_name [] ms name

  -- The results of the series limit all pass exactly if for every metric the distinct series of
  -- all metrics of its name are at most the limit.
  pub eval_max_series_iff :
      (output : Set) (limit : ℕ)
      → All (λ r. r.status ≡ status_pass) (eval_max_series json output limit)
        ↔ All (λ m. length (series_of [] m.name output.metrics) ≤ limit) output.metrics
  unfolding eval_max_series
  eval_max_series_iff output limit =
      let ms = output.metrics in
      let by_name = series_by_name json [] ms in
      let counts = point_counts json [] ms in
      iff_trans
        (or_pass_iff limit _ (violations_fail limit counts by_name (sort_texts (keys by_name))))
        (iff_trans (violations-nil limit counts by_name (sort_texts (keys by_name))) (
          iff_trans (All-sort_texts _ (keys by_name)) (
            iff_trans (All-keys _ by_name) (
              λ h. All-intro _ ms (λ m i. rw (← series_from_nothing ms m.name) (
                  h m.name (
                    names_from_nothing ms m.name
                    ∙ any_of_In (λ x. x.name == m.name) ms m i
                        ((text_eq_iff m.name m.name).1 refl)))),
              λ a k h.
                  let (m, i, e) =
                    In-any (λ x. x.name == k) ms (sym (names_from_nothing ms k) ∙ h) in
                  rw (series_from_nothing ms k) (
                    subst (λ n. length (series_of [] n ms) ≤ limit) ((text_eq_iff m.name k).0 e)
                      (All-elim _ ms m a i)),
            ))))
