-- ===== src/Policy/Rejected.antt =====
-- What a policy that fails validation looks like, for each error.
use mathlib.Core.Bool.{false≢true}
use mathlib.Core.Path.{subst}
use otel_policy_lab.Prelude.{
  err, ◌++◌, ap, pos, ◌≡◌, refl, ◌↔◌, inl, inr, true, List, [], ◌∷◌, Text, All, arith, int_Eq,
  int_eq_iff, text_Eq, ◌==◌, text_eq_iff, sym, ◌∙◌, Result, Bool-cases,
}
use otel_policy_lab.Policy.{
  PolicyError, version_required, unsupported_version, no_assertions, unsupported_preserve,
  read_error, decode_error, Policy, canonical_preserve, normalize_preserve_expression,
  has_assertions, check_preserve, preserve_exprs, validate, supported_version,
}
use otel_policy_lab.Policy.Predicates.{
  IsSupported, normalize-IsSupported, IsIdle, has_assertions_iff, has_assertions-false_iff,
}

-- All expressions before the one at which the list is split are supported, and that one is not.
abbrev pub IsFirstUnsupported : List Text → Text → Type 0
IsFirstUnsupported exprs expr =
    (earlier : List Text) × (later : List Text) × (exprs ≡ earlier ++ expr ∷ later)
    × All IsSupported earlier
    × ¬ (IsSupported expr)

-- What the policy is like that is rejected with an error.
abbrev pub Rejects : Policy → PolicyError → Type 0
Rejects p version_required = p.version ≡ pos 0
Rejects p (unsupported_version v) =
    (v ≡ p.version) × ((¬ (p.version ≡ pos 0)) × (¬ (p.version ≡ pos 1)))
Rejects p no_assertions = (p.version ≡ pos 1) × IsIdle p
Rejects p (unsupported_preserve expr) =
    (p.version ≡ pos 1)
    × ((¬ (IsIdle p)) × IsFirstUnsupported (preserve_exprs p.assertions.traces) expr)
Rejects p _ = ⊥

abbrev rejection : PolicyError → Result PolicyError (Unit {0})
rejection e = err e

check_preserve-err :
    (exprs : List Text) (e : PolicyError)
    → check_preserve exprs ≡ err e
    → (expr : Text) × (e ≡ unsupported_preserve expr) × IsFirstUnsupported exprs expr
unfolding check_preserve
check_preserve-err [] e h = cc
check_preserve-err (x ∷ rest) e h =
    elim (Bool-cases (normalize_preserve_expression x == canonical_preserve)) [
      | inl q ↦
          let (expr, same, (earlier, later, split, good, bad)) =
            check_preserve-err rest e (ground (arith, q, h)) in
          let known = (normalize-IsSupported x).0 ((text_eq_iff _ _).0 q) in
          (expr, same, (x ∷ earlier, later, ap (λ l. x ∷ l) split, (known, good), bad))
      | inr q ↦ (
        x,
        (let r : rejection (unsupported_preserve x) ≡ rejection e = ground (arith, q, h) in cc),
        (
          [],
          rest,
          refl,
          tt,
          λ s. false≢true (sym q ∙ (text_eq_iff _ _).1 ((normalize-IsSupported x).1 s)),
        ),
      )
    ]

err-check_preserve :
    (expr : Text) (later earlier : List Text)
    → All IsSupported earlier
    → ¬ (IsSupported expr)
    → check_preserve (earlier ++ expr ∷ later) ≡ err (unsupported_preserve expr)
unfolding check_preserve
err-check_preserve expr later [] good bad =
    elim (Bool-cases (normalize_preserve_expression expr == canonical_preserve)) [
      | inl q ↦ absurd (bad ((normalize-IsSupported expr).0 ((text_eq_iff _ _).0 q)))
      | inr q ↦ rw q refl
    ]
err-check_preserve expr later (x ∷ earlier) good bad =
    let q : (normalize_preserve_expression x == canonical_preserve) ≡ true =
      (text_eq_iff _ _).1 ((normalize-IsSupported x).1 good.0) in
    rw q (err-check_preserve expr later earlier good.1 bad)

validate-Rejects : (p : Policy) (e : PolicyError) → validate p ≡ err e → Rejects p e
unfolding validate
validate-Rejects p e h = elim (Bool-cases (p.version == pos 0)) [
  | inl a ↦
      subst (Rejects p)
        (let r : rejection version_required ≡ rejection e = ground (arith, a, h) in
          let same : version_required ≡ e = cc in same)
        ((int_eq_iff _ _).0 a)
  | inr a ↦ elim (Bool-cases (p.version == supported_version)) [
    | inr b ↦
        subst (Rejects p)
          (let r : rejection (unsupported_version p.version) ≡ rejection e =
              ground (arith, a, b, h) in
            let same : (unsupported_version p.version) ≡ e = cc in same)
          (
            refl,
            (
              λ z. false≢true (sym a ∙ (int_eq_iff _ _).1 z),
              λ z. false≢true (sym b ∙ (int_eq_iff _ _).1 z),
            ),
          )
    | inl b ↦ elim (Bool-cases (has_assertions p)) [
      | inr c ↦
          subst (Rejects p)
            (let r : rejection no_assertions ≡ rejection e = ground (arith, a, b, c, h) in
              let same : no_assertions ≡ e = cc in same)
            ((int_eq_iff _ _).0 b, (has_assertions-false_iff p).0 c)
      | inl c ↦
          let (expr, same, first) =
            check_preserve-err (preserve_exprs p.assertions.traces) e
              (ground (arith, a, b, c, h)) in
          subst (Rejects p) (sym same) ((int_eq_iff _ _).0 b, ((has_assertions_iff p).0 c, first))
    ]
  ]
]

Rejects-validate : (p : Policy) (e : PolicyError) → Rejects p e → validate p ≡ err e
unfolding validate has_assertions
Rejects-validate p version_required v = let a = (int_eq_iff p.version (pos 0)).1 v in rw a refl
Rejects-validate p (unsupported_version v) (same, (not_zero, not_one)) = ground (
  arith,
  int_eq_iff p.version (pos 0),
  int_eq_iff p.version supported_version,
  not_zero,
  not_one,
  same,
)
Rejects-validate p no_assertions (v, idle) =
    let c = (has_assertions-false_iff p).1 idle in rw (v, c) refl
Rejects-validate p (unsupported_preserve expr) (v, (n, (earlier, later, split, good, bad))) =
    let c = (has_assertions_iff p).1 n in
    rw (v, c) (ap check_preserve split ∙ err-check_preserve expr later earlier good bad)
Rejects-validate p (read_error t) r = absurd r
Rejects-validate p (decode_error t) r = absurd r

-- A policy is rejected for a missing version exactly if its version is 0, for an unsupported
-- version exactly if it is neither 0 nor 1, for a lack of checks exactly if the version is 1 and
-- no section checks anything, and for an expression to preserve exactly if the version is 1,
-- some section checks something, and it is the first expression that is not supported; it is
-- rejected with no other error.
pub validate-err_iff : (p : Policy) (e : PolicyError) → (validate p ≡ err e) ↔ Rejects p e
validate-err_iff p e = (validate-Rejects p e, Rejects-validate p e)
