-- ===== src/Report/Series.antt =====
-- `FormatSeries` of internal/report/report.go, and what its text reads back as.
use mathlib.Core.List.{append_assoc, append-nil}
use otel_policy_lab.Prelude.{
  ℕ, zero, suc, ◌+◌, ◌-◌, ◌*◌, ◌/◌, ◌%◌, ◌≤◌, ◌<◌, ◌≡◌, refl, sym, ap, ◌∙◌, true, List, [], ◌∷◌,
  ◌++◌, Text, codes, itoa, digits, length, length-drop, length-take, take-append-drop, ltb→lt,
  leb→le, ◌≢◌, take, drop, ltb, leb, join, if◌then◌else◌, ◌==◌, nat_Eq, arith, keep, not, All,
  Bool-cases, inl, inr,
}

-- The loop that moves the last three characters of `s` in front of `parts`. A round shortens `s`
-- by three, so `length s` rounds are enough.
unfoldable pub group : ℕ → Text → List Text → List Text
group zero s parts = s ∷ parts
group (suc f) s parts =
    let rest = group f (take (length s - 3) s) (drop (length s - 3) s ∷ parts) in
    if ltb 3 (length s) then rest else if leb 1 (length s) then s ∷ parts else parts

unfoldable pub format_series : ℕ → Text
unfolding group
format_series n =
    let s = itoa n in if leb (length s) 3 then s else join (codes ",") (group (length s) s [])

abbrev pub concat : List Text → Text
concat [] = []
concat (p ∷ parts) = p ++ concat parts

-- The text without its commas.
unfoldable pub without_commas : Text → Text
without_commas = keep (λ c. not (c == b','))

-- The number that a decimal text denotes, `acc` being what its digits so far denote.
unfoldable pub decimal : ℕ → Text → ℕ
decimal acc [] = acc
decimal acc (c ∷ s) = decimal (acc * 10 + (c - b'0')) s

concat-group : (f : ℕ) (s : Text) (parts : List Text) → concat (group f s parts) ≡ s ++ concat parts
unfolding group
concat-group zero s parts = refl
concat-group (suc f) [] parts = refl
concat-group (suc f) (c ∷ s) parts = elim (Bool-cases (ltb 3 (length (c ∷ s)))) [
  | inl h ↦ rw h (
      concat-group f _ _
      ∙ sym (append_assoc (take (suc (length s) - 3) (c ∷ s)) _ _)
      ∙ ap (λ t. t ++ concat parts) (take-append-drop (suc (length s) - 3) (c ∷ s)))
  | inr h ↦ rw h (ground arith)
]

-- All parts but the first have three characters, the first has between one and three.
abbrev pub IsGrouped : List Text → Type 0
IsGrouped [] = ⊥
IsGrouped (p ∷ parts) = (1 ≤ length p) × (length p ≤ 3) × All (λ q. length q ≡ 3) parts

group-IsGrouped :
    (f : ℕ) (s : Text) (parts : List Text)
    → length s ≤ f
    → 1 ≤ length s
    → All (λ q. length q ≡ 3) parts
    → IsGrouped (group f s parts)
unfolding group
group-IsGrouped zero s parts h k a = absurd (omega arith)
group-IsGrouped (suc f) s parts h k a = elim (Bool-cases (ltb 3 (length s))) [
  | inl e ↦ rw e (
      let e' : 3 < length s = ltb→lt 3 (length s) e in
      let t : length (take (length s - 3) s) ≡ length s - 3 =
        omega (arith, length-take (length s - 3) s) in
      group-IsGrouped f _ _ (omega arith) (omega arith)
        (omega (arith, length-drop (length s - 3) s), a))
  | inr e ↦ rw e (rw (let x : leb 1 (length s) ≡ true = ground arith in x) (k, ground arith, a))
]

digits-decimal : (f n : ℕ) (rest : Text) → n < f → decimal 0 (digits f n rest) ≡ decimal n rest
unfolding decimal digits
digits-decimal zero n rest h = elim h [ ]
digits-decimal (suc f) n rest h = elim (Bool-cases (ltb n 10)) [
  | inl e ↦
      rw e (ap (λ k. decimal k rest) (let x : 0 * 10 + (b'0' + n - b'0') ≡ n = omega arith in x))
  | inr e ↦ rw e (
      digits-decimal f (n / 10) ((b'0' + n % 10) ∷ rest) (ground arith)
      ∙ ap (λ k. decimal k rest)
          (let x : n / 10 * 10 + (b'0' + n % 10 - b'0') ≡ n = omega arith in x))
]

-- A number's decimal text reads back as the number.
pub decimal-itoa : (n : ℕ) → decimal 0 (itoa n) ≡ n
unfolding itoa decimal
decimal-itoa n = digits-decimal (suc n) n [] (omega arith)

abbrev HasNoComma : Text → Type 0
HasNoComma = All (λ c. c ≢ b',')

digits-HasNoComma : (f n : ℕ) (rest : Text) → HasNoComma rest → HasNoComma (digits f n rest)
unfolding digits
digits-HasNoComma zero n rest a = a
digits-HasNoComma (suc f) n rest a = elim (Bool-cases (ltb n 10)) [
  | inl e ↦ rw e (omega arith, a)
  | inr e ↦ rw e (digits-HasNoComma f (n / 10) ((b'0' + n % 10) ∷ rest) (omega arith, a))
]

without_commas-append :
    (s t : Text) → without_commas (s ++ t) ≡ without_commas s ++ without_commas t
unfolding without_commas keep
without_commas-append [] t = refl
without_commas-append (c ∷ s) t = ground (arith, without_commas-append s t)

without_commas-comma : (s : Text) → without_commas (codes "," ++ s) ≡ without_commas s
unfolding without_commas keep
without_commas-comma s = refl

without_commas-join :
    (parts : List Text) → without_commas (join (codes ",") parts) ≡ without_commas (concat parts)
unfolding join
without_commas-join [] = refl
without_commas-join (p ∷ []) = ap without_commas (sym (append-nil p))
without_commas-join (p ∷ q ∷ rest) =
    without_commas-append p _
    ∙ ap (λ t. without_commas p ++ t)
        (without_commas-comma (join (codes ",") (q ∷ rest)) ∙ without_commas-join (q ∷ rest))
    ∙ sym (without_commas-append p _)

without_commas_none : (s : Text) → HasNoComma s → without_commas s ≡ s
unfolding without_commas keep
without_commas_none [] a = refl
without_commas_none (c ∷ s) a = ground (arith, without_commas_none s a.1)

-- Without its commas the formatted count is the plain decimal text.
without_commas-format_series : (n : ℕ) → without_commas (format_series n) ≡ itoa n
unfolding format_series
without_commas-format_series n = elim (Bool-cases (leb (length (itoa n)) 3)) [
  | inl e ↦ rw e (without_commas_none (itoa n) (unfold itoa in digits-HasNoComma (suc n) n [] tt))
  | inr e ↦ rw e (
      without_commas-join _
      ∙ ap without_commas (concat-group (length (itoa n)) (itoa n) [] ∙ append-nil (itoa n))
      ∙ without_commas_none (itoa n) (unfold itoa in digits-HasNoComma (suc n) n [] tt))
]

-- A formatted count reads back as the count once its commas are dropped.
pub decimal-format_series : (n : ℕ) → decimal 0 (without_commas (format_series n)) ≡ n
decimal-format_series n = ap (decimal 0) (without_commas-format_series n) ∙ decimal-itoa n

digits-nonempty : (f n : ℕ) (rest : Text) → 1 ≤ length rest → 1 ≤ length (digits f n rest)
unfolding digits
digits-nonempty zero n rest h = h
digits-nonempty (suc f) n rest h = elim (Bool-cases (ltb n 10)) [
  | inl e ↦ rw e (omega arith)
  | inr e ↦ rw e (digits-nonempty f (n / 10) ((b'0' + n % 10) ∷ rest) (omega arith))
]

itoa-nonempty : (n : ℕ) → 1 ≤ length (itoa n)
unfolding itoa
itoa-nonempty n = elim (Bool-cases (ltb n 10)) [
  | inl e ↦ rw e (omega arith)
  | inr e ↦ rw e (digits-nonempty n (n / 10) ((b'0' + n % 10) ∷ []) (omega arith))
]

-- A formatted count is the parts of its decimal text joined by commas, the first of one to three
-- characters and all others of three.
pub format_series-IsGrouped :
    (n : ℕ)
    → (parts : List Text) × (format_series n ≡ join (codes ",") parts)
      × IsGrouped parts
      × (concat parts ≡ itoa n)
unfolding format_series join itoa
format_series-IsGrouped n = elim (Bool-cases (leb (length (itoa n)) 3)) [
  | inl e ↦ (itoa n ∷ [], rw e, (itoa-nonempty n, leb→le _ _ e, tt), append-nil (itoa n))
  | inr e ↦ (
    group (length (itoa n)) (itoa n) [],
    rw e,
    group-IsGrouped (length (itoa n)) (itoa n) [] (omega arith) (itoa-nonempty n) tt,
    concat-group (length (itoa n)) (itoa n) [] ∙ append-nil (itoa n),
  )
]
