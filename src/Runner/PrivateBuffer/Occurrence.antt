-- ===== src/Runner/PrivateBuffer/Occurrence.antt =====
-- Where a text occurs in another that was written in two pieces.
use mathlib.Core.List.{append_assoc, append-nil, cons-eq-cons}
use otel_policy_lab.Prelude.{
  ℕ, zero, suc, ◌+◌, ◌-◌, ◌≡◌, ◌≤◌, ◌↔◌, inl, inr, refl, sym, ap, ap₂, ◌∙◌, leb, nat_eq_iff, true,
  ◌||◌, [], ◌∷◌, ◌++◌, Text, length, take, drop, length-drop, length-take, drop-append,
  drop-append_right, drop-drop, take-append-drop, arith, has_prefix, contains_text, Bool-cases,
}
use otel_policy_lab.Runner.PrivateBuffer.Bounded.{suffix}

-- `p` stands in `s` behind the first `n` bytes.
abbrev At : Text → ℕ → Text → Type 0
At p n s = take (length p) (drop n s) ≡ p

has_prefix_iff : (s p : Text) → (has_prefix s p ≡ true) ↔ (take (length p) s ≡ p)
unfolding has_prefix
has_prefix_iff s [] = (λ _. refl, λ _. refl)
has_prefix_iff [] (c ∷ p) = (λ e. cc, λ e. cc)
has_prefix_iff (d ∷ s) (c ∷ p) =
    let ih = has_prefix_iff s p in
    let same = nat_eq_iff d c in
    (
      λ e. ap₂ ◌∷◌ (same.0 (ground arith)) (ih.0 (ground arith)),
      λ e. let q = cons-eq-cons.0 e in rw (same.1 q.0, ih.1 q.1),
    )

At-contains : (s p : Text) → contains_text s p ≡ true → (n : ℕ) × At p n s
unfolding contains_text
At-contains [] p h = (0, (has_prefix_iff [] p).0 h)
At-contains (c ∷ s) p h = elim (Bool-cases (has_prefix (c ∷ s) p)) [
  | inl e ↦ (0, (has_prefix_iff (c ∷ s) p).0 e)
  | inr e ↦ let (n, q) = At-contains s p (rw e at h) in (suc n, q)
]

contains-At : (n : ℕ) (s p : Text) → At p n s → contains_text s p ≡ true
unfolding contains_text
contains-At zero [] p h = (has_prefix_iff [] p).1 h
contains-At zero (c ∷ s) p h = rw ((has_prefix_iff (c ∷ s) p).1 h) refl
contains-At (suc n) [] p h = (has_prefix_iff [] p).1 h
contains-At (suc n) (c ∷ s) p h = let q = contains-At n s p h in ground arith

take-append_left : (m : ℕ) (xs ys : Text) → m ≤ length xs → take m (xs ++ ys) ≡ take m xs
take-append_left zero xs ys h = refl
take-append_left (suc m) [] ys h = absurd (omega arith)
take-append_left (suc m) (x ∷ xs) ys h = ap (λ r. x ∷ r) (take-append_left m xs ys (omega arith))

-- Only the first bytes of what follows matter.
take-append-take :
    (m k : ℕ) (xs ys : Text) → m ≤ length xs + k → take m (xs ++ take k ys) ≡ take m (xs ++ ys)
take-append-take zero k xs ys h = refl
take-append-take (suc m) k (x ∷ xs) ys h =
    ap (λ r. x ∷ r) (take-append-take m k xs ys (omega arith))
take-append-take (suc m) zero [] ys h = absurd (omega arith)
take-append-take (suc m) (suc k) [] [] h = refl
take-append-take (suc m) (suc k) [] (y ∷ ys) h =
    ap (λ r. y ∷ r) (take-append-take m k [] ys (omega arith))

-- What stands in the middle of a text stands in the text.
contains-infix :
    (p u x y : Text)
    → 1 ≤ length p
    → contains_text u p ≡ true
    → contains_text (x ++ (u ++ y)) p ≡ true
contains-infix p u x y h c =
    let (n, q) = At-contains u p c in
    let room : length p ≤ length u - n =
      omega (arith, length-take (length p) (drop n u), length-drop n u, ap length q) in
    let inside : At p n (u ++ y) =
      ap (take (length p)) (drop-append n u y (omega (arith, room)))
      ∙ take-append_left (length p) (drop n u) y (omega (arith, room, length-drop n u))
      ∙ q in
    contains-At (length x + n) (x ++ (u ++ y)) p (
      ap (take (length p)) (
        drop-append_right (length x + n) x (u ++ y) (omega arith)
        ∙ ap (λ k. drop k (u ++ y)) (let e : length x + n - length x ≡ n = omega arith in e))
      ∙ inside)

-- A short text that stands across the border of `s` and `t` stands in the seam.
At-seam :
    (p s t : Text) (k n : ℕ)
    → length p ≤ suc k
    → suc (length s) ≤ n + length p
    → suc n ≤ length s
    → At p n (s ++ t)
    → At p (n - (length s - k)) (suffix k s ++ take k t)
At-seam p s t k n h border inside q =
    let j = length s - k in
    let start : j + (n - j) ≡ n = omega arith in
    let front : drop (n - j) (suffix k s ++ take k t) ≡ drop n s ++ take k t =
      drop-append (n - j) (suffix k s) (take k t) (omega (arith, length-drop j s))
      ∙ ap (λ r. r ++ take k t) (drop-drop (n - j) j s ∙ ap (λ i. drop i s) start) in
    ap (take (length p)) front
    ∙ take-append-take (length p) k (drop n s) t (omega (arith, length-drop n s))
    ∙ ap (take (length p)) (sym (drop-append n s t (omega arith)))
    ∙ q

-- A short text that stands in `s ++ t` stands in one of them or in the seam.
contains-seam :
    (p s t : Text) (k : ℕ)
    → length p ≤ suc k
    → contains_text (s ++ t) p ≡ true
    → (contains_text s p || (contains_text t p || contains_text (suffix k s ++ take k t) p)) ≡ true
contains-seam p s t k h c =
    let (n, q) = At-contains (s ++ t) p c in
    elim (Bool-cases (leb (n + length p) (length s))) [
      | inl e ↦
          (let room : length p ≤ length (drop n s) = ground (arith, e, length-drop n s) in
            let m : contains_text s p ≡ true = contains-At n s p (
              sym (take-append_left (length p) (drop n s) t room)
              ∙ ap (take (length p)) (sym (drop-append n s t (ground (arith, e))))
              ∙ q) in
            ground (arith, m))
      | inr e ↦ elim (Bool-cases (leb (length s) n)) [
        | inl f ↦
            (let m : contains_text t p ≡ true =
                contains-At (n - length s) t p
                  (ap (take (length p)) (sym (drop-append_right n s t (ground (arith, f)))) ∙ q) in
              ground (arith, m))
        | inr f ↦
            (let m : contains_text (suffix k s ++ take k t) p ≡ true =
                contains-At (n - (length s - k)) (suffix k s ++ take k t) p
                  (At-seam p s t k n h (ground (arith, e)) (ground (arith, f)) q) in
              ground (arith, m))
      ]
    ]

pieces :
    (s t : Text) (k : ℕ) → take (length s - k) s ++ ((suffix k s ++ take k t) ++ drop k t) ≡ s ++ t
pieces s t k =
    ap (λ r. take (length s - k) s ++ r) (append_assoc (suffix k s) (take k t) (drop k t))
    ∙ sym (append_assoc (take (length s - k) s) (suffix k s) (take k t ++ drop k t))
    ∙ ap₂ ◌++◌ (take-append-drop (length s - k) s) (take-append-drop k t)

seam-contains :
    (p s t : Text) (k : ℕ)
    → 1 ≤ length p
    → (contains_text s p || (contains_text t p || contains_text (suffix k s ++ take k t) p)) ≡ true
    → contains_text (s ++ t) p ≡ true
seam-contains p s t k h c = elim (Bool-cases (contains_text s p)) [
  | inl e ↦ contains-infix p s [] t h e
  | inr e ↦ elim (Bool-cases (contains_text t p)) [
    | inl f ↦
        (let whole : s ++ (t ++ []) ≡ s ++ t = ap (λ r. s ++ r) (append-nil t) in
          ap (λ r. contains_text r p) (sym whole) ∙ contains-infix p t s [] h f)
    | inr f ↦
        ap (λ r. contains_text r p) (sym (pieces s t k))
        ∙ contains-infix p (suffix k s ++ take k t) (take (length s - k) s) (drop k t) h
            (ground (arith, e, f))
  ]
]

-- A text of at most `k + 1` bytes stands in `s ++ t` exactly if it stands in `s`, in `t`, or where
-- the last `k` bytes of `s` meet the first `k` bytes of `t`.
pub contains-append :
    (p s t : Text) (k : ℕ)
    → 1 ≤ length p
    → length p ≤ suc k
    → contains_text (s ++ t) p
      ≡ (contains_text s p || (contains_text t p || contains_text (suffix k s ++ take k t) p))
contains-append p s t k h h' =
    let there = contains-seam p s t k h' in
    let back = seam-contains p s t k h in
    elim (Bool-cases (contains_text (s ++ t) p)) [
      | inl e ↦ e ∙ sym (there e)
      | inr e ↦ ground (arith, e, back)
    ]
