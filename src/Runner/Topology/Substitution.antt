-- ===== src/Runner/Topology/Substitution.antt =====
-- Which scalars hold a provider substitution, by the Collector's reading of dollar signs.
use otel_policy_lab.Prelude.{
  ℕ, ◌%◌, ◌≡◌, refl, ap, ◌∙◌, Bool, true, false, not, ◌&&◌, [], ◌∷◌, Text, nat_Eq, nat_eq_iff, ◌==◌,
  arith, Bool-cases, inl, inr, if◌then◌else◌,
}
use otel_policy_lab.Runner.Topology.Yaml.{dollars, brace_after_dollars}

-- From left to right: a dollar sign before another stands for a dollar sign, one before a brace
-- opens a substitution.
unfoldable pub opens_substitution : Text → Bool
opens_substitution [] = false
opens_substitution (c ∷ []) = false
opens_substitution (c ∷ d ∷ s) =
    let behind_both = opens_substitution s in
    let behind_first = opens_substitution (d ∷ s) in
    if c == b'$'
    then (if d == b'$' then behind_both else if d == b'{' then true else behind_first)
    else behind_first

opens-other :
    (c : ℕ) (s : Text) → (c == b'$') ≡ false → opens_substitution (c ∷ s) ≡ opens_substitution s
unfolding opens_substitution
opens-other c [] h = refl
opens-other c (d ∷ s) h = rw h refl

opens-dollar-dollar :
    (c : ℕ) (s : Text)
    → (c == b'$') ≡ true
    → opens_substitution (b'$' ∷ c ∷ s) ≡ opens_substitution s
unfolding opens_substitution
opens-dollar-dollar c s h = rw h refl

opens-dollar-brace :
    (c : ℕ) (s : Text) → (c == b'{') ≡ true → opens_substitution (b'$' ∷ c ∷ s) ≡ true
unfolding opens_substitution
opens-dollar-brace c s h = ground arith

opens-dollar-other :
    (c : ℕ) (s : Text)
    → (c == b'$') ≡ false
    → (c == b'{') ≡ false
    → opens_substitution (b'$' ∷ c ∷ s) ≡ opens_substitution s
unfolding opens_substitution
opens-dollar-other c s h k = rw (h, k) (opens-other c s h)

opens-dollar-nil : opens_substitution (b'$' ∷ []) ≡ false
unfolding opens_substitution
opens-dollar-nil = refl

-- The parity of the dollar signs before the next position.
odd_dollars : Text → Bool
odd_dollars back = dollars back % 2 == 1

odd_dollars-step :
    (c : ℕ) (back : Text) → odd_dollars (c ∷ back) ≡ (c == b'$' && not (odd_dollars back))
unfolding odd_dollars dollars
odd_dollars-step c back = ground arith

brace-step :
    (c : ℕ) (back s : Text)
    → brace_after_dollars back (c ∷ s)
      ≡ (if c == b'{' && odd_dollars back then true else brace_after_dollars (c ∷ back) s)
unfolding brace_after_dollars odd_dollars
brace-step c back s = refl

nothing_left : (back : Text) → brace_after_dollars back [] ≡ false
unfolding brace_after_dollars
nothing_left back = refl

opens-nil : opens_substitution [] ≡ false
unfolding opens_substitution
opens-nil = refl

-- Before each position, what is left reads as if the dollar sign that is open stood before it.
brace-from :
    (back s : Text)
    → brace_after_dollars back s
      ≡ (if odd_dollars back then opens_substitution (b'$' ∷ s) else opens_substitution s)
brace-from back [] = elim (Bool-cases (odd_dollars back)) [
  | inl e ↦ rw (e, opens-dollar-nil) (nothing_left back)
  | inr e ↦ rw (e, opens-nil) (nothing_left back)
]
brace-from back (c ∷ s) =
    let ih = brace-from (c ∷ back) s in
    let parity = odd_dollars-step c back in
    elim (Bool-cases (c == b'$')) [
      | inl e ↦
          (let same : opens_substitution (c ∷ s) ≡ opens_substitution (b'$' ∷ s) =
              ap (λ d. opens_substitution (d ∷ s)) ((nat_eq_iff c b'$').0 e) in
            ground (arith, brace-step c back s, ih, parity, e, same, opens-dollar-dollar c s e))
      | inr e ↦ ground (
        arith,
        brace-step c back s,
        ih,
        parity,
        e,
        opens-other c s e,
        opens-dollar-brace c s,
        opens-dollar-other c s e,
      )
    ]

-- The search for a brace after an odd number of dollars, which counts the dollars backwards from
-- each brace, finds one exactly if a reader from left to right, that takes two dollars together
-- as an escape, meets an open substitution.
pub brace_after_dollars-eq : (s : Text) → brace_after_dollars [] s ≡ opens_substitution s
brace_after_dollars-eq s = brace-from [] s ∙ unfold odd_dollars dollars in refl
