-- ===== src/Runner/Fixture/Accounts.antt =====
-- A processor that is applied is reported, and what was reported stays.
use otel_policy_lab.Prelude.{
  ◌≡◌, ◌⊎◌, inl, inr, refl, Bool, true, false, ◌||◌, List, [], ◌∷◌, ◌++◌, Option, none, some, Text,
  codes, text_Eq, ◌==◌, lookup, contains, arith, if◌then◌else◌, text_eq_iff,
}
use otel_policy_lab.Library.{Library}
use otel_policy_lab.Runner.Fixture.Config.{Fields, CollectorConfig}
use otel_policy_lab.Runner.Fixture.{
  ApplyResult, give_up, simulate, apply_debug_log_filter, apply_attributes, apply_filter,
  apply_processor, apply_named,
}

-- `name` is reported in `after`, which reports all that `r` does.
pub Reported : Text → ApplyResult → ApplyResult → Type 0
Reported name r after =
    ((after.simulated ≡ r.simulated ++ name ∷ []) × (after.unsupported ≡ r.unsupported))
    ⊎ ((after.simulated ≡ r.simulated) × (after.unsupported ≡ r.unsupported ++ name ∷ []))

if-Reported :
    (b : Bool) (name : Text) (r x y : ApplyResult)
    → Reported name r x
    → Reported name r y
    → Reported name r (if b then x else y)
if-Reported true name r x y h k = h
if-Reported false name r x y h k = k

option-Reported :
    (o : Option Fields) (name : Text) (r x : ApplyResult) (f : Fields → ApplyResult)
    → Reported name r x
    → ((p : Fields) → Reported name r (f p))
    → Reported name r (let y : ApplyResult = elim o [ none ↦ x | some p ↦ f p ] in y)
option-Reported none name r x f h k = h
option-Reported (some p) name r x f h k = k p

simulate-Reported : (name : Text) (r : ApplyResult) → Reported name r (simulate name r)
unfolding Reported
simulate-Reported name r = inl (refl, refl)

give_up-Reported : (name why : Text) (r : ApplyResult) → Reported name r (give_up name why r)
unfolding Reported
give_up-Reported name why r = inr (refl, refl)

module _ (lib : Library) where
  apply_debug_log_filter-keeps :
      (r : ApplyResult)
      → ((apply_debug_log_filter lib r).simulated ≡ r.simulated)
        × ((apply_debug_log_filter lib r).unsupported ≡ r.unsupported)
  unfolding apply_debug_log_filter
  apply_debug_log_filter-keeps r = ground arith

  apply_attributes-Reported :
      (signal name : Text) (processor : Fields) (r : ApplyResult)
      → Reported name r (apply_attributes lib signal name processor r)
  unfolding apply_attributes Reported
  apply_attributes-Reported signal name processor r = ground arith

  apply_filter-Reported :
      (signal name : Text) (processor : Fields) (r : ApplyResult)
      → Reported name r (apply_filter lib signal name processor r)
  unfolding apply_filter Reported
  apply_filter-Reported signal name processor r = ground (arith, apply_debug_log_filter-keeps r)

  apply_processor-Reported :
      (signal name : Text) (processor : Fields) (r : ApplyResult)
      → Reported name r (apply_processor lib signal name processor r)
  unfolding apply_processor
  apply_processor-Reported signal name processor r =
      if-Reported _ name r _ _ (simulate-Reported name r) (
        if-Reported _ name r _ _ (apply_attributes-Reported signal name processor r) (
          if-Reported _ name r _ _ (apply_filter-Reported signal name processor r)
            (give_up-Reported name _ r)))

  pub apply_named-Reported :
      (cfg : CollectorConfig) (signal name : Text) (r : ApplyResult)
      → Reported name r (apply_named lib cfg signal name r)
  unfolding apply_named
  apply_named-Reported cfg signal name r =
      option-Reported (lookup cfg.processors name) name r
        (give_up name (codes "collector pipeline references undefined processor " ++ name) r)
        (λ processor. apply_processor lib signal name processor r) (give_up-Reported name _ r)
        (λ processor. apply_processor-Reported signal name processor r)

contains-snoc :
    (xs : List Text) (y k : Text) → contains (xs ++ y ∷ []) k ≡ (contains xs k || y == k)
unfolding contains
contains-snoc [] y k = ground arith
contains-snoc (x ∷ xs) y k = ground (arith, contains-snoc xs y k)

-- Is `name` among the simulated or the unsupported processors?
abbrev pub is_reported : ApplyResult → Text → Bool
is_reported r name = contains r.simulated name || contains r.unsupported name

pub Reported-there :
    (name : Text) (r after : ApplyResult) → Reported name r after → is_reported after name ≡ true
unfolding Reported
Reported-there name r after (inl h) =
    rw (h.0, h.1)
      (ground (arith, contains-snoc r.simulated name name, (text_eq_iff name name).1 refl))
Reported-there name r after (inr h) =
    rw (h.0, h.1)
      (ground (arith, contains-snoc r.unsupported name name, (text_eq_iff name name).1 refl))

pub Reported-keeps :
    (name : Text) (r after : ApplyResult) (k : Text)
    → Reported name r after
    → is_reported r k ≡ true
    → is_reported after k ≡ true
unfolding Reported
Reported-keeps name r after k (inl h) q =
    rw (h.0, h.1) (ground (arith, q, contains-snoc r.simulated name k))
Reported-keeps name r after k (inr h) q =
    rw (h.0, h.1) (ground (arith, q, contains-snoc r.unsupported name k))
