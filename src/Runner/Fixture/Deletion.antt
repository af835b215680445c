-- ===== src/Runner/Fixture/Deletion.antt =====
-- What the deletion of attributes leaves of a map.
use otel_policy_lab.Prelude.{
  ◌≡◌, refl, ap, List, [], ◌∷◌, none, Text, text_Eq, text_eq_iff, ◌==◌, lookup, contains, keep,
  arith, Bool-cases, inl, inr, if◌then◌else◌,
}
use otel_policy_lab.Telemetry.{Attributes}
use otel_policy_lab.Runner.Fixture.Edit.{without_keys}

-- After keys are deleted from a map, a key that was to be deleted has no value, and every other
-- key has the value that it had.
pub lookup-without_keys :
    (removed : List Text) (m : Attributes) (k : Text)
    → lookup (without_keys removed m) k ≡ (if contains removed k then none else lookup m k)
unfolding without_keys lookup keep
lookup-without_keys removed [] k = elim (Bool-cases (contains removed k)) [
  | inl e ↦ rw e refl
  | inr e ↦ rw e refl
]
lookup-without_keys removed ((j, v) ∷ m) k =
    let ih = lookup-without_keys removed m k in
    elim (Bool-cases (j == k)) [
      | inl e ↦
          (let same : contains removed j ≡ contains removed k =
              ap (contains removed) ((text_eq_iff j k).0 e) in
            ground (arith, ih, e, same))
      | inr e ↦ ground (arith, ih, e)
    ]
