-- ===== src/Evaluator/Required/Sound.antt =====
-- The check of required resource attributes, against the records themselves.
use otel_policy_lab.Prelude.{
  ℕ, suc, ◌+◌, ◌≤◌, ◌≡◌, refl, ◌∙◌, ◌↔◌, List, [], ◌∷◌, true, false, Text, text_Eq, nat_Eq, Map,
  lookup, insert, lookup-insert, has_key, keep, contains, IsUnique, length, length-append, All,
  ◌==◌, if◌then◌else◌, arith, text_eq_iff,
}
use otel_policy_lab.Telemetry.{Attributes}
use otel_policy_lab.Evaluator.Required.{
  RequiredResourceCheck, count_at, missing_in, count_missing, note_record, check_records,
  check_required_resource_attributes,
}

-- The record holds every required name.
abbrev pub HasAll : List Text → Attributes → Type 0
HasAll required attrs = All (λ req. has_key attrs req ≡ true) required

missing_in-nil :
    (required : List Text) (attrs : Attributes)
    → (missing_in required attrs ≡ []) ↔ HasAll required attrs
unfolding missing_in keep
missing_in-nil [] attrs = (λ _. tt, λ _. refl)
missing_in-nil (req ∷ required) attrs = ground (arith, missing_in-nil required attrs)

failed-note_record :
    (i : ℕ) (missing : List Text) (c : RequiredResourceCheck)
    → ((note_record i missing c).failed ≡ false) ↔ ((missing ≡ []) × (c.failed ≡ false))
unfolding note_record
failed-note_record i [] c = ground arith
failed-note_record i (req ∷ missing) c = ground arith

failed-check_records :
    (required : List Text) (i : ℕ) (records : List Attributes) (c : RequiredResourceCheck)
    → ((check_records required i records c).failed ≡ false)
      ↔ (All (HasAll required) records × (c.failed ≡ false))
unfolding check_records
failed-check_records required i [] c = (λ h. (tt, h), λ h. h.1)
failed-check_records required i (attrs ∷ rest) c =
    let ih =
      failed-check_records required (suc i) rest (note_record i (missing_in required attrs) c) in
    let st = failed-note_record i (missing_in required attrs) c in
    let mi = missing_in-nil required attrs in
    (
      λ h. let (a, f) = ih.0 h in let (m, g) = st.0 f in ((mi.0 m, a), g),
      λ h. ih.1 (h.0.1, st.1 (mi.1 h.0.0, h.1)),
    )

-- The check of required attributes does not fail exactly if there is a record and every record
-- has every required name.
pub check_required_resource_attributes_iff :
    (required : List Text) (records : List Attributes)
    → ((check_required_resource_attributes required records).failed ≡ false)
      ↔ ((1 ≤ length records) × All (HasAll required) records)
unfolding check_required_resource_attributes
check_required_resource_attributes_iff required [] = (λ h. cc, λ h. absurd (omega arith))
check_required_resource_attributes_iff required (attrs ∷ rest) =
    let f = failed-check_records required 0 (attrs ∷ rest) (record {
      failed = false;
      total_records = length (attrs ∷ rest);
      missing_counts = [];
      examples = [];
    }) in
    (λ h. (omega arith, (f.0 h).0), λ h. f.1 (h.1, refl))

-- The number of records that lack `req`.
abbrev pub lacking : Text → List Attributes → ℕ
lacking req [] = 0
lacking req (attrs ∷ rest) = (if has_key attrs req then 0 else 1) + lacking req rest

abbrev occurrences : Text → List Text → ℕ
occurrences k [] = 0
occurrences k (j ∷ js) = (if j == k then 1 else 0) + occurrences k js

count_at-insert :
    (counts : Map Text ℕ) (j k : Text) (n : ℕ)
    → count_at (insert counts j n) k ≡ (if j == k then n else count_at counts k)
unfolding count_at
count_at-insert counts j k n = ground (arith, lookup-insert counts j k n)

count_at-count_missing :
    (counts : Map Text ℕ) (missing : List Text) (k : Text)
    → count_at (count_missing counts missing) k ≡ count_at counts k + occurrences k missing
unfolding count_missing
count_at-count_missing counts [] k = omega arith
count_at-count_missing counts (j ∷ js) k = ground (
  arith,
  count_at-count_missing (insert counts j (count_at counts j + 1)) js k,
  count_at-insert counts j k (count_at counts j + 1),
  text_eq_iff j k,
)

occurrences-none : (k : Text) (js : List Text) → contains js k ≡ false → occurrences k js ≡ 0
unfolding contains
occurrences-none k [] h = refl
occurrences-none k (j ∷ js) h = ground (arith, occurrences-none k js)

contains-missing_in :
    (required : List Text) (attrs : Attributes) (k : Text)
    → contains required k ≡ false
    → contains (missing_in required attrs) k ≡ false
unfolding missing_in keep contains
contains-missing_in [] attrs k h = refl
contains-missing_in (j ∷ js) attrs k h = ground (arith, contains-missing_in js attrs k)

occurrences-missing_in :
    (required : List Text) (attrs : Attributes) (k : Text)
    → IsUnique required
    → contains required k ≡ true
    → occurrences k (missing_in required attrs) ≡ (if has_key attrs k then 0 else 1)
unfolding missing_in keep contains
occurrences-missing_in [] attrs k u h = cc
occurrences-missing_in (j ∷ js) attrs k u h = ground (
  arith,
  occurrences-missing_in js attrs k u.1,
  contains-missing_in js attrs j u.0,
  occurrences-none j (missing_in js attrs),
  text_eq_iff j k,
)

count_at-note_record :
    (i : ℕ) (missing : List Text) (c : RequiredResourceCheck) (k : Text)
    → count_at (note_record i missing c).missing_counts k
      ≡ count_at c.missing_counts k + occurrences k missing
unfolding note_record
count_at-note_record i [] c k = omega arith
count_at-note_record i (j ∷ js) c k = count_at-count_missing c.missing_counts (j ∷ js) k

count_at-check_records :
    (required : List Text) (i : ℕ) (records : List Attributes) (c : RequiredResourceCheck)
    (k : Text)
    → IsUnique required
    → contains required k ≡ true
    → count_at (check_records required i records c).missing_counts k
      ≡ count_at c.missing_counts k + lacking k records
unfolding check_records
count_at-check_records required i [] c k u h = omega arith
count_at-check_records required i (attrs ∷ rest) c k u h = omega (
  arith,
  count_at-check_records required (suc i) rest (note_record i (missing_in required attrs) c) k u h,
  count_at-note_record i (missing_in required attrs) c k,
  occurrences-missing_in required attrs k u h,
)

-- If no name is required twice and there is a record, the count that is reported for a required
-- name is the number of records that lack it.
pub count_at-check :
    (required : List Text) (attrs : Attributes) (rest : List Attributes) (k : Text)
    → IsUnique required
    → contains required k ≡ true
    → count_at (check_required_resource_attributes required (attrs ∷ rest)).missing_counts k
      ≡ lacking k (attrs ∷ rest)
unfolding check_required_resource_attributes
count_at-check required attrs rest k u h =
    count_at-check_records required 0 (attrs ∷ rest) _ k u h
    ∙ (unfold count_at lookup in omega arith)

examples-note_record :
    (i : ℕ) (missing : List Text) (c : RequiredResourceCheck)
    → length c.examples ≤ 3
    → length (note_record i missing c).examples ≤ 3
unfolding note_record
examples-note_record i [] c h = h
examples-note_record i (j ∷ js) c h =
    ground (arith, length-append c.examples (record { index = i; missing = j ∷ js } ∷ []))

examples-check_records :
    (required : List Text) (i : ℕ) (records : List Attributes) (c : RequiredResourceCheck)
    → length c.examples ≤ 3
    → length (check_records required i records c).examples ≤ 3
unfolding check_records
examples-check_records required i [] c h = h
examples-check_records required i (attrs ∷ rest) c h =
    examples-check_records required (suc i) rest (note_record i (missing_in required attrs) c)
      (examples-note_record i (missing_in required attrs) c h)

-- At most three records are given as examples.
pub examples-check :
    (required : List Text) (records : List Attributes)
    → length (check_required_resource_attributes required records).examples ≤ 3
unfolding check_required_resource_attributes
examples-check required [] = omega arith
examples-check required (attrs ∷ rest) =
    examples-check_records required 0 (attrs ∷ rest) _ (omega arith)
