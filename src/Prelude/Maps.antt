-- ===== src/Prelude/Maps.antt =====
-- Go's maps as association lists. A map holds a key once; the order of the entries stands for the
-- order in which a `range` loop meets them, which Go leaves open.
use mathlib.Core.Path.{◌≡◌, refl, sym, ap, ◌∙◌}
use mathlib.Core.Logic.{inl, inr}
use mathlib.Core.Bool.{Bool, true, false, ◌||◌}
use mathlib.Core.Option.{Option, none, some}
use mathlib.Core.List.{List, [], ◌∷◌, ◌++◌}
use native.Mathlib.Omega.{arith}
use otel_policy_lab.Prelude.Tests.{is_some, if◌then◌else◌, Bool-cases, ◌==◌, Eq}

abbrev pub Map {ℓ κ} : Type ℓ → Type κ → Type (ℓ ⊔ κ)
Map K V = List (K × V)

module _ {ℓ} {K : Type ℓ} ⦃e : Eq K⦄ where
  -- Is `k` one of the texts, or one of the keys of a set?
  unfoldable pub contains : List K → K → Bool
  contains [] k = false
  contains (x ∷ xs) k = x == k || contains xs k

  -- `seen[k] = struct{}{}` on a set, which keeps a key once.
  unfoldable pub add : List K → K → List K
  unfolding contains
  add xs k = if contains xs k then xs else xs ++ k ∷ []

  -- A set holds each key once.
  abbrev pub IsUnique : List K → Type 0
  IsUnique [] = Unit
  IsUnique (x ∷ xs) = (contains xs x ≡ false) × IsUnique xs

  pub contains-append :
      (xs ys : List K) (k : K) → contains (xs ++ ys) k ≡ (contains xs k || contains ys k)
  unfolding contains
  contains-append [] ys k = refl
  contains-append (x ∷ xs) ys k = ground (arith, contains-append xs ys k)

  pub contains-add : (xs : List K) (j k : K) → contains (add xs j) k ≡ (contains xs k || j == k)
  unfolding add contains
  contains-add xs j k = elim (Bool-cases (contains xs j)) [
    | inl h ↦ rw h (elim (Bool-cases (j == k)) [
      | inl q ↦
          let x : contains xs k ≡ true = ap (contains xs) (sym ((e.beq_iff j k).0 q)) ∙ h in
          rw (x) refl
      | inr q ↦ rw q (ground arith)
    ])
    | inr h ↦ rw h (contains-append xs (j ∷ []) k ∙ ground arith)
  ]

  IsUnique-append :
      (xs : List K) (k : K) → IsUnique xs → contains xs k ≡ false → IsUnique (xs ++ k ∷ [])
  unfolding contains
  IsUnique-append [] k u h = (refl, tt)
  IsUnique-append (x ∷ xs) k u h = (
    contains-append xs (k ∷ []) x ∙ ground (arith, e.beq_iff x k, e.beq_iff k x),
    IsUnique-append xs k u.1 (ground arith),
  )

  pub IsUnique-add : (xs : List K) (k : K) → IsUnique xs → IsUnique (add xs k)
  unfolding add
  IsUnique-add xs k u = elim (Bool-cases (contains xs k)) [
    | inl h ↦ rw h u
    | inr h ↦ rw h (IsUnique-append xs k u h)
  ]

module _ {ℓ κ} {K : Type ℓ} {V : Type κ} ⦃e : Eq K⦄ where
  -- `m[k]`, with `none` for a missing key
  unfoldable pub lookup : Map K V → K → Option V
  lookup [] k = none
  lookup ((j, v) ∷ m) k = if j == k then some v else lookup m k

  -- `_, ok := m[k]`
  unfoldable pub has_key : Map K V → K → Bool
  has_key [] k = false
  has_key ((j, v) ∷ m) k = j == k || has_key m k

  -- `m[k] = v`
  unfoldable pub insert : Map K V → K → V → Map K V
  insert [] k v = (k, v) ∷ []
  insert ((j, w) ∷ m) k v = if j == k then (k, v) ∷ m else (j, w) ∷ insert m k v

  unfoldable pub keys : Map K V → List K
  keys [] = []
  keys ((k, v) ∷ m) = k ∷ keys m

  pub lookup-insert :
      (m : Map K V) (k j : K) (v : V)
      → lookup (insert m k v) j ≡ (if k == j then some v else lookup m j)
  unfolding lookup insert
  lookup-insert [] k j v = refl
  lookup-insert ((i, w) ∷ m) k j v =
      ground (arith, e.beq_iff i k, e.beq_iff k j, e.beq_iff i j, lookup-insert m k j v)

  pub has_key-insert :
      (m : Map K V) (k j : K) (v : V) → has_key (insert m k v) j ≡ (k == j || has_key m j)
  unfolding has_key insert
  has_key-insert [] k j v = refl
  has_key-insert ((i, w) ∷ m) k j v =
      ground (arith, e.beq_iff i k, e.beq_iff k j, e.beq_iff i j, has_key-insert m k j v)

  pub contains-keys : (m : Map K V) (k : K) → contains (keys m) k ≡ has_key m k
  unfolding contains keys has_key
  contains-keys [] k = refl
  contains-keys ((j, v) ∷ m) k = ground (arith, contains-keys m k)

  -- A map holds each key once.
  abbrev pub IsMap : Map K V → Type 0
  IsMap m = IsUnique (keys m)

  pub IsMap-insert : (m : Map K V) (k : K) (v : V) → IsMap m → IsMap (insert m k v)
  unfolding insert keys contains
  IsMap-insert [] k v u = (refl, tt)
  IsMap-insert ((j, w) ∷ m) k v u = elim (Bool-cases (j == k)) [
    | inl h ↦ rw h (rw ((e.beq_iff j k).0 h) at u)
    | inr h ↦ rw h (
      contains-keys (insert m k v) j
          ∙ has_key-insert m k j v
          ∙ ground (arith, e.beq_iff j k, e.beq_iff k j, contains-keys m j),
      IsMap-insert m k v u.1,
    )
  ]

  pub has_key-lookup : (m : Map K V) (k : K) → has_key m k ≡ is_some (lookup m k)
  unfolding has_key lookup
  has_key-lookup [] k = refl
  has_key-lookup ((j, v) ∷ m) k = elim (Bool-cases (j == k)) [
    | inl h ↦ rw h refl
    | inr h ↦ rw h (has_key-lookup m k)
  ]

  pub has_key-snoc :
      (m : Map K V) (k : K) (v : V) (j : K) → has_key (m ++ (k, v) ∷ []) j ≡ (has_key m j || k == j)
  unfolding has_key
  has_key-snoc [] k v j = ground arith
  has_key-snoc ((i, w) ∷ m) k v j = ground (arith, has_key-snoc m k v j)

  -- An entry that is appended is found where none was.
  pub lookup-snoc :
      (m : Map K V) (k : K) (v : V) (j : K)
      → lookup (m ++ (k, v) ∷ []) j
        ≡ (if is_some (lookup m j) then lookup m j else if k == j then some v else none)
  unfolding lookup
  lookup-snoc [] k v j = refl
  lookup-snoc ((i, w) ∷ m) k v j = elim (Bool-cases (i == j)) [
    | inl h ↦ rw h refl
    | inr h ↦ rw h (lookup-snoc m k v j)
  ]
