-- ===== src/Prelude/Sets.antt =====
-- Sorting keeps what a set holds, and a list sorted by a key has its keys sorted.
use Prim.Native.Nat.{suc}
use mathlib.Core.Path.{◌≡◌, refl, sym, ap, ◌∙◌}
use mathlib.Core.Logic.{inl, inr}
use mathlib.Core.Bool.{Bool, false, ◌||◌}
use mathlib.Core.List.{List, [], ◌∷◌, map, Perm}
use mathlib.Core.List.Perm
use native.Mathlib.Omega.{arith}
use otel_policy_lab.Prelude.Tests.{Bool-cases, ◌==◌, Eq}
use otel_policy_lab.Prelude.Lists.{length}
use otel_policy_lab.Prelude.Strings.{Text, text_lt, text_Eq}
use otel_policy_lab.Prelude.Sort.{place, sort_by, sort_texts, perm-sort_texts}
use otel_policy_lab.Prelude.Maps.{contains, IsUnique}

module _ {ℓ} {A : Type ℓ} (less : A → A → Bool) where
  length-place : (a : A) (xs : List A) → length (place less a xs) ≡ suc (length xs)
  unfolding place
  length-place a [] = refl
  length-place a (x ∷ xs) = ground (arith, length-place a xs)

  pub length-sort_by : (xs : List A) → length (sort_by less xs) ≡ length xs
  unfolding sort_by
  length-sort_by [] = refl
  length-sort_by (x ∷ xs) = length-place x (sort_by less xs) ∙ ap suc (length-sort_by xs)

module _ {ℓ} {A : Type ℓ} ⦃e : Eq A⦄ (less : A → A → Bool) where
  contains-place :
      (a : A) (xs : List A) (k : A) → contains (place less a xs) k ≡ (a == k || contains xs k)
  unfolding place contains
  contains-place a [] k = refl
  contains-place a (x ∷ xs) k = ground (arith, contains-place a xs k)

  pub contains-sort_by : (xs : List A) (k : A) → contains (sort_by less xs) k ≡ contains xs k
  unfolding sort_by contains
  contains-sort_by [] k = refl
  contains-sort_by (x ∷ xs) k =
      ground (arith, contains-place x (sort_by less xs) k, contains-sort_by xs k)

  IsUnique-place :
      (a : A) (xs : List A) → contains xs a ≡ false → IsUnique xs → IsUnique (place less a xs)
  unfolding place contains
  IsUnique-place a [] h u = (refl, tt)
  IsUnique-place a (x ∷ xs) h u = elim (Bool-cases (less x a)) [
    | inl q ↦ rw q (
      contains-place a xs x ∙ ground (arith, e.beq_iff a x, e.beq_iff x a),
      IsUnique-place a xs (ground arith) u.1,
    )
    | inr q ↦ rw q (h, u)
  ]

  pub IsUnique-sort_by : (xs : List A) → IsUnique xs → IsUnique (sort_by less xs)
  unfolding sort_by
  IsUnique-sort_by [] u = tt
  IsUnique-sort_by (x ∷ xs) u =
      IsUnique-place x (sort_by less xs) (contains-sort_by xs x ∙ u.0) (IsUnique-sort_by xs u.1)

pub length-sort_texts : (xs : List Text) → length (sort_texts xs) ≡ length xs
unfolding sort_texts
length-sort_texts xs = length-sort_by text_lt xs

pub contains-sort_texts : (xs : List Text) (k : Text) → contains (sort_texts xs) k ≡ contains xs k
unfolding sort_texts
contains-sort_texts xs k = contains-sort_by text_lt xs k

pub IsUnique-sort_texts : (xs : List Text) → IsUnique xs → IsUnique (sort_texts xs)
unfolding sort_texts
IsUnique-sort_texts xs u = IsUnique-sort_by text_lt xs u

-- Sorting by a text that is computed from the element.
module _ {ℓ} {A : Type ℓ} (key : A → Text) where
  unfoldable pub sort_by_key : List A → List A
  unfolding sort_by
  sort_by_key = sort_by (λ a b. text_lt (key a) (key b))

  map-place :
      (a : A) (xs : List A)
      → map key (place (λ a b. text_lt (key a) (key b)) a xs) ≡ place text_lt (key a) (map key xs)
  unfolding place
  map-place a [] = refl
  map-place a (x ∷ xs) = ground (arith, map-place a xs)

  pub map-sort_by_key : (xs : List A) → map key (sort_by_key xs) ≡ sort_texts (map key xs)
  unfolding sort_by_key sort_texts
  map-sort_by_key [] = refl
  map-sort_by_key (x ∷ xs) =
      map-place x (sort_by_key xs) ∙ ap (place text_lt (key x)) (map-sort_by_key xs)

  -- The keys of the sorted list do not depend on the order of the elements.
  pub perm-sort_by_key :
      (xs ys : List A) → Perm xs ys → map key (sort_by_key xs) ≡ map key (sort_by_key ys)
  perm-sort_by_key xs ys p =
      map-sort_by_key xs
      ∙ perm-sort_texts (map key xs) (map key ys) (Perm.map key p)
      ∙ sym (map-sort_by_key ys)

-- The texts that `key` gives to the elements, with and without sorting.
module _ {ℓ} {A : Type ℓ} (key : A → Text) (less : A → A → Bool) where
  contains-map-place :
      (a : A) (xs : List A) (k : Text)
      → contains (map key (place less a xs)) k ≡ (key a == k || contains (map key xs) k)
  unfolding place contains
  contains-map-place a [] k = refl
  contains-map-place a (x ∷ xs) k = ground (arith, contains-map-place a xs k)

  pub contains-map-sort_by :
      (xs : List A) (k : Text) → contains (map key (sort_by less xs)) k ≡ contains (map key xs) k
  unfolding sort_by contains
  contains-map-sort_by [] k = refl
  contains-map-sort_by (x ∷ xs) k =
      ground (arith, contains-map-place x (sort_by less xs) k, contains-map-sort_by xs k)

  IsUnique-map-place :
      (a : A) (xs : List A)
      → contains (map key xs) (key a) ≡ false
      → IsUnique (map key xs)
      → IsUnique (map key (place less a xs))
  unfolding place contains
  IsUnique-map-place a [] h u = (refl, tt)
  IsUnique-map-place a (x ∷ xs) h u = elim (Bool-cases (less x a)) [
    | inl q ↦ rw q (
      contains-map-place a xs (key x)
          ∙ ground (arith, text_Eq.beq_iff (key a) (key x), text_Eq.beq_iff (key x) (key a)),
      IsUnique-map-place a xs (ground arith) u.1,
    )
    | inr q ↦ rw q (h, u)
  ]

  pub IsUnique-map-sort_by :
      (xs : List A) → IsUnique (map key xs) → IsUnique (map key (sort_by less xs))
  unfolding sort_by
  IsUnique-map-sort_by [] u = tt
  IsUnique-map-sort_by (x ∷ xs) u =
      IsUnique-map-place x (sort_by less xs) (contains-map-sort_by xs (key x) ∙ u.0)
        (IsUnique-map-sort_by xs u.1)
