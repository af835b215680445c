-- ===== src/Prelude/Sort.antt =====
-- Sorting, as the code uses Go's `sort` package: the result is the stable sort of its argument.
-- `sort.Strings` and `sort.Slice` may order equal elements in any way; on the code's calls such
-- elements are equal texts, or the note at the call says what is left open.
use mathlib.Core.Path.{◌≡◌, refl, ap, ap₂, ◌∙◌}
use mathlib.Core.Logic.{inl, inr, ∥∥₁_elim}
use mathlib.Core.Bool.{Bool, true, false}
use mathlib.Core.List.{List, [], ◌∷◌, Perm, Permᴰ}
use mathlib.Core.List
use mathlib.Core.List.Perm
use native.Mathlib.Omega.{arith}
use otel_policy_lab.Prelude.Tests.{if◌then◌else◌, Bool-cases}
use otel_policy_lab.Prelude.Lists.{All}
use otel_policy_lab.Prelude.Strings.{
  Text, text_lt, text_lt_irrefl, text_lt_trans, text_lt_connected,
}

module _ {ℓ} {A : Type ℓ} (less : A → A → Bool) where
  -- In front of the first element that is not less than `a`.
  unfoldable pub place : A → List A → List A
  place a [] = a ∷ []
  place a (x ∷ xs) = if less x a then x ∷ place a xs else a ∷ x ∷ xs

  unfoldable pub sort_by : List A → List A
  unfolding place
  sort_by [] = []
  sort_by (x ∷ xs) = place x (sort_by xs)

  -- No element is less than one before it.
  abbrev pub IsSorted : List A → Type 0
  IsSorted [] = Unit
  IsSorted (x ∷ xs) = All (λ y. less y x ≡ false) xs × IsSorted xs

  place-perm : (a : A) (xs : List A) → Perm (place a xs) (a ∷ xs)
  unfolding place
  place-perm a [] = Perm.refl (a ∷ [])
  place-perm a (x ∷ xs) = elim (Bool-cases (less x a)) [
    | inl h ↦ rw h (Perm.trans (Perm.cons x (place-perm a xs)) (Perm.swap a x xs))
    | inr h ↦ rw h (Perm.refl (a ∷ x ∷ xs))
  ]

  pub sort_by-perm : (xs : List A) → Perm (sort_by xs) xs
  unfolding sort_by
  sort_by-perm [] = Perm.refl []
  sort_by-perm (x ∷ xs) = Perm.trans (place-perm x (sort_by xs)) (Perm.cons x (sort_by-perm xs))

-- A strict total order.
pub record IsTotal {ℓ} {A : Type ℓ} (less : A → A → Bool) : Type ℓ where
  pub irrefl : (a : A) → less a a ≡ false
  pub trans : (a b c : A) → less a b ≡ true → less b c ≡ true → less a c ≡ true
  pub connected : (a b : A) → less a b ≡ false → less b a ≡ false → a ≡ b

module _ {ℓ} {A : Type ℓ} (less : A → A → Bool) (o : IsTotal less) where
  not_less_trans : (a b c : A) → less b a ≡ false → less c b ≡ false → less c a ≡ false
  not_less_trans a b c h k = elim (Bool-cases (less c a)) [
    | inr e ↦ e
    | inl e ↦ ground (arith, o.trans b c a, o.connected b c)
  ]

  less_asymm : (a b : A) → less a b ≡ true → less b a ≡ false
  less_asymm a b h = ground (arith, o.trans a b a, o.irrefl a)

  not_less-All :
      (a b : A) (xs : List A)
      → less b a ≡ false
      → All (λ y. less y b ≡ false) xs
      → All (λ y. less y a ≡ false) xs
  not_less-All a b [] h k = tt
  not_less-All a b (x ∷ xs) h k = (not_less_trans a b x h k.0, not_less-All a b xs h k.1)

  place_above :
      (b a : A) (xs : List A)
      → less a b ≡ false
      → All (λ y. less y b ≡ false) xs
      → All (λ y. less y b ≡ false) (place less a xs)
  unfolding place
  place_above b a [] h k = (h, tt)
  place_above b a (x ∷ xs) h k = elim (Bool-cases (less x a)) [
    | inl e ↦ rw e (k.0, place_above b a xs h k.1)
    | inr e ↦ rw e (h, k)
  ]

  place-IsSorted : (a : A) (xs : List A) → IsSorted less xs → IsSorted less (place less a xs)
  unfolding place
  place-IsSorted a [] s = (tt, tt)
  place-IsSorted a (x ∷ xs) s = elim (Bool-cases (less x a)) [
    | inl e ↦ rw e (place_above x a xs (less_asymm x a e) s.0, place-IsSorted a xs s.1)
    | inr e ↦ rw e ((e, not_less-All a x xs e s.0), s)
  ]

  pub sort_by-IsSorted : (xs : List A) → IsSorted less (sort_by less xs)
  unfolding sort_by
  sort_by-IsSorted [] = tt
  sort_by-IsSorted (x ∷ xs) = place-IsSorted x (sort_by less xs) (sort_by-IsSorted xs)

  place-place :
      (a b : A) (xs : List A) → place less a (place less b xs) ≡ place less b (place less a xs)
  unfolding place
  place-place a b [] = ground (arith, o.trans a b a, o.irrefl a, o.connected a b)
  place-place a b (x ∷ xs) =
      ground
        (arith, place-place a b xs, less_asymm a b, o.connected a b, o.trans x a b, o.trans x b a)

  permᴰ-sort_by : {xs ys : List A} → Permᴰ xs ys → sort_by less xs ≡ sort_by less ys
  unfolding sort_by
  permᴰ-sort_by Permᴰ.nil = refl
  permᴰ-sort_by (Permᴰ.cons e p) = ap₂ (place less) e (permᴰ-sort_by p)
  permᴰ-sort_by (Permᴰ.swap {a = a} {b = b} {l = l} e f) =
      place-place a b (sort_by less l)
      ∙ ap₂ (place less) f (ap (λ x. place less x (sort_by less l)) e)
  permᴰ-sort_by (Permᴰ.trans p q) = permᴰ-sort_by p ∙ permᴰ-sort_by q

  -- The sorted list does not depend on the order in which the elements came.
  pub perm-sort_by : IsSet A → (xs ys : List A) → Perm xs ys → sort_by less xs ≡ sort_by less ys
  perm-sort_by s xs ys p = ∥∥₁_elim p (List.is_set s _ _) permᴰ-sort_by

abbrev pub text_IsTotal : IsTotal text_lt
text_IsTotal = record {
  irrefl = text_lt_irrefl;
  trans = text_lt_trans;
  connected = text_lt_connected;
}

-- `sort.Strings`
unfoldable pub sort_texts : List Text → List Text
unfolding sort_by text_lt
sort_texts = sort_by text_lt

pub sort_texts-perm : (xs : List Text) → Perm (sort_texts xs) xs
unfolding sort_texts
sort_texts-perm xs = sort_by-perm text_lt xs

pub sort_texts-IsSorted : (xs : List Text) → IsSorted text_lt (sort_texts xs)
unfolding sort_texts
sort_texts-IsSorted xs = sort_by-IsSorted text_lt text_IsTotal xs

Text-set : IsSet Text
Text-set = hlevel

pub perm-sort_texts : (xs ys : List Text) → Perm xs ys → sort_texts xs ≡ sort_texts ys
unfolding sort_texts
perm-sort_texts xs ys p = perm-sort_by text_lt text_IsTotal Text-set xs ys p
