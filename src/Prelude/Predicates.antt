-- ===== src/Prelude/Predicates.antt =====
-- Predicates on the elements of a list, and when a list that is built from parts is empty.
use Prim.Native.Nat.{ℕ, suc}
use mathlib.Core.Path.{◌≡◌, refl, sym, ap, subst}
use mathlib.Core.Logic.{◌↔◌, inl, inr}
use mathlib.Core.Bool.{Bool, true, false}
use mathlib.Core.List.{List, [], ◌∷◌, ◌++◌, map}
use native.Mathlib.Omega.{arith}
use otel_policy_lab.Prelude.Tests.{Bool-cases, ◌==◌, text_eq_iff}
use otel_policy_lab.Prelude.Lists.{All, In, any, keep, concat_map, concat_map_index}
use otel_policy_lab.Prelude.Strings.{Text, text_lt, text_Eq}
use otel_policy_lab.Prelude.Sort.{place, sort_by, sort_texts}
use otel_policy_lab.Prelude.Maps.{contains}

pub append-nil_iff : {A : Type 0} (xs ys : List A) → (xs ++ ys ≡ []) ↔ ((xs ≡ []) × (ys ≡ []))
append-nil_iff [] ys = (λ h. (refl, h), λ h. h.1)
append-nil_iff (x ∷ xs) ys = (λ h. cc, λ h. cc h.0)

pub iff_trans : {P Q R : Type 0} → P ↔ Q → Q ↔ R → P ↔ R
iff_trans f g = (λ p. g.0 (f.0 p), λ r. f.1 (g.1 r))

pub ×-iff : {P P' Q Q' : Type 0} → P ↔ P' → Q ↔ Q' → (P × Q) ↔ (P' × Q')
×-iff f g = (λ h. (f.0 h.0, g.0 h.1), λ h. (f.1 h.0, g.1 h.1))

module _ {A B : Type 0} where
  pub concat_map-nil :
      (f : A → List B) (xs : List A) → (concat_map f xs ≡ []) ↔ All (λ x. f x ≡ []) xs
  unfolding concat_map
  concat_map-nil f [] = (λ _. tt, λ _. refl)
  concat_map-nil f (x ∷ xs) =
      iff_trans (append-nil_iff (f x) (concat_map f xs))
        (×-iff (λ h. h, λ h. h) (concat_map-nil f xs))

  pub map-nil : (f : A → B) (xs : List A) → (map f xs ≡ []) ↔ (xs ≡ [])
  map-nil f [] = (λ _. refl, λ _. refl)
  map-nil f (x ∷ xs) = (λ h. cc, λ h. cc)

  -- `Q` says what it means that nothing was found in an element, whatever its index.
  pub concat_map_index-nil :
      (f : ℕ → A → List B) (Q : A → Type 0)
      → ((i : ℕ) (x : A) → (f i x ≡ []) ↔ Q x)
      → (i : ℕ) (xs : List A) → (concat_map_index i f xs ≡ []) ↔ All Q xs
  unfolding concat_map_index
  concat_map_index-nil f Q q i [] = (λ _. tt, λ _. refl)
  concat_map_index-nil f Q q i (x ∷ xs) =
      iff_trans (append-nil_iff (f i x) (concat_map_index (suc i) f xs))
        (×-iff (q i x) (concat_map_index-nil f Q q (suc i) xs))

pub keep-nil :
    {A : Type 0} (p : A → Bool) (xs : List A) → (keep p xs ≡ []) ↔ All (λ x. p x ≡ false) xs
unfolding keep
keep-nil p [] = (λ _. tt, λ _. refl)
keep-nil p (x ∷ xs) = ground (arith, keep-nil p xs)

module _ {A : Type 0} (P Q : A → Type 0) (h : (a : A) → P a ↔ Q a) where
  pub All-iff : (xs : List A) → All P xs ↔ All Q xs
  All-iff [] = (λ _. tt, λ _. tt)
  All-iff (x ∷ xs) =
      (λ a. ((h x).0 a.0, (All-iff xs).0 a.1), λ a. ((h x).1 a.0, (All-iff xs).1 a.1))

module _ {A : Type 0} (P : A → Type 0) (less : A → A → Bool) where
  All-place : (a : A) (xs : List A) → All P (place less a xs) ↔ (P a × All P xs)
  unfolding place
  All-place a [] = (λ h. h, λ h. h)
  All-place a (x ∷ xs) = elim (Bool-cases (less x a)) [
    | inl e ↦ rw e (
      λ h. let (ha, hs) = (All-place a xs).0 h.1 in (ha, (h.0, hs)),
      λ h. (h.1.0, (All-place a xs).1 (h.0, h.1.1)),
    )
    | inr e ↦ rw e (λ h. h, λ h. h)
  ]

  pub All-sort_by : (xs : List A) → All P (sort_by less xs) ↔ All P xs
  unfolding sort_by
  All-sort_by [] = (λ h. h, λ h. h)
  All-sort_by (x ∷ xs) = (
    λ h. let (hx, hs) = (All-place x (sort_by less xs)).0 h in (hx, (All-sort_by xs).0 hs),
    λ h. (All-place x (sort_by less xs)).1 (h.0, (All-sort_by xs).1 h.1),
  )

pub All-sort_texts : (P : Text → Type 0) (xs : List Text) → All P (sort_texts xs) ↔ All P xs
unfolding sort_texts
All-sort_texts P xs = All-sort_by P text_lt xs

pub All-intro : {A : Type 0} (P : A → Type 0) (xs : List A) → ((x : A) → In x xs → P x) → All P xs
All-intro P [] h = tt
All-intro P (x ∷ xs) h = (h x (inl refl), All-intro P xs (λ y m. h y (inr m)))

pub All-elim : {A : Type 0} (P : A → Type 0) (xs : List A) (x : A) → All P xs → In x xs → P x
All-elim P [] x a m = elim m [ ]
All-elim P (y ∷ ys) x a (inl e) = subst P (sym e) a.0
All-elim P (y ∷ ys) x a (inr m) = All-elim P ys x a.1 m

-- Membership as a test and as a statement.
pub In-contains : (xs : List Text) (k : Text) → contains xs k ≡ true → In k xs
unfolding contains
In-contains [] k h = cc
In-contains (x ∷ xs) k h = elim (Bool-cases (x == k)) [
  | inl e ↦ inl (sym ((text_eq_iff x k).0 e))
  | inr e ↦ inr (In-contains xs k (rw e at h))
]

pub contains_of_In : (xs : List Text) (k : Text) → In k xs → contains xs k ≡ true
unfolding contains
contains_of_In [] k m = elim m [ ]
contains_of_In (x ∷ xs) k (inl e) = ground (arith, text_eq_iff x k)
contains_of_In (x ∷ xs) k (inr m) = ground (arith, contains_of_In xs k m)

-- A passed test comes from an element, and an element that passes shows.
module _ {A : Type 0} (p : A → Bool) where
  pub In-any : (xs : List A) → any p xs ≡ true → (a : A) × In a xs × (p a ≡ true)
  unfolding any
  In-any [] h = cc
  In-any (x ∷ xs) h = elim (Bool-cases (p x)) [
    | inl e ↦ (x, inl refl, e)
    | inr e ↦ let (a, m, q) = In-any xs (rw e at h) in (a, inr m, q)
  ]

  pub any_of_In : (xs : List A) (a : A) → In a xs → p a ≡ true → any p xs ≡ true
  unfolding any
  any_of_In [] a m h = elim m [ ]
  any_of_In (x ∷ xs) a (inl e) h = rw (subst (λ y. p y ≡ true) e h)
  any_of_In (x ∷ xs) a (inr m) h = ground (arith, any_of_In xs a m h)

module _ {A : Type 0} (P : A → Type 0) where
  pub All-append : (xs ys : List A) → All P (xs ++ ys) ↔ (All P xs × All P ys)
  All-append [] ys = (λ h. (tt, h), λ h. h.1)
  All-append (x ∷ xs) ys = (
    λ h. let (a, b) = (All-append xs ys).0 h.1 in ((h.0, a), b),
    λ h. (h.0.0, (All-append xs ys).1 (h.0.1, h.1)),
  )

  pub All-map : {B : Type 0} (f : B → A) (xs : List B) → All P (map f xs) ↔ All (λ x. P (f x)) xs
  All-map f [] = (λ h. h, λ h. h)
  All-map f (x ∷ xs) = ×-iff (λ h. h, λ h. h) (All-map f xs)

pub In-append_left : {A : Type 0} (a : A) (xs ys : List A) → In a xs → In a (xs ++ ys)
In-append_left a [] ys m = elim m [ ]
In-append_left a (x ∷ xs) ys (inl e) = inl e
In-append_left a (x ∷ xs) ys (inr m) = inr (In-append_left a xs ys m)

pub In-map : {A B : Type 0} (f : A → B) (a : A) (xs : List A) → In a xs → In (f a) (map f xs)
In-map f a [] m = elim m [ ]
In-map f a (x ∷ xs) (inl e) = inl (ap f e)
In-map f a (x ∷ xs) (inr m) = inr (In-map f a xs m)

-- A demand that is made only where the policy asks for it.
pub when_iff : {P Q : Type 0} {b : Bool} → (b ≡ true → P ↔ Q) → (b ≡ true → P) ↔ (b ≡ true → Q)
when_iff h = (λ f e. (h e).0 (f e), λ f e. (h e).1 (f e))
