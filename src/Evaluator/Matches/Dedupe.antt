-- ===== src/Evaluator/Matches/Dedupe.antt =====
-- internal/evaluator/matches.go: duplicates, the order of the matches, and their summary.
use otel_policy_lab.Prelude.{
  ◌-◌, List, [], ◌∷◌, ◌++◌, map, Bool, true, false, not, ◌≡◌, refl, ◌∙◌, ◌↔◌, ◌⊎◌, inl, inr, ◌||◌,
  Text, codes, text_Eq, nat_Eq, text_lt, ltb, itoa, contains, IsUnique, length, take, join,
  sort_texts, sort_by, place, ◌==◌, if◌then◌else◌, arith, In, Bool-cases, contains-map-sort_by,
  IsUnique-map-sort_by, text_eq_iff,
}
use otel_policy_lab.Report.Check.{
  Kind, resource_key, resource_value, attribute_key, attribute_value, label_key, label_value, body,
  span_name, ForbiddenMatch,
}
use otel_policy_lab.Library.{Library}

unfoldable pub kind_text : Kind → Text
kind_text resource_key = codes "resource_key"
kind_text resource_value = codes "resource_value"
kind_text attribute_key = codes "attribute_key"
kind_text attribute_value = codes "attribute_value"
kind_text label_key = codes "label_key"
kind_text label_value = codes "label_value"
kind_text body = codes "body"
kind_text span_name = codes "span_name"

-- The text by which duplicates are recognised.
unfoldable pub dedupe_key : ForbiddenMatch → Text
unfolding kind_text
dedupe_key m =
    join (codes "|")
      (kind_text m.kind ∷ m.key ∷ m.pattern ∷ itoa m.index ∷ m.metric ∷ itoa m.value_length ∷ [])

-- The loop: a match whose key was seen is skipped.
unfoldable pub drop_seen : List Text → List ForbiddenMatch → List ForbiddenMatch
drop_seen seen [] = []
drop_seen seen (m ∷ ms) =
    let kept = m ∷ drop_seen (dedupe_key m ∷ seen) ms in
    let rest = drop_seen seen ms in if contains seen (dedupe_key m) then rest else kept

-- The comparison of `sortForbiddenMatches`. Matches that differ in the length of the value alone
-- compare as equal; `sort.Slice` may put those in either order.
unfoldable pub match_less : ForbiddenMatch → ForbiddenMatch → Bool
unfolding kind_text
match_less a b =
    if not (kind_text a.kind == kind_text b.kind)
    then text_lt (kind_text a.kind) (kind_text b.kind)
    else if not (a.metric == b.metric)
    then text_lt a.metric b.metric
    else if not (a.index == b.index)
    then ltb a.index b.index
    else if not (a.key == b.key)
    then text_lt a.key b.key
    else text_lt a.pattern b.pattern

unfoldable pub sort_forbidden_matches : List ForbiddenMatch → List ForbiddenMatch
unfolding match_less sort_by
sort_forbidden_matches = sort_by match_less

unfoldable pub dedupe_forbidden_matches : List ForbiddenMatch → List ForbiddenMatch
unfolding drop_seen sort_forbidden_matches
dedupe_forbidden_matches ms = sort_forbidden_matches (drop_seen [] ms)

-- A match as the summary shows it: its kind, key and pattern, never the value.
unfoldable pub summary_part : Library → ForbiddenMatch → Text
unfolding kind_text
summary_part lib m = by_kind m.kind
  where
    about_key : Text
    about_key =
        kind_text m.kind
        ++ (codes " " ++ (lib.quote m.key ++ (codes " matched " ++ lib.quote m.pattern)))

    about_value : Text
    about_value =
        codes "value for " ++ (lib.quote m.key ++ (codes " matched " ++ lib.quote m.pattern))

    by_kind : Kind → Text
    by_kind attribute_key = about_key
    by_kind label_key = about_key
    by_kind resource_key = about_key
    by_kind attribute_value = about_value
    by_kind label_value = about_value
    by_kind resource_value = about_value
    by_kind body = codes "log body matched " ++ lib.quote m.pattern
    by_kind span_name = codes "span name matched " ++ lib.quote m.pattern

unfoldable pub summarize_forbidden_matches : Library → List ForbiddenMatch → Text
unfolding summary_part
summarize_forbidden_matches lib ms =
    let parts = sort_texts (map (summary_part lib) ms) in
    if ltb 3 (length parts)
    then join (codes "; ") (take 3 parts)
      ++ (codes "; and " ++ (itoa (length parts - 3) ++ codes " more"))
    else join (codes "; ") parts

contains-map-drop_seen :
    (seen : List Text) (ms : List ForbiddenMatch) (k : Text)
    → (contains seen k || contains (map dedupe_key (drop_seen seen ms)) k)
      ≡ (contains seen k || contains (map dedupe_key ms) k)
unfolding drop_seen contains
contains-map-drop_seen seen [] k = refl
contains-map-drop_seen seen (m ∷ ms) k = ground (
  arith,
  contains-map-drop_seen seen ms k,
  contains-map-drop_seen (dedupe_key m ∷ seen) ms k,
  text_eq_iff (dedupe_key m) k,
)

fresh-drop_seen :
    (seen : List Text) (ms : List ForbiddenMatch) (k : Text)
    → contains seen k ≡ true
    → contains (map dedupe_key (drop_seen seen ms)) k ≡ false
unfolding drop_seen contains
fresh-drop_seen seen [] k h = refl
fresh-drop_seen seen (m ∷ ms) k h = ground (
  arith,
  fresh-drop_seen seen ms k,
  fresh-drop_seen (dedupe_key m ∷ seen) ms k,
  text_eq_iff (dedupe_key m) k,
)

IsUnique-drop_seen :
    (seen : List Text) (ms : List ForbiddenMatch) → IsUnique (map dedupe_key (drop_seen seen ms))
unfolding drop_seen contains
IsUnique-drop_seen seen [] = tt
IsUnique-drop_seen seen (m ∷ ms) = elim (Bool-cases (contains seen (dedupe_key m))) [
  | inl h ↦ rw h (IsUnique-drop_seen seen ms)
  | inr h ↦ rw h (
    fresh-drop_seen (dedupe_key m ∷ seen) ms (dedupe_key m)
        (ground (arith, text_eq_iff (dedupe_key m) (dedupe_key m))),
    IsUnique-drop_seen (dedupe_key m ∷ seen) ms,
  )
]

In-drop_seen :
    (seen : List Text) (ms : List ForbiddenMatch) (a : ForbiddenMatch)
    → In a (drop_seen seen ms)
    → In a ms
unfolding drop_seen
In-drop_seen seen [] a h = h
In-drop_seen seen (m ∷ ms) a h = elim (Bool-cases (contains seen (dedupe_key m))) [
  | inl e ↦ inr (In-drop_seen seen ms a (rw e at h))
  | inr e ↦ elim (let g : (a ≡ m) ⊎ In a (drop_seen (dedupe_key m ∷ seen) ms) = rw e at h in g) [
    | inl q ↦ inl q
    | inr q ↦ inr (In-drop_seen (dedupe_key m ∷ seen) ms a q)
  ]
]

In-place :
    (a b : ForbiddenMatch) (ms : List ForbiddenMatch)
    → In a (place match_less b ms)
    → (a ≡ b) ⊎ In a ms
unfolding place
In-place a b [] h = h
In-place a b (m ∷ ms) h = elim (Bool-cases (match_less m b)) [
  | inl e ↦ elim (let g : (a ≡ m) ⊎ In a (place match_less b ms) = rw e at h in g) [
    | inl q ↦ inr (inl q)
    | inr q ↦ elim (In-place a b ms q) [ inl r ↦ inl r | inr r ↦ inr (inr r) ]
  ]
  | inr e ↦ rw e at h
]

In-sort : (a : ForbiddenMatch) (ms : List ForbiddenMatch) → In a (sort_by match_less ms) → In a ms
unfolding sort_by
In-sort a [] h = h
In-sort a (m ∷ ms) h = elim (In-place a m (sort_by match_less ms) h) [
  | inl e ↦ inl e
  | inr q ↦ inr (In-sort a ms q)
]

-- What is left of a list of matches are matches of the list, no two have the same dedupe key,
-- and every dedupe key of the list is still there.
pub dedupe_forbidden_matches_lem :
    (ms : List ForbiddenMatch)
    → ((a : ForbiddenMatch) → In a (dedupe_forbidden_matches ms) → In a ms)
      × IsUnique (map dedupe_key (dedupe_forbidden_matches ms))
      × ((k : Text)
          → contains (map dedupe_key (dedupe_forbidden_matches ms)) k
            ≡ contains (map dedupe_key ms) k)
unfolding dedupe_forbidden_matches contains
dedupe_forbidden_matches_lem ms = (
  λ a h. In-drop_seen [] ms a (In-sort a (drop_seen [] ms) h),
  IsUnique-map-sort_by dedupe_key match_less (drop_seen [] ms) (IsUnique-drop_seen [] ms),
  λ k.
      contains-map-sort_by dedupe_key match_less (drop_seen [] ms) k
      ∙ contains-map-drop_seen [] ms k,
)

place-ne-nil : (m : ForbiddenMatch) (ms : List ForbiddenMatch) → place match_less m ms ≡ [] → ⊥
unfolding place
place-ne-nil m [] h = cc
place-ne-nil m (n ∷ ms) h = ground arith

-- Dropping duplicates never hides that something was found.
pub dedupe_forbidden_matches-nil :
    (ms : List ForbiddenMatch) → (dedupe_forbidden_matches ms ≡ []) ↔ (ms ≡ [])
unfolding dedupe_forbidden_matches drop_seen contains
dedupe_forbidden_matches-nil [] = (λ h. refl, λ h. refl)
dedupe_forbidden_matches-nil (m ∷ ms) = (
  λ h. absurd (place-ne-nil m (sort_by match_less (drop_seen (dedupe_key m ∷ []) ms)) h),
  λ h. cc,
)
