-- ===== src/Evaluator/Matches/Sound.antt =====
-- What one search in `Find` leaves out: it finds nothing exactly where nothing matches.
use otel_policy_lab.Prelude.{
  iff_trans, concat_map-nil, map-nil, keep-nil, All-iff, All-sort_texts, ℕ, List, [], Bool, false,
  ◌≡◌, ◌↔◌, Text, text_Eq, All, keys,
}
use otel_policy_lab.Telemetry.{Attributes}
use otel_policy_lab.Report.Check.{Kind}
use otel_policy_lab.Library.{Library}
use otel_policy_lab.Evaluator.Matches.Find.{
  sorted_keys, value_at, match_key, find_forbidden_attribute_matches, find_forbidden_value_matches,
  find_forbidden_string_matches,
}

module _ (lib : Library) where
  open lib use {Regexp}

  -- No forbidden pattern matches a key.
  abbrev pub HasCleanKeys : List Text → Bool → Attributes → Type 0
  HasCleanKeys forbidden case_insensitive attrs =
      All (λ key. All (λ p. match_key lib p key case_insensitive ≡ false) forbidden) (keys attrs)

  -- No forbidden expression matches the value at a key.
  abbrev pub HasCleanValues : List Regexp → Attributes → Type 0
  HasCleanValues patterns attrs =
      All (λ key. All (λ re. lib.match_string re (value_at attrs key) ≡ false) patterns)
        (keys attrs)

  abbrev pub IsCleanText : List Regexp → Text → Type 0
  IsCleanText patterns s = All (λ re. lib.match_string re s ≡ false) patterns

  pub attribute_matches-nil :
      (kind : Kind) (i : ℕ) (metric : Text) (attrs : Attributes) (forbidden : List Text) (ci : Bool)
      → (find_forbidden_attribute_matches lib kind i metric attrs forbidden ci ≡ [])
        ↔ HasCleanKeys forbidden ci attrs
  unfolding find_forbidden_attribute_matches sorted_keys
  attribute_matches-nil kind i metric attrs forbidden ci = iff_trans (concat_map-nil _ _) (
      iff_trans (All-iff _ _ (λ key. iff_trans (map-nil _ _) (keep-nil _ forbidden)) _)
        (All-sort_texts _ (keys attrs)))

  pub value_matches-nil :
      (kind : Kind) (i : ℕ) (metric : Text) (attrs : Attributes) (patterns : List Regexp)
      → (find_forbidden_value_matches lib kind i metric attrs patterns ≡ [])
        ↔ HasCleanValues patterns attrs
  unfolding find_forbidden_value_matches sorted_keys
  value_matches-nil kind i metric attrs patterns = iff_trans (concat_map-nil _ _) (
      iff_trans (All-iff _ _ (λ key. iff_trans (map-nil _ _) (keep-nil _ patterns)) _)
        (All-sort_texts _ (keys attrs)))

  pub string_matches-nil :
      (kind : Kind) (i : ℕ) (metric value : Text) (patterns : List Regexp)
      → (find_forbidden_string_matches lib kind i metric value patterns ≡ [])
        ↔ IsCleanText patterns value
  unfolding find_forbidden_string_matches
  string_matches-nil kind i metric value patterns = iff_trans (map-nil _ _) (keep-nil _ patterns)
