-- ===== src/Policy.antt =====
-- internal/policy/policy.go: the schema of the policy file and its validation.
-- The file read and the YAML decoder are parameters of `load` and `parse`.
pub mod Predicates
pub mod Valid
pub mod Rejected
mod Tests
use otel_policy_lab.Prelude.{
  ℤ, pos, Bool, true, false, not, ◌||◌, List, [], ◌∷◌, Option, none, some, Text, codes,
  if◌then◌else◌, ◌==◌, int_Eq, text_Eq, replace_byte, is_positive, Result, ok, err, ◌>>=◌, ◌>>◌,
  map_err,
}

pub record LogsAssertions : Type 0 where
  pub forbidden_attributes : List Text
  pub forbidden_value_patterns : List Text
  pub forbidden_body_patterns : List Text
  pub case_insensitive : Bool
  pub required_resource_attributes : List Text

pub record TracesAssertions : Type 0 where
  pub preserve : List Text
  pub forbidden_attributes : List Text
  pub forbidden_value_patterns : List Text
  pub case_insensitive : Bool
  pub required_resource_attributes : List Text

pub record MetricsAssertions : Type 0 where
  pub forbidden_labels : List Text
  pub forbidden_label_value_patterns : List Text
  pub case_insensitive : Bool
  pub max_series_per_metric : ℤ
  pub required_resource_attributes : List Text

-- A nil pointer is `none`.
pub record Assertions : Type 0 where
  pub logs : Option LogsAssertions
  pub traces : Option TracesAssertions
  pub metrics : Option MetricsAssertions

pub record Policy : Type 0 where
  pub version : ℤ
  pub assertions : Assertions

-- `read_error` and `decode_error` wrap what the file system and the decoder report.
pub data PolicyError : Type 0 where
  read_error : Text → PolicyError
  decode_error : Text → PolicyError
  version_required : PolicyError
  unsupported_version : ℤ → PolicyError
  no_assertions : PolicyError
  unsupported_preserve : Text → PolicyError

abbrev pub supported_version : ℤ
supported_version = pos 1

-- `len(xs) > 0`
abbrev pub is_nonempty : List Text → Bool
is_nonempty [] = false
is_nonempty (x ∷ xs) = true

abbrev pub canonical_preserve : Text
canonical_preserve = codes "status.code == \"ERROR\""

abbrev pub squeezed_preserve : Text
squeezed_preserve = codes "status.code==\"ERROR\""

-- The two `ReplaceAll` calls: no spaces, and double quotes for single ones.
unfoldable pub squeeze : Text → Text
unfolding replace_byte
squeeze expr = replace_byte b'\'' (codes "\"") (replace_byte b' ' [] expr)

unfoldable pub normalize_preserve_expression : Text → Text
normalize_preserve_expression expr =
    if squeeze expr == squeezed_preserve then canonical_preserve else expr

unfoldable pub logs_has_checks : Option LogsAssertions → Bool
logs_has_checks none = false
logs_has_checks (some l) =
    is_nonempty l.forbidden_attributes
    || is_nonempty l.forbidden_value_patterns
    || is_nonempty l.forbidden_body_patterns
    || is_nonempty l.required_resource_attributes

unfoldable pub traces_has_checks : Option TracesAssertions → Bool
traces_has_checks none = false
traces_has_checks (some t) =
    is_nonempty t.preserve
    || is_nonempty t.forbidden_attributes
    || is_nonempty t.forbidden_value_patterns
    || is_nonempty t.required_resource_attributes

unfoldable pub metrics_has_checks : Option MetricsAssertions → Bool
metrics_has_checks none = false
metrics_has_checks (some m) =
    is_nonempty m.forbidden_labels
    || is_nonempty m.forbidden_label_value_patterns
    || is_positive m.max_series_per_metric
    || is_nonempty m.required_resource_attributes

unfoldable pub has_assertions : Policy → Bool
unfolding logs_has_checks traces_has_checks metrics_has_checks
has_assertions p =
    if logs_has_checks p.assertions.logs
    then true
    else if traces_has_checks p.assertions.traces
    then true
    else if metrics_has_checks p.assertions.metrics
    then true
    else false

unfoldable pub preserve_exprs : Option TracesAssertions → List Text
preserve_exprs none = []
preserve_exprs (some t) = t.preserve

-- The loop over the preserve expressions.
unfoldable pub check_preserve : List Text → Result PolicyError (Unit {0})
check_preserve [] = ok tt
check_preserve (expr ∷ rest) =
    if not (normalize_preserve_expression expr == canonical_preserve)
    then err (unsupported_preserve expr)
    else check_preserve rest

unfoldable pub validate : Policy → Result PolicyError (Unit {0})
unfolding check_preserve preserve_exprs
validate p =
    if p.version == pos 0
    then err version_required
    else if not (p.version == supported_version)
    then err (unsupported_version p.version)
    else if not (has_assertions p)
    then err no_assertions
    else check_preserve (preserve_exprs p.assertions.traces)

-- `decode` is the strict YAML decoder (`KnownFields(true)`).
unfoldable pub parse : (Text → Result Text Policy) → Text → Result PolicyError Policy
parse decode contents = do p ← map_err decode_error (decode contents); validate p; ok p

unfoldable pub load :
    (Text → Result Text Text) → (Text → Result Text Policy) → Text → Result PolicyError Policy
load read_file decode path = do
  contents ← map_err read_error (read_file path)
  parse decode contents
