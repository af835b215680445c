-- ===== src/Library.antt =====
-- What the evaluator and the runner call of Go's `regexp`, `path`, `unicode` and `fmt` packages
-- and this development does not compute.
use otel_policy_lab.Prelude.{ℕ, Text, Option, Bool, Result}

pub record Library : Type 1 where
  -- a compiled regular expression
  pub Regexp : Type 0
  -- `regexp.Compile`: the expression, or the text of the error
  pub compile : Text → Result Text Regexp
  -- `re.MatchString(s)` and `re.String()`
  pub match_string : Regexp → Text → Bool
  pub source : Regexp → Text
  -- `path.Match(pattern, name)`, with `none` for a malformed pattern
  pub path_match : Text → Text → Option Bool
  -- `strings.Map` by the Unicode case tables, for a text that is not ASCII
  pub unicode_lower : Text → Text
  pub unicode_upper : Text → Text
  -- `fmt.Sprintf("%q", s)`
  pub quote : Text → Text
  -- `fmt.Sprintf("%.0f", float64(a)/float64(b)*100)`
  pub percent : ℕ → ℕ → Text
