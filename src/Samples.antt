-- ===== src/Samples.antt =====
-- Concrete telemetry, policies and instances of the parameters, for the examples of the other
-- modules.
pub mod Otlp
mod Tests
use Prim.Native.Nat.{◌*◌, ◌/◌}
use otel_policy_lab.Report.Series.{concat}
use otel_policy_lab.Prelude.{
  ◌≡◌, refl, text_eq, ℕ, ◌+◌, List, [], ◌∷◌, ◌++◌, map, Bool, true, false, Option, none, some, Text,
  codes, itoa, join, before, text_Eq, ◌==◌, contains_text, has_prefix, pos, Result, ok, err, Map,
  if◌then◌else◌,
}
use otel_policy_lab.Telemetry.{Attributes, LogRecord, Span, Datapoint, Metric, Set, Json}
use otel_policy_lab.Policy.{
  LogsAssertions, TracesAssertions, MetricsAssertions, Assertions, Policy, canonical_preserve,
}
use otel_policy_lab.Report.{FileMetadata, SummaryStatistics, RunnerMetadata}
use otel_policy_lab.Evaluator.Matches.Find.{compile_patterns, compile_pattern, fold_pattern}
use otel_policy_lab.Library.{Library}

-- A pattern is a literal text that is searched for; "(" does not compile.
abbrev pub compile_literal : Text → Result Text Text
compile_literal p = if p == codes "(" then err (codes "missing closing )") else ok p

abbrev pub literals : Library
literals = record {
  Regexp = Text;
  compile = compile_literal;
  match_string = λ re s. contains_text s re;
  source = λ re. re;
  path_match = λ p s. some (has_prefix s (before b'*' p));
  unicode_lower = λ s. s;
  unicode_upper = λ s. s;
  quote = λ s. codes "\"" ++ (s ++ codes "\"");
  percent = λ a b. itoa (a * 100 / b);
}

-- An encoding with separators.
abbrev pub encode_map : Attributes → Text
encode_map m = concat (map (λ e. e.0 ++ (codes "=" ++ (e.1 ++ codes ";"))) m)

abbrev pub plain : Json
plain = record {
  series = λ r l. encode_map r ++ (codes "|" ++ encode_map l);
  metric_group = λ n r. n ++ (codes "|" ++ encode_map r);
  log = λ l. l.body;
  span = λ s. s.span_id;
  metric = λ m. m.name;
  datapoint = λ d. encode_map d.labels;
}

abbrev pub service : Attributes
service = (codes "service.name", codes "shop") ∷ []

abbrev pub log_of : Text → LogRecord
log_of text = record {
  resource_attributes = service;
  attributes = (codes "user", codes "ann") ∷ [];
  body = text;
}

abbrev pub span_of : Text → Text → Span
span_of id status = record {
  trace_id = codes "t1";
  span_id = id;
  name = codes "checkout";
  status_code = status;
  resource_attributes = service;
  attributes = [];
}

abbrev pub requests_of : List Text → Metric
requests_of routes = record {
  name = codes "requests";
  resource_attributes = service;
  datapoints = map (λ r. record { labels = (codes "route", r) ∷ [] }) routes;
}

-- One log, an error span and a plain one, and a metric with two series in three datapoints.
abbrev pub shop : Set
shop = record {
  logs = log_of (codes "paid") ∷ [];
  spans = span_of (codes "s1") (codes "ERROR") ∷ span_of (codes "s2") (codes "OK") ∷ [];
  metrics = requests_of (codes "/a" ∷ codes "/b" ∷ codes "/a" ∷ []) ∷ [];
}

-- What a collector may leave of it.
abbrev pub shop_output : Set
shop_output = record {
  logs = log_of (codes "paid") ∷ [];
  spans = span_of (codes "s1") (codes "ERROR") ∷ [];
  metrics = requests_of (codes "/a" ∷ codes "/b" ∷ []) ∷ [];
}

abbrev pub log_rules : LogsAssertions
log_rules = record {
  forbidden_attributes = codes "password" ∷ [];
  forbidden_value_patterns = codes "secret" ∷ [];
  forbidden_body_patterns = codes "token" ∷ [];
  case_insensitive = false;
  required_resource_attributes = codes "service.name" ∷ [];
}

abbrev pub trace_rules : TracesAssertions
trace_rules = record {
  preserve = canonical_preserve ∷ [];
  forbidden_attributes = codes "password" ∷ [];
  forbidden_value_patterns = codes "secret" ∷ [];
  case_insensitive = false;
  required_resource_attributes = codes "service.name" ∷ [];
}

abbrev pub metric_rules : MetricsAssertions
metric_rules = record {
  forbidden_labels = codes "user.id" ∷ [];
  forbidden_label_value_patterns = codes "secret" ∷ [];
  case_insensitive = false;
  max_series_per_metric = pos 2;
  required_resource_attributes = codes "service.name" ∷ [];
}

abbrev pub rules : Policy
rules = record {
  version = pos 1;
  assertions = record {
    logs = some log_rules;
    traces = some trace_rules;
    metrics = some metric_rules;
  };
}

abbrev pub runner : RunnerMetadata
runner = record {
  name = codes "fixture";
  simulated_processors = codes "filter" ∷ [];
  unsupported_processors = [];
  execution = none;
  scope = codes "simulated";
}

abbrev pub a_file : FileMetadata
a_file = record { path = codes "policy.yaml"; size = 12; sha256 = codes "00ff" }

abbrev pub no_summary : SummaryStatistics
no_summary = record {
  input_log_count = 1;
  output_log_count = 1;
  input_span_count = 2;
  output_span_count = 1;
  input_metric_count = 1;
  output_metric_count = 1;
  input_series_count = 2;
  output_series_count = 2;
  log_volume_change = none;
}

abbrev pub secret : List Text
secret = codes "secret" ∷ []

abbrev pub token : List Text
token = codes "token" ∷ []

pub secret_compiles : compile_patterns literals secret false ≡ ok secret
unfolding compile_patterns compile_pattern fold_pattern text_eq
secret_compiles = refl

pub token_compiles : compile_patterns literals token false ≡ ok token
unfolding compile_patterns compile_pattern fold_pattern text_eq
token_compiles = refl
