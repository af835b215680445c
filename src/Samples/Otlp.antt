-- ===== src/Samples/Otlp.antt =====
-- A file system with one file, and a decoder that reads one fixture out of it.
use otel_policy_lab.Prelude.{true, List, [], ◌∷◌, some, Text, codes, ok, err}
use otel_policy_lab.Files.{FileInfo, FileSystem, read_eof}
use otel_policy_lab.Telemetry.Otlp.Accessors.{Pdata, code_other, type_gauge}
use otel_policy_lab.Telemetry.Otlp.{Otlp, OtlpDecoder}

abbrev pub TextPairs : Type 0
TextPairs = List (Text × Text)

-- Records with attributes and a text, below a resource and a scope.
abbrev pub Records : Type 0
Records = List (TextPairs × List (List (TextPairs × Text)))

abbrev pub pairs : Pdata
pairs = record {
  Value = Text;
  as_string = λ v. some v;
  marshal = λ v. some v;
  sprint = λ v. v;
  Attrs = TextPairs;
  range = λ a. a;
  Logs = Records;
  ResourceLogs = TextPairs × List (List (TextPairs × Text));
  ScopeLogs = List (TextPairs × Text);
  PLogRecord = TextPairs × Text;
  resource_logs = λ l. l;
  logs_resource = λ r. r.0;
  scope_logs = λ r. r.1;
  log_records = λ s. s;
  log_attributes = λ r. r.0;
  log_body = λ r. r.1;
  Traces = Records;
  ResourceSpans = TextPairs × List (List (TextPairs × Text));
  ScopeSpans = List (TextPairs × Text);
  PSpan = TextPairs × Text;
  resource_spans = λ l. l;
  spans_resource = λ r. r.0;
  scope_spans = λ r. r.1;
  spans = λ s. s;
  trace_id = λ s. codes "01";
  span_id = λ s. codes "02";
  span_name = λ s. s.1;
  span_status = λ s. code_other;
  span_attributes = λ s. s.0;
  Metrics = Records;
  ResourceMetrics = TextPairs × List (List (TextPairs × Text));
  ScopeMetrics = List (TextPairs × Text);
  PMetric = TextPairs × Text;
  resource_metrics = λ l. l;
  metrics_resource = λ r. r.0;
  scope_metrics = λ r. r.1;
  metrics = λ s. s;
  metric_name = λ m. m.1;
  metric_type = λ m. type_gauge;
  gauge_points = λ m. m.0 ∷ [];
  sum_points = λ m. [];
  histogram_points = λ m. [];
  exponential_histogram_points = λ m. [];
  summary_points = λ m. [];
}

abbrev pub two_resources : Records
two_resources =
    (
      (codes "service", codes "shop") ∷ (codes "service", codes "cart") ∷ [],
      (((codes "user", codes "ann") ∷ [], codes "paid") ∷ []) ∷ (([], codes "open") ∷ []) ∷ [],
    )
    ∷ ([], (([], codes "late") ∷ []) ∷ [])
    ∷ []

abbrev pub decoder : OtlpDecoder pairs
decoder = record {
  Raw = Text;
  unmarshal = λ s. ok ((codes "resourceLogs", s) ∷ []);
  marshal_one = λ key s. s;
  unmarshal_logs = λ s. ok two_resources;
  unmarshal_traces = λ s. err s;
  unmarshal_metrics = λ s. err s;
  new_logs = [];
  new_traces = [];
  new_metrics = [];
}

abbrev pub info : FileInfo
info = record { is_regular = true; size = 2 }

abbrev pub one_file : FileSystem
one_file = record {
  File = Text;
  stat = λ path. some info;
  open_file = λ path. some (codes "{}");
  file_stat = λ f. some info;
  read_all = λ f n. some f;
  read_file = λ path. ok (codes "{}");
  read = λ f n. (2, read_eof);
  hash_of = λ f n. codes "44136fa3";
}

abbrev pub logs_only : Otlp pairs
logs_only = record { logs = two_resources; traces = []; metrics = [] }
