-- ===== src/Telemetry/Otlp.antt =====
-- internal/telemetry/otlp.go and the reading of a fixture in telemetry.go: OTLP data becomes the
-- telemetry that policies are checked against.
pub mod Accessors
pub mod Normal
pub mod Appending
pub mod Entries
pub mod Records
pub mod Flat
pub mod Bounded
mod Tests
use otel_policy_lab.Prelude.{
  ℕ, ◌+◌, ltb, Bool, true, false, not, ◌||◌, List, [], ◌∷◌, Option, none, some, Text, codes,
  text_Eq, Map, lookup, length, Result, ok, err, ◌>>=◌, ◌>>◌, map_err, if◌then◌else◌,
}
use otel_policy_lab.Telemetry.{Set, empty_set}
use otel_policy_lab.Files.{FileInfo, FileSystem}
use otel_policy_lab.Telemetry.Otlp.Accessors.{Pdata}
use otel_policy_lab.Telemetry.Otlp.Normal.{normalize_logs, normalize_spans, normalize_metrics}

-- The decoders of the encoding/json and pdata packages.
pub record OtlpDecoder (pdata : Pdata) : Type 1 where
  pub Raw : Type 0
  -- `json.Unmarshal` into a map of raw messages, and `json.Marshal` of a map with one entry
  pub unmarshal : Text → Result Text (Map Text Raw)
  pub marshal_one : Text → Raw → Text
  pub unmarshal_logs : Text → Result Text pdata.Logs
  pub unmarshal_traces : Text → Result Text pdata.Traces
  pub unmarshal_metrics : Text → Result Text pdata.Metrics
  pub new_logs : pdata.Logs
  pub new_traces : pdata.Traces
  pub new_metrics : pdata.Metrics

pub record Otlp (pdata : Pdata) : Type 0 where
  pub logs : pdata.Logs
  pub traces : pdata.Traces
  pub metrics : pdata.Metrics

-- The errors of `LoadOTLP`, `ParseOTLP` and `Load`.
pub data OtlpError : Type 0 where
  not_a_small_file cannot_open not_a_file read_fixture fixture_too_large : OtlpError
  read_fixture_file : Text → OtlpError
  invalid_json : Text → OtlpError
  parse_logs : Text → OtlpError
  parse_spans : Text → OtlpError
  parse_metrics : Text → OtlpError
  parse_fixture : OtlpError → OtlpError

abbrev pub max_json_bytes : ℕ
max_json_bytes = 67108864

module _ (pdata : Pdata) where
  unfoldable pub normalize : Otlp pdata → Set
  unfolding normalize_logs normalize_spans normalize_metrics
  normalize o =
      normalize_metrics pdata o.metrics
        (normalize_spans pdata o.traces (normalize_logs pdata o.logs empty_set))

module _ (pdata : Pdata) (decoder : OtlpDecoder pdata) where
  -- One of the three parts of `parseOTLPJSON`: the envelope of a signal, if there is one.
  unfoldable pub parse_signal :
      {D : Type 0}
      → (key : Text) → (Text → Result Text D)
      → (Text → OtlpError)
      → (empty : D) → Map Text decoder.Raw
      → Result OtlpError D
  unfolding lookup
  parse_signal key unmarshal error empty raw = elim (lookup raw key) [
    | none ↦ ok empty
    | some message ↦ map_err error (unmarshal (decoder.marshal_one key message))
  ]

  unfoldable pub parse_otlp : Text → Result OtlpError (Otlp pdata)
  unfolding parse_signal
  parse_otlp data_text = do
    raw ← map_err invalid_json (decoder.unmarshal data_text)
    logs ←
        parse_signal (codes "resourceLogs") decoder.unmarshal_logs parse_logs decoder.new_logs raw
    traces ←
        parse_signal (codes "resourceSpans") decoder.unmarshal_traces parse_spans decoder.new_traces
          raw
    metrics ←
        parse_signal (codes "resourceMetrics") decoder.unmarshal_metrics parse_metrics
          decoder.new_metrics raw
    ok (record { logs = logs; traces = traces; metrics = metrics })

  -- `telemetry.Parse`
  unfoldable pub parse : Text → Result OtlpError Set
  unfolding parse_otlp normalize
  parse data_text = map_err parse_fixture (parse_otlp data_text) >>= λ raw. ok (normalize pdata raw)

  module _ (fs : FileSystem) where
    -- `telemetry.Load`
    unfoldable pub load : Text → Result OtlpError Set
    unfolding parse
    load path = map_err read_fixture_file (fs.read_file path) >>= parse

    -- What `LoadOTLP` does with an opened file.
    unfoldable pub read_otlp : fs.File → Result OtlpError (Otlp pdata)
    unfolding parse_otlp
    read_otlp f = elim (fs.file_stat f) [
      | none ↦ err not_a_file
      | some info ↦
          if not info.is_regular
          then err not_a_file
          else elim (fs.read_all f (max_json_bytes + 1)) [
            | none ↦ err read_fixture
            | some data_text ↦
                if ltb max_json_bytes (length data_text)
                then err fixture_too_large
                else parse_otlp data_text
          ]
    ]

    unfoldable pub load_otlp : Text → Result OtlpError (Otlp pdata)
    unfolding read_otlp
    load_otlp path = elim (fs.stat path) [
      | none ↦ err not_a_small_file
      | some info ↦
          if not info.is_regular || ltb max_json_bytes info.size
          then err not_a_small_file
          else elim (fs.open_file path) [ none ↦ err cannot_open | some f ↦ read_otlp f ]
    ]
