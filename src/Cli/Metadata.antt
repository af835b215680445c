-- ===== src/Cli/Metadata.antt =====
-- internal/cli/cli.go: what the report says of a file, and the counts of the summary.
use otel_policy_lab.Prelude.{
  ℕ, ◌+◌, ltb, Bool, false, not, ◌||◌, [], Option, none, some, Text, if◌then◌else◌,
}
use otel_policy_lab.Files.{FileInfo, FileSystem}
use otel_policy_lab.Files.Hash.{HashEnd, hashed, hash_reads}
use otel_policy_lab.Report.{FileMetadata, SummaryStatistics}
use otel_policy_lab.Telemetry.{Json, Set, summary_stats}

abbrev pub max_metadata_bytes : ℕ
max_metadata_bytes = 67108864

-- The loop takes a turn for each byte of the limit at most, and two more.
abbrev pub metadata_fuel : ℕ
metadata_fuel = max_metadata_bytes + 2

abbrev pub unhashed : Text → ℕ → FileMetadata
unhashed path size = record { path = path; size = size; sha256 = [] }

module _ (fs : FileSystem) where
  -- What follows the loop, without a hash if the loop gave up.
  abbrev pub metadata_of : Text → ℕ → fs.File → HashEnd → FileMetadata
  metadata_of path size f (hashed n) = record { path = path; size = size; sha256 = fs.hash_of f n }
  metadata_of path size f _ = unhashed path size

  abbrev pub is_open_regular : Option FileInfo → Bool
  is_open_regular none = false
  is_open_regular (some info) = info.is_regular

  -- The part of `fileMetadata` on an open file. `interrupted` is when the context has ended, by
  -- the turns of the loop.
  unfoldable pub metadata_opened : (ℕ → Bool) → Text → ℕ → fs.File → FileMetadata
  unfolding hash_reads
  metadata_opened interrupted path size f =
      if not (is_open_regular (fs.file_stat f))
      then unhashed path size
      else metadata_of path size f
          (hash_reads fs f interrupted max_metadata_bytes metadata_fuel 0 0)

  -- `stopped` is whether the context has ended before the file is opened.
  unfoldable pub file_metadata : (stopped : Bool) → (ℕ → Bool) → Text → FileMetadata
  unfolding metadata_opened
  file_metadata stopped interrupted path = elim (fs.stat path) [
    | none ↦ unhashed path 0
    | some info ↦
        if not info.is_regular || ltb max_metadata_bytes info.size || stopped
        then unhashed path info.size
        else elim (fs.open_file path) [
          | none ↦ unhashed path info.size
          | some f ↦ metadata_opened interrupted path info.size f
        ]
  ]

unfoldable pub build_summary : Json → Set → Set → SummaryStatistics
unfolding summary_stats
build_summary json input output =
    let stats = summary_stats json input output in
    record {
      input_log_count = stats.input_log_count;
      output_log_count = stats.output_log_count;
      input_span_count = stats.input_span_count;
      output_span_count = stats.output_span_count;
      input_metric_count = stats.input_metric_count;
      output_metric_count = stats.output_metric_count;
      input_series_count = stats.input_series_count;
      output_series_count = stats.output_series_count;
      log_volume_change =
          if ltb 0 stats.input_log_count
          then some (stats.output_log_count, stats.input_log_count)
          else none;
    }
