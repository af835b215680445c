-- ===== src/Diagnostics.antt =====
-- internal/runner/collector.go and topology.go: the provenance of a real execution.
use otel_policy_lab.Prelude.{ℕ, ℤ, List, Option, Text, Map}

pub record PipelineDiagnostics : Type 0 where
  pub name : Text
  pub signal : Text
  pub processors : List Text

-- Durations in whole milliseconds. `exit_code` is absent until a process has exited.
pub record Diagnostics : Type 0 where
  pub binary : Text
  pub version : Text
  pub binary_sha256 : Text
  pub harness_sha256 : Text
  pub pipelines : List PipelineDiagnostics
  pub timings : Map Text ℕ
  pub start_timeout_ms : ℤ
  pub run_timeout_ms : ℤ
  pub settle_time_ms : ℤ
  pub exit_status : Text
  pub exit_code : Option ℤ
  pub failure_category : Text
