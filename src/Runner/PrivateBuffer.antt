-- ===== src/Runner/PrivateBuffer.antt =====
-- internal/runner/process.go: the bounded buffer of the Collector's output, and what is read from
-- it.
pub mod Bounded
pub mod Occurrence
pub mod Markers
use otel_policy_lab.Prelude.{
  ℕ, ◌+◌, ◌-◌, ltb, leb, Bool, true, false, ◌||◌, List, [], ◌∷◌, ◌++◌, Text, codes, length, take,
  drop, any, contains_text, to_lower, if◌then◌else◌,
}

abbrev pub max_diagnostic_bytes : ℕ
max_diagnostic_bytes = 65536

pub record PrivateBuffer : Type 0 where
  pub bytes : Text
  pub export_failure : Bool
  pub ready : Bool

abbrev pub empty_buffer : PrivateBuffer
empty_buffer = record { bytes = []; export_failure = false; ready = false }

-- `b[len(b)-32:]` where `b` is longer than 32 bytes
unfoldable pub previous_suffix : Text → Text
previous_suffix b = if ltb 32 (length b) then drop (length b - 32) b else b

-- `p[:32]` where `p` is longer than 32 bytes
unfoldable pub next_prefix : Text → Text
next_prefix p = if ltb 32 (length p) then take 32 p else p

-- The bytes that are kept, of those that are there and those that are written.
unfoldable pub keep_bytes : (bytes p : Text) → Text
keep_bytes bytes p =
    if leb max_diagnostic_bytes (length p)
    then drop (length p - max_diagnostic_bytes) p
    else if ltb 0 (length bytes + length p - max_diagnostic_bytes)
    then drop (length bytes + length p - max_diagnostic_bytes) bytes ++ p
    else bytes ++ p

abbrev pub ready_marker : Text
ready_marker = codes "everything is ready"

-- What `processFailure` tells apart.
pub data ProcessFailure : Type 0 where
  bind_conflict missing_component invalid_config process_exit : ProcessFailure

-- The parameter is the Unicode part of `strings.ToLower`.
module _ (unicode_lower : Text → Text) where
  abbrev pub mentions : Text → List Text → Bool
  mentions text phrases = any (λ phrase. contains_text (to_lower unicode_lower text) phrase) phrases

  unfoldable pub export_failure_text : Text → Bool
  unfolding any contains_text to_lower
  export_failure_text text = mentions text (
      codes "exporting failed"
      ∷ codes "exporter failed"
      ∷ codes "failed to export"
      ∷ codes "failed to shutdown"
      ∷ [])

  unfoldable pub write : Text → PrivateBuffer → PrivateBuffer
  unfolding keep_bytes export_failure_text previous_suffix next_prefix contains_text to_lower
  write p b =
      let seam = previous_suffix b.bytes ++ next_prefix p in
      record {
        bytes = keep_bytes b.bytes p;
        export_failure =
            if export_failure_text p || export_failure_text seam then true else b.export_failure;
        ready =
            if contains_text (to_lower unicode_lower p) ready_marker
              || contains_text (to_lower unicode_lower seam) ready_marker
            then true
            else b.ready;
      }

  -- The writes in the order in which they get the mutex.
  unfoldable pub write_all : List Text → PrivateBuffer → PrivateBuffer
  unfolding write
  write_all [] b = b
  write_all (p ∷ ps) b = write_all ps (write p b)

  unfoldable pub process_failure : Text → ProcessFailure
  unfolding any contains_text to_lower
  process_failure logs =
      if mentions logs (codes "address already in use" ∷ [])
      then bind_conflict
      else if mentions logs (
          codes "unknown type"
          ∷ codes "unknown processor"
          ∷ codes "unknown exporter"
          ∷ codes "unknown receiver"
          ∷ [])
      then missing_component
      else if mentions logs (
          codes "failed to get config"
          ∷ codes "error decoding"
          ∷ codes "invalid configuration"
          ∷ codes "failed to build"
          ∷ codes "invalid keys"
          ∷ codes "configuration references"
          ∷ [])
      then invalid_config
      else process_exit
