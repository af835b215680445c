-- ===== src/Files.antt =====
-- What the code calls of Go's `os` and `io` packages, and what a file system answers.
pub mod Hash
mod Tests
use otel_policy_lab.Prelude.{ℕ, Option, Text, Bool, Result}

-- `Mode().IsRegular()` and `Size()` of an `os.FileInfo`
pub record FileInfo : Type 0 where
  pub is_regular : Bool
  pub size : ℕ

-- How a call of `Read` ends: with a nil error, at the end of the file or with an error.
pub data ReadEnd : Type 0 where
  read_more read_eof read_failed : ReadEnd

-- The system at the time of a run. A path that cannot be opened has no file.
pub record FileSystem : Type 1 where
  pub File : Type 0
  -- `os.Stat`, `os.Open` and `f.Stat`
  pub stat : Text → Option FileInfo
  pub open_file : Text → Option File
  pub file_stat : File → Option FileInfo
  -- `io.ReadAll(io.LimitReader(f, n))`
  pub read_all : File → ℕ → Option Text
  -- `os.ReadFile`
  pub read_file : Text → Result Text Text
  -- the calls of `f.Read(buf)`: how many bytes each yields, and how it ends
  pub read : File → ℕ → ℕ × ReadEnd
  -- `hex.EncodeToString` of the hash of the bytes that the first calls have yielded
  pub hash_of : File → ℕ → Text
