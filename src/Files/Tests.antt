-- ===== src/Files/Tests.antt =====
-- Examples: a file that is read in three pieces, and the readers of internal/runner/collector.go
-- on it.
use otel_policy_lab.Prelude.{
  ℕ, ◌≡◌, ◌≢◌, refl, Bool, false, ltb, codes, Text, ok, arith, if◌then◌else◌,
}
use otel_policy_lab.Files.{FileSystem, read_more, read_eof}
use otel_policy_lab.Files.Hash.{
  hashed, given_up, unfinished, hash_reads, Proceeds, HashedAll, hash_reads-ends,
  hash_reads-HashedAll,
}
use otel_policy_lab.Runner.Inputs.{max_binary_bytes, read_limited}
use otel_policy_lab.Samples.Otlp.{one_file}

-- Two reads of four bytes, and the end.
abbrev in_pieces : FileSystem
in_pieces = record one_file { read = λ f n. if ltb n 2 then (4, read_more) else (1, read_eof) }

abbrev never : ℕ → Bool
never i = false

all_read : hash_reads in_pieces (codes "{}") never 10 12 0 0 ≡ hashed 3
unfolding hash_reads
all_read = refl

over_limit : hash_reads in_pieces (codes "{}") never 7 9 0 0 ≡ given_up
unfolding hash_reads
over_limit = refl

proceeds : Proceeds in_pieces (codes "{}") never 10
proceeds i h = ground arith

hash_reads-ends_example : hash_reads in_pieces (codes "{}") never 10 12 0 0 ≢ unfinished
hash_reads-ends_example =
    hash_reads-ends in_pieces (codes "{}") never 10 12 0 0 proceeds (omega arith) (omega arith)

hash_reads-HashedAll_example : HashedAll in_pieces (codes "{}") never 10 0 0 3
hash_reads-HashedAll_example =
    hash_reads-HashedAll in_pieces (codes "{}") never 10 12 0 0 3 all_read

read_in_full : read_limited in_pieces (codes "a.yaml") 2 ≡ ok (codes "{}")
unfolding read_limited
read_in_full = refl

proceeds_always : (f : Text) → Proceeds in_pieces f never (max_binary_bytes in_pieces)
proceeds_always f i h = ground arith
