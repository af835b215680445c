-- ===== src/Telemetry/Otlp/Bounded.antt =====
-- internal/telemetry/otlp.go: what `LoadOTLP` lets through.
use otel_policy_lab.Prelude.{
  ◌+◌, ◌≡◌, ◌≤◌, ltb, true, not, ◌||◌, Bool-cases, inl, inr, some, Option-cases, Text, length, ok,
  err, arith,
}
use otel_policy_lab.Files.{FileInfo, FileSystem}
use otel_policy_lab.Telemetry.Otlp.Accessors.{Pdata}
use otel_policy_lab.Telemetry.Otlp.{
  Otlp, OtlpDecoder, not_a_small_file, cannot_open, not_a_file, read_fixture, fixture_too_large,
  max_json_bytes, parse_otlp, read_otlp, load_otlp,
}

module _ (pdata : Pdata) (decoder : OtlpDecoder pdata) (fs : FileSystem) where
  -- The data came from an open regular file, and is no longer than the limit.
  pub record Reads (f : fs.File) (o : Otlp pdata) : Type 0 where
    pub contents : Text
    pub read : fs.read_all f (max_json_bytes + 1) ≡ some contents
    pub is_bounded : length contents ≤ max_json_bytes
    pub parsed : parse_otlp pdata decoder contents ≡ ok o

  read_otlp-Reads : (f : fs.File) (o : Otlp pdata) → read_otlp pdata decoder fs f ≡ ok o → Reads f o
  unfolding read_otlp
  read_otlp-Reads f o h = elim (Option-cases (fs.file_stat f)) [
    | inl e ↦ absurd (let q : err not_a_file ≡ ok o = ground arith in cc)
    | inr (info, e) ↦ elim (Bool-cases info.is_regular) [
      | inr r ↦ absurd (let q : err not_a_file ≡ ok o = ground arith in cc)
      | inl r ↦ elim (Option-cases (fs.read_all f (max_json_bytes + 1))) [
        | inl d ↦ absurd (let q : err read_fixture ≡ ok o = ground arith in cc)
        | inr (contents, d) ↦ elim (Bool-cases (ltb max_json_bytes (length contents))) [
          | inl b ↦ absurd (let q : err fixture_too_large ≡ ok o = ground arith in cc)
          | inr b ↦ record {
            contents = contents;
            read = d;
            is_bounded = ground arith;
            parsed = ground arith;
          }
        ]
      ]
    ]
  ]

  -- If a fixture is loaded for the Collector runner, its path is that of a regular file within
  -- the size limit, and its content, which was read from the open file, is within the limit and
  -- parses to the fixture.
  pub load_otlp-bounded :
      (path : Text) (o : Otlp pdata)
      → load_otlp pdata decoder fs path ≡ ok o
      → (info : FileInfo) × (f : fs.File) × (fs.stat path ≡ some info)
        × (info.is_regular ≡ true)
        × (info.size ≤ max_json_bytes)
        × (fs.open_file path ≡ some f)
        × Reads f o
  unfolding load_otlp
  load_otlp-bounded path o h = elim (Option-cases (fs.stat path)) [
    | inl e ↦ absurd (let q : err not_a_small_file ≡ ok o = ground arith in cc)
    | inr (info, e) ↦ elim (Bool-cases (not info.is_regular || ltb max_json_bytes info.size)) [
      | inl b ↦ absurd (let q : err not_a_small_file ≡ ok o = ground arith in cc)
      | inr b ↦ elim (Option-cases (fs.open_file path)) [
        | inl d ↦ absurd (let q : err cannot_open ≡ ok o = ground arith in cc)
        | inr (f, d) ↦
            (info, f, e, ground arith, ground arith, d, read_otlp-Reads f o (ground arith))
      ]
    ]
  ]
