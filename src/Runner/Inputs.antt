-- ===== src/Runner/Inputs.antt =====
-- internal/runner/collector.go and process.go: how the Collector runner reads its configuration and identifies
-- its binary.
use mathlib.Core.Path.{subst}
use otel_policy_lab.Prelude.{
  ℕ, ◌+◌, ◌≡◌, ◌≢◌, ◌≤◌, refl, ap, ◌∙◌, ltb, Bool, true, false, not, ◌&&◌, Bool-cases, inl, inr,
  arith, Option-cases, bind-ok, bind-err, ◌>>=◌, Option, none, some, Text, length, Result, ok, err,
  if◌then◌else◌,
}
use otel_policy_lab.Files.{FileInfo, FileSystem}
use otel_policy_lab.Files.Hash.{
  HashEnd, hashed, given_up, unfinished, hash_reads, Proceeds, hash_reads-ends,
}

-- The errors of `readLimited` and `binaryChecksum`.
pub data InputError : Type 0 where
  cannot_stat not_regular cannot_open cannot_read over_limit : InputError
  binary_not_regular checksum_stopped checksum_unfinished : InputError

module _ (fs : FileSystem) where
  -- The error is nil and the file is regular.
  abbrev pub is_regular_info : Option FileInfo → Bool
  is_regular_info none = false
  is_regular_info (some info) = info.is_regular

  -- The part of `openRegular` on a path that has been looked up.
  unfoldable pub open_found : Text → Result InputError fs.File
  open_found path = elim (fs.open_file path) [
    | none ↦ err cannot_open
    | some f ↦ if is_regular_info (fs.file_stat f) then ok f else err not_regular
  ]

  unfoldable pub open_regular : Text → Result InputError fs.File
  unfolding open_found
  open_regular path = elim (fs.stat path) [
    | none ↦ err cannot_stat
    | some info ↦ if info.is_regular then open_found path else err not_regular
  ]

  -- The part of `readLimited` on an open file.
  unfoldable pub read_opened : ℕ → fs.File → Result InputError Text
  read_opened limit f =
      if not (is_regular_info (fs.file_stat f))
      then err not_regular
      else elim (fs.read_all f (limit + 1)) [
        | none ↦ err cannot_read
        | some contents ↦ if ltb limit (length contents) then err over_limit else ok contents
      ]

  unfoldable pub read_limited : Text → ℕ → Result InputError Text
  unfolding open_regular read_opened
  read_limited path limit = open_regular path >>= read_opened limit

  abbrev pub max_binary_bytes : ℕ
  max_binary_bytes = 536870912

  -- The loop takes a turn for each byte of the limit at most, and two more.
  abbrev pub checksum_fuel : ℕ
  checksum_fuel = max_binary_bytes + 2

  abbrev pub is_small_info : Option FileInfo → Bool
  is_small_info none = false
  is_small_info (some info) = info.is_regular && not (ltb max_binary_bytes info.size)

  abbrev pub checksum_of : fs.File → HashEnd → Result InputError Text
  checksum_of f (hashed n) = ok (fs.hash_of f n)
  checksum_of f given_up = err checksum_stopped
  checksum_of f unfinished = err checksum_unfinished

  -- `interrupted` is when the context has ended, by the turns of the loop.
  unfoldable pub checksum_opened : (ℕ → Bool) → fs.File → Result InputError Text
  unfolding hash_reads
  checksum_opened interrupted f =
      if not (is_small_info (fs.file_stat f))
      then err binary_not_regular
      else checksum_of f (hash_reads fs f interrupted max_binary_bytes checksum_fuel 0 0)

  unfoldable pub binary_checksum : (ℕ → Bool) → Text → Result InputError Text
  unfolding open_regular checksum_opened
  binary_checksum interrupted path = open_regular path >>= checksum_opened interrupted

  read_opened-bounded :
      (limit : ℕ) (f : fs.File) (contents : Text)
      → read_opened limit f ≡ ok contents
      → (fs.read_all f (limit + 1) ≡ some contents) × (length contents ≤ limit)
  unfolding read_opened
  read_opened-bounded limit f contents h = elim (Bool-cases (is_regular_info (fs.file_stat f))) [
    | inr q ↦ absurd (let x : err not_regular ≡ ok contents = ground arith in cc)
    | inl q ↦ elim (Option-cases (fs.read_all f (limit + 1))) [
      | inl d ↦ absurd (let x : err cannot_read ≡ ok contents = ground arith in cc)
      | inr (c, d) ↦ elim (Bool-cases (ltb limit (length c))) [
        | inl b ↦ absurd (let x : err over_limit ≡ ok contents = ground arith in cc)
        | inr b ↦
            (let same : c ≡ contents = ground arith in
              (d ∙ ap some same, subst (λ t. length t ≤ limit) same (ground arith)))
      ]
    ]
  ]

  -- What is read came from an open regular file, and is no longer than the limit.
  pub read_limited-bounded :
      (path : Text) (limit : ℕ) (contents : Text)
      → read_limited path limit ≡ ok contents
      → (f : fs.File) × (open_regular path ≡ ok f)
        × (fs.read_all f (limit + 1) ≡ some contents)
        × (length contents ≤ limit)
  unfolding read_limited
  read_limited-bounded path limit contents h =
      let (f, e, r) = bind-ok (open_regular path) (read_opened limit) contents h in
      let (d, b) = read_opened-bounded limit f contents r in (f, e, d, b)

  open_regular-ends : (path : Text) → open_regular path ≢ err checksum_unfinished
  unfolding open_regular open_found
  open_regular-ends path h = elim (Option-cases (fs.stat path)) [
    | inl e ↦ ground arith
    | inr (info, e) ↦ elim (Option-cases (fs.open_file path)) [
      | inl d ↦ ground arith
      | inr (f, d) ↦ ground (arith, Bool-cases (is_regular_info (fs.file_stat f)))
    ]
  ]

  checksum_of-ends :
      (f : fs.File) (end : HashEnd) → end ≢ unfinished → checksum_of f end ≢ err checksum_unfinished
  checksum_of-ends f (hashed n) h = λ q. cc
  checksum_of-ends f given_up h = λ q. cc
  checksum_of-ends f unfinished h = λ q. h refl

  neither_branch : {R : Type 0} (b : Bool) (x y z : R) → x ≢ z → y ≢ z → (if b then x else y) ≢ z
  neither_branch true x y z p q = p
  neither_branch false x y z p q = q

  -- If reads yield bytes until they end, the loop over the binary never stops for want of fuel.
  pub binary_checksum-ends :
      (interrupted : ℕ → Bool) (path : Text)
      → ((f : fs.File) → Proceeds fs f interrupted max_binary_bytes)
      → binary_checksum interrupted path ≢ err checksum_unfinished
  unfolding binary_checksum checksum_opened
  binary_checksum-ends interrupted path p h =
      elim (bind-err (open_regular path) (checksum_opened interrupted) checksum_unfinished h) [
        | inl e ↦ open_regular-ends path e
        | inr (f, e, q) ↦
            neither_branch (not (is_small_info (fs.file_stat f))) _ _ _ (λ x. cc)
              (checksum_of-ends f _ (
                hash_reads-ends fs f interrupted max_binary_bytes checksum_fuel 0 0 (p f)
                  (omega arith) (omega arith)))
              q
      ]
