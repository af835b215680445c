-- ===== src/Files/Hash.antt =====
-- The loops of internal/cli/cli.go and internal/runner/collector.go that hash a file in pieces and
-- stop at a limit.
use otel_policy_lab.Prelude.{
  ℕ, zero, suc, ◌+◌, ◌-◌, ◌≡◌, ◌≢◌, ◌≤◌, refl, sym, ap, ◌∙◌, Bool, false, Bool-cases, inl, inr, ltb,
  arith, if◌then◌else◌,
}
use otel_policy_lab.Files.{FileSystem, ReadEnd, read_more, read_eof, read_failed}

-- The hash of the reads so many, no hash, or more turns of the loop than `fuel` counts.
pub data HashEnd : Type 0 where
  hashed : ℕ → HashEnd
  given_up : HashEnd
  unfinished : HashEnd

module _ (fs : FileSystem) (f : fs.File) (interrupted : ℕ → Bool) (limit : ℕ) where
  -- How a turn goes on after its read.
  abbrev pub after_read : ReadEnd → (i total : ℕ) → HashEnd → HashEnd
  after_read read_more i total rest = if ltb limit total then given_up else rest
  after_read read_eof i total rest = if ltb limit total then given_up else hashed (suc i)
  after_read read_failed i total rest = given_up

  -- The loop from read `i`, with `total` bytes read. `interrupted i` is whether the context has
  -- ended at that turn.
  unfoldable pub hash_reads : ℕ → (i total : ℕ) → HashEnd
  hash_reads zero i total = unfinished
  hash_reads (suc fuel) i total =
      let (n, end) = fs.read f i in
      let rest = hash_reads fuel (suc i) (total + n) in
      if interrupted i then given_up else after_read end i (total + n) rest

  -- `Read` yields a byte or more, unless it ends the loop.
  abbrev pub Proceeds : Type 0
  Proceeds = (i : ℕ) → (fs.read f i).1 ≡ read_more → 1 ≤ (fs.read f i).0

  -- The bytes of the reads from `i` on.
  unfoldable pub bytes_of : (n i : ℕ) → ℕ
  bytes_of zero i = 0
  bytes_of (suc n) i = (fs.read f i).0 + bytes_of n (suc i)

  after_read-ends :
      (end : ReadEnd) (i total : ℕ) (rest : HashEnd)
      → (end ≡ read_more → ltb limit total ≡ false → rest ≢ unfinished)
      → after_read end i total rest ≢ unfinished
  after_read-ends read_more i total rest h = elim (Bool-cases (ltb limit total)) [
    | inl e ↦ rw e (λ q. cc)
    | inr e ↦ rw e (h refl e)
  ]
  after_read-ends read_eof i total rest h = elim (Bool-cases (ltb limit total)) [
    | inl e ↦ rw e (λ q. cc)
    | inr e ↦ rw e (λ q. cc)
  ]
  after_read-ends read_failed i total rest h = λ q. cc

  -- If every read that does not end the loop yields a byte or more, the loop that hashes a file
  -- ends within as many turns as there are bytes left below the limit, and two more.
  pub hash_reads-ends :
      (fuel i total : ℕ)
      → Proceeds
      → limit + 2 ≤ fuel + total
      → 1 ≤ fuel
      → hash_reads fuel i total ≢ unfinished
  unfolding hash_reads
  hash_reads-ends zero i total p h g = absurd (omega arith)
  hash_reads-ends (suc fuel) i total p h g = elim (Bool-cases (interrupted i)) [
    | inl e ↦ rw e (λ q. cc)
    | inr e ↦ rw e (
        after_read-ends (fs.read f i).1 i (total + (fs.read f i).0) _ (λ more small.
          let some_read = p i more in
          let within : total + (fs.read f i).0 ≤ limit = ground arith in
          hash_reads-ends fuel (suc i) (total + (fs.read f i).0) p (omega arith) (omega arith)))
  ]

  -- The file was read to its end, in reads that together hold no more than the limit.
  pub record HashedAll (i total n : ℕ) : Type 0 where
    pub reads : ℕ
    pub to_the_end : n ≡ i + reads
    pub is_bounded : total + bytes_of reads i ≤ limit
    pub ends : (fs.read f (n - 1)).1 ≡ read_eof

  after_read-HashedAll :
      (end : ReadEnd) (i n : ℕ) (total : ℕ) (rest : HashEnd)
      → (fs.read f i).1 ≡ end
      → (rest ≡ hashed n → HashedAll (suc i) (total + (fs.read f i).0) n)
      → after_read end i (total + (fs.read f i).0) rest ≡ hashed n
      → HashedAll i total n
  unfolding bytes_of
  after_read-HashedAll read_more i n total rest d h q =
      elim (Bool-cases (ltb limit (total + (fs.read f i).0))) [
        | inl e ↦ absurd (let r : given_up ≡ hashed n = ground arith in cc)
        | inr e ↦
            (let r = h (ground arith) in
              let e = r.to_the_end in
              let b = r.is_bounded in
              record {
                reads = suc r.reads;
                to_the_end = omega arith;
                is_bounded = omega arith;
                ends = r.ends;
              })
      ]
  after_read-HashedAll read_eof i n total rest d h q =
      elim (Bool-cases (ltb limit (total + (fs.read f i).0))) [
        | inl e ↦ absurd (let r : given_up ≡ hashed n = ground arith in cc)
        | inr e ↦
            (let last : hashed (suc i) ≡ hashed n = ground arith in
              let before_last : i ≡ n - 1 = ground arith in
              record {
                reads = 1;
                to_the_end = ground arith;
                is_bounded = ground arith;
                ends = ap (λ j. (fs.read f j).1) (sym before_last) ∙ d;
              })
      ]
  after_read-HashedAll read_failed i n total rest d h q = cc

  -- If the loop that hashes a file yields a hash, the last of the reads that it covers met the
  -- end of the file, and all the bytes read are within the limit.
  pub hash_reads-HashedAll :
      (fuel i total n : ℕ) → hash_reads fuel i total ≡ hashed n → HashedAll i total n
  unfolding hash_reads
  hash_reads-HashedAll zero i total n h = cc
  hash_reads-HashedAll (suc fuel) i total n h = elim (Bool-cases (interrupted i)) [
    | inl e ↦ absurd (let r : given_up ≡ hashed n = ground arith in cc)
    | inr e ↦
        after_read-HashedAll (fs.read f i).1 i n total _ refl
          (hash_reads-HashedAll fuel (suc i) (total + (fs.read f i).0) n) (ground arith)
  ]
