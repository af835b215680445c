-- ===== src/Runner/PrivateBuffer/Markers.antt =====
-- The flags of the buffer tell what was written, however it was cut into writes.
use mathlib.Core.List.{append_assoc, append-nil}
use mathlib.Core.Path.{subst}
use otel_policy_lab.Prelude.{
  ℕ, zero, suc, ◌+◌, ◌-◌, ◌≡◌, ◌≤◌, refl, sym, ap, ap₂, ◌∙◌, ltb, true, ◌||◌, ◌&&◌, List, [], ◌∷◌,
  ◌++◌, map, Text, codes, length, take, drop, any, arith, has_prefix, contains_text, to_lower,
  is_ascii, lower_byte, Bool-cases, inl, inr, length-drop, drop-drop,
}
use otel_policy_lab.Report.Series.{concat}
use otel_policy_lab.Runner.PrivateBuffer.{
  PrivateBuffer, empty_buffer, max_diagnostic_bytes, previous_suffix, next_prefix, ready_marker,
  export_failure_text, write, write_all,
}
use otel_policy_lab.Runner.PrivateBuffer.Bounded.{
  suffix, keep_bytes-suffix, suffix-append, suffix-le,
}
use otel_policy_lab.Runner.PrivateBuffer.Occurrence.{contains-append}

is_ascii-append : (s t : Text) → is_ascii (s ++ t) ≡ (is_ascii s && is_ascii t)
is_ascii-append [] t = refl
is_ascii-append (c ∷ s) t = ground (arith, is_ascii-append s t)

is_ascii-drop : (n : ℕ) (s : Text) → is_ascii s ≡ true → is_ascii (drop n s) ≡ true
is_ascii-drop zero s h = h
is_ascii-drop (suc n) [] h = h
is_ascii-drop (suc n) (c ∷ s) h = is_ascii-drop n s (ground arith)

is_ascii-take : (n : ℕ) (s : Text) → is_ascii s ≡ true → is_ascii (take n s) ≡ true
is_ascii-take zero s h = refl
is_ascii-take (suc n) [] h = refl
is_ascii-take (suc n) (c ∷ s) h = ground (arith, is_ascii-take n s)

module _ (f : ℕ → ℕ) where
  map-drop : (n : ℕ) (s : Text) → map f (drop n s) ≡ drop n (map f s)
  map-drop zero s = refl
  map-drop (suc n) [] = refl
  map-drop (suc n) (c ∷ s) = map-drop n s

  map-take : (n : ℕ) (s : Text) → map f (take n s) ≡ take n (map f s)
  map-take zero s = refl
  map-take (suc n) [] = refl
  map-take (suc n) (c ∷ s) = ap (λ r. f c ∷ r) (map-take n s)

  length-map : (s : Text) → length (map f s) ≡ length s
  length-map [] = refl
  length-map (c ∷ s) = ap suc (length-map s)

  map-append : (s t : Text) → map f (s ++ t) ≡ map f s ++ map f t
  map-append [] t = refl
  map-append (c ∷ s) t = ap (λ r. f c ∷ r) (map-append s t)

  map-suffix : (k : ℕ) (s : Text) → map f (suffix k s) ≡ suffix k (map f s)
  map-suffix k s = map-drop (length s - k) s ∙ ap (λ n. drop (n - k) (map f s)) (sym (length-map s))

take_all : (n : ℕ) (s : Text) → length s ≤ n → take n s ≡ s
take_all zero [] h = refl
take_all zero (c ∷ s) h = absurd (omega arith)
take_all (suc n) [] h = refl
take_all (suc n) (c ∷ s) h = ap (λ r. c ∷ r) (take_all n s (omega arith))

previous_suffix-eq : (b : Text) → previous_suffix b ≡ suffix 32 b
unfolding previous_suffix
previous_suffix-eq b = elim (Bool-cases (ltb 32 (length b))) [
  | inl e ↦ rw e refl
  | inr e ↦
      (let nothing : length b - 32 ≡ 0 = ground (arith, e) in
        rw e (sym (ap (λ n. drop n b) nothing)))
]

next_prefix-eq : (p : Text) → next_prefix p ≡ take 32 p
unfolding next_prefix
next_prefix-eq p = elim (Bool-cases (ltb 32 (length p))) [
  | inl e ↦ rw e refl
  | inr e ↦ rw e (sym (take_all 32 p (ground (arith, e))))
]

suffix-suffix : (k m : ℕ) (s : Text) → k ≤ m → suffix k (suffix m s) ≡ suffix k s
suffix-suffix k m s h =
    drop-drop (length (suffix m s) - k) (length s - m) s
    ∙ ap (λ n. drop n s)
        (let e : length s - m + (length (suffix m s) - k) ≡ length s - k =
            omega (arith, length-drop (length s - m) s) in
          e)

module _ (unicode_lower : Text → Text) where
  to_lower-ascii : (s : Text) → is_ascii s ≡ true → to_lower unicode_lower s ≡ map lower_byte s
  unfolding to_lower
  to_lower-ascii s h = rw h refl

  -- `phrase` stands in what is written if it stands in one of the pieces or in the seam.
  contains-write :
      (phrase s p : Text)
      → 1 ≤ length phrase
      → length phrase ≤ 33
      → is_ascii (s ++ p) ≡ true
      → contains_text (to_lower unicode_lower (s ++ p)) phrase ≡ (
          contains_text (to_lower unicode_lower s) phrase
          || (contains_text (to_lower unicode_lower p) phrase
              || contains_text (to_lower unicode_lower (suffix 32 s ++ take 32 p)) phrase))
  contains-write phrase s p l u a =
      let both = is_ascii-append s p in
      let of_s : is_ascii s ≡ true = ground (arith, both, a) in
      let of_p : is_ascii p ≡ true = ground (arith, both, a) in
      let of_end = is_ascii-drop (length s - 32) s of_s in
      let of_start = is_ascii-take 32 p of_p in
      let of_seam : is_ascii (suffix 32 s ++ take 32 p) ≡ true =
        ground (arith, is_ascii-append (suffix 32 s) (take 32 p), of_end, of_start) in
      let whole : to_lower unicode_lower (s ++ p) ≡ map lower_byte s ++ map lower_byte p =
        to_lower-ascii (s ++ p) a ∙ map-append lower_byte s p in
      let seam : to_lower unicode_lower (suffix 32 s ++ take 32 p)
          ≡ suffix 32 (map lower_byte s) ++ take 32 (map lower_byte p) =
        to_lower-ascii (suffix 32 s ++ take 32 p) of_seam
        ∙ map-append lower_byte (suffix 32 s) (take 32 p)
        ∙ ap₂ ◌++◌ (map-suffix lower_byte 32 s) (map-take lower_byte 32 p) in
      rw (whole, to_lower-ascii s of_s, to_lower-ascii p of_p, seam)
        (contains-append phrase (map lower_byte s) (map lower_byte p) 32 l (omega (arith, u)))

  export_failure_text-write :
      (s p : Text)
      → is_ascii (s ++ p) ≡ true
      → export_failure_text unicode_lower (s ++ p) ≡ (
          export_failure_text unicode_lower s
          || (export_failure_text unicode_lower p
              || export_failure_text unicode_lower (suffix 32 s ++ take 32 p)))
  unfolding export_failure_text any
  export_failure_text-write s p a = ground (
    arith,
    contains-write (codes "exporting failed") s p (omega arith) (omega arith) a,
    contains-write (codes "exporter failed") s p (omega arith) (omega arith) a,
    contains-write (codes "failed to export") s p (omega arith) (omega arith) a,
    contains-write (codes "failed to shutdown") s p (omega arith) (omega arith) a,
  )

  -- What the buffer says of all that was written so far.
  record Follows (b : PrivateBuffer) (s : Text) : Type 0 where
    bytes_eq : b.bytes ≡ suffix max_diagnostic_bytes s
    ready_eq : b.ready ≡ contains_text (to_lower unicode_lower s) ready_marker
    export_failure_eq : b.export_failure ≡ export_failure_text unicode_lower s

  seam-eq :
      (b : PrivateBuffer) (s p : Text)
      → Follows b s
      → previous_suffix b.bytes ++ next_prefix p ≡ suffix 32 s ++ take 32 p
  seam-eq b s p h =
      ap₂ ◌++◌
        (previous_suffix-eq b.bytes
          ∙ ap (suffix 32) h.bytes_eq
          ∙ suffix-suffix 32 max_diagnostic_bytes s (omega arith))
        (next_prefix-eq p)

  write-Follows :
      (b : PrivateBuffer) (s p : Text)
      → is_ascii (s ++ p) ≡ true
      → Follows b s
      → Follows (write unicode_lower p b) (s ++ p)
  unfolding write
  write-Follows b s p a h =
      let bound : length b.bytes ≤ max_diagnostic_bytes =
        rw h.bytes_eq (suffix-le max_diagnostic_bytes s) in
      let ready = contains-write ready_marker s p (omega arith) (omega arith) a in
      let failing = export_failure_text-write s p a in
      record {
        bytes_eq =
            keep_bytes-suffix b.bytes p bound
            ∙ ap (λ t. suffix max_diagnostic_bytes (t ++ p)) h.bytes_eq
            ∙ suffix-append max_diagnostic_bytes s p;
        ready_eq = rw (seam-eq b s p h) (ground (arith, ready, h.ready_eq));
        export_failure_eq = rw (seam-eq b s p h) (ground (arith, failing, h.export_failure_eq));
      }

  write_all-Follows :
      (ps : List Text) (b : PrivateBuffer) (s : Text)
      → is_ascii (s ++ concat ps) ≡ true
      → Follows b s
      → Follows (write_all unicode_lower ps b) (s ++ concat ps)
  unfolding write_all
  write_all-Follows [] b s a h = rw (append-nil s) h
  write_all-Follows (p ∷ ps) b s a h =
      let regroup : (s ++ p) ++ concat ps ≡ s ++ concat (p ∷ ps) = append_assoc s p (concat ps) in
      let all_ascii : is_ascii ((s ++ p) ++ concat ps) ≡ true = ap is_ascii regroup ∙ a in
      let first : is_ascii (s ++ p) ≡ true =
        ground (arith, all_ascii, is_ascii-append (s ++ p) (concat ps)) in
      subst (Follows (write_all unicode_lower ps (write unicode_lower p b))) regroup (
        write_all-Follows ps (write unicode_lower p b) (s ++ p) all_ascii
          (write-Follows b s p first h))

  empty-Follows : Follows empty_buffer []
  unfolding to_lower contains_text has_prefix export_failure_text any
  empty-Follows = record { bytes_eq = refl; ready_eq = refl; export_failure_eq = refl }

  -- If all that is written to an empty buffer is ASCII, then after any sequence of writes the
  -- readiness flag tells whether the readiness marker stands in the lower-case text of all that
  -- was written, and the flag of export failures tells whether all that was written speaks of
  -- one, however the text was cut into writes.
  pub write_all-markers :
      (ps : List Text)
      → is_ascii (concat ps) ≡ true
      → ((write_all unicode_lower ps empty_buffer).ready
          ≡ contains_text (to_lower unicode_lower (concat ps)) ready_marker)
        × ((write_all unicode_lower ps empty_buffer).export_failure
            ≡ export_failure_text unicode_lower (concat ps))
  write_all-markers ps a =
      let h = write_all-Follows ps empty_buffer [] a empty-Follows in
      (h.ready_eq, h.export_failure_eq)
