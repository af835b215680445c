-- ===== src/Runner/PrivateBuffer/Bounded.antt =====
-- The buffer holds the end of all that was written, and never more than its bound.
use otel_policy_lab.Prelude.{
  ℕ, ◌+◌, ◌-◌, ◌≡◌, ◌≤◌, refl, sym, ap, ◌∙◌, ltb, leb, List, [], ◌∷◌, ◌++◌, Text, length, drop,
  length-append, length-drop, drop-append, drop-append_right, drop-drop, arith, inl, inr,
  Bool-cases,
}
use otel_policy_lab.Report.Series.{concat}
use otel_policy_lab.Runner.PrivateBuffer.{
  PrivateBuffer, empty_buffer, max_diagnostic_bytes, keep_bytes, write, write_all,
}
use mathlib.Core.List.{append_assoc, append-nil}

-- The last `m` bytes of a text, or all of it.
abbrev pub suffix : ℕ → Text → Text
suffix m s = drop (length s - m) s

pub suffix-le : (m : ℕ) (s : Text) → length (suffix m s) ≤ m
suffix-le m s = omega (arith, length-drop (length s - m) s)

-- Forgetting all but the end before more is written does not change the end.
pub suffix-append : (m : ℕ) (s p : Text) → suffix m (suffix m s ++ p) ≡ suffix m (s ++ p)
suffix-append m s p =
    let k = length s - m in
    let joined : suffix m s ++ p ≡ drop k (s ++ p) =
      sym (drop-append k s p (let q : length s - m ≤ length s = omega arith in q)) in
    let count : k + (length (drop k (s ++ p)) - m) ≡ length (s ++ p) - m =
      omega (arith, length-drop k (s ++ p), length-append s p) in
    ap (suffix m) joined
    ∙ drop-drop (length (drop k (s ++ p)) - m) k (s ++ p)
    ∙ ap (λ n. drop n (s ++ p)) count

-- One write keeps the end of what was there and what is written.
pub keep_bytes-suffix :
    (bytes p : Text)
    → length bytes ≤ max_diagnostic_bytes
    → keep_bytes bytes p ≡ suffix max_diagnostic_bytes (bytes ++ p)
unfolding keep_bytes
keep_bytes-suffix bytes p h =
    let total = length-append bytes p in
    elim (Bool-cases (leb max_diagnostic_bytes (length p))) [
      | inl e ↦
          (let count : length (bytes ++ p) - max_diagnostic_bytes - length bytes
                ≡ length p - max_diagnostic_bytes =
              ground (arith, total, e) in
            rw e (
              ap (λ n. drop n p) (sym count)
              ∙ sym (
                  drop-append_right (length (bytes ++ p) - max_diagnostic_bytes) bytes p
                    (ground (arith, total, e)))))
      | inr e ↦ elim (Bool-cases (ltb 0 (length bytes + length p - max_diagnostic_bytes))) [
        | inl f ↦
            rw (e, f)
              (sym (
                  drop-append (length bytes + length p - max_diagnostic_bytes) bytes p
                    (ground (arith, e, f)))
                ∙ ap (λ n. drop (n - max_diagnostic_bytes) (bytes ++ p)) (sym total))
        | inr f ↦
            (let none_left : length (bytes ++ p) - max_diagnostic_bytes ≡ 0 =
                ground (arith, total, f) in
              rw (e, f) (sym (ap (λ n. drop n (bytes ++ p)) none_left)))
      ]
    ]

module _ (unicode_lower : Text → Text) where
  write_all-from :
      (ps : List Text) (b : PrivateBuffer) (s : Text)
      → b.bytes ≡ suffix max_diagnostic_bytes s
      → (write_all unicode_lower ps b).bytes ≡ suffix max_diagnostic_bytes (s ++ concat ps)
  unfolding write_all write
  write_all-from [] b s h = h ∙ ap (suffix max_diagnostic_bytes) (sym (append-nil s))
  write_all-from (p ∷ ps) b s h =
      let bound : length b.bytes ≤ max_diagnostic_bytes = rw h (suffix-le max_diagnostic_bytes s) in
      write_all-from ps (write unicode_lower p b) (s ++ p) (
        keep_bytes-suffix b.bytes p bound
        ∙ ap (λ t. suffix max_diagnostic_bytes (t ++ p)) h
        ∙ suffix-append max_diagnostic_bytes s p)
      ∙ ap (suffix max_diagnostic_bytes) (append_assoc s p (concat ps))

  -- After any sequence of writes to an empty buffer, its bytes are the last 65536 bytes of all
  -- that was written, or all of it if it is shorter, and never more than 65536 bytes.
  pub write_all-suffix :
      (ps : List Text)
      → ((write_all unicode_lower ps empty_buffer).bytes ≡ suffix max_diagnostic_bytes (concat ps))
        × (length (write_all unicode_lower ps empty_buffer).bytes ≤ max_diagnostic_bytes)
  write_all-suffix ps =
      let e = write_all-from ps empty_buffer [] refl in
      (e, rw e (suffix-le max_diagnostic_bytes (concat ps)))
