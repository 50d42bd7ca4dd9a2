-- ===== src/Chunker/Code/Scanner.antt =====
-- What the scanner leaves out.
use semidx.Prelude.{
  ℕ, suc, ◌+◌, ◌≤◌, ◌≡◌, refl, false, [], ◌∷◌, ◌++◌, length, leb, ◌==◌, arith, All, Bool-cases, inl,
  inr, length-append, some, ◌<◌,
}
use semidx.Prelude.Bytes.{Bytes}
use semidx.Chunker.Code.{
  max_scan_token_size, scan_from, scan_lines, chunk_code, code_lines, code_chunks, flush,
  CodeAccumulator, new_accumulator,
}

abbrev pub IsOneLine : Bytes → Type 0
IsOneLine s = All (λ c. (c == 10) ≡ false) s

scan_from_overfull :
    (line rest : Bytes) → max_scan_token_size ≤ length line → scan_from line rest ≡ []
unfolding scan_from
scan_from_overfull line [] h = ground arith
scan_from_overfull line (c ∷ rest) h = elim (Bool-cases (c == 10)) [
  | inl ends ↦
      let over : leb (suc (length line)) max_scan_token_size ≡ false = ground arith in
      rw (ends, over) refl
  | inr on ↦
      rw on
        (scan_from_overfull (line ++ (c ∷ [])) rest (omega (arith, length-append line (c ∷ []))))
]

scan_from_long :
    (line long rest : Bytes)
    → IsOneLine long
    → max_scan_token_size ≤ length line + length long
    → scan_from line (long ++ rest) ≡ []
unfolding scan_from
scan_from_long line [] rest one h = scan_from_overfull line rest (omega arith)
scan_from_long line (c ∷ long) rest one h =
    rw one.0 (
      scan_from_long (line ++ (c ∷ [])) long rest one.1
        (omega (arith, length-append line (c ∷ []))))

scan_from_stops :
    (line before long rest : Bytes)
    → IsOneLine long
    → max_scan_token_size ≤ length long
    → scan_from line (before ++ (10 ∷ (long ++ rest))) ≡ scan_from line (before ++ (10 ∷ []))
unfolding scan_from
scan_from_stops line [] long rest one h = rw (scan_from_long [] long rest one (omega arith)) refl
scan_from_stops line (c ∷ before) long rest one h = elim (Bool-cases (c == 10)) [
  | inl ends ↦ rw (ends, scan_from_stops [] before long rest one h) refl
  | inr on ↦ rw (on, scan_from_stops (line ++ (c ∷ [])) before long rest one h) refl
]

-- The lines that `chunkCode` sees end before the first line of 64 KiB or more that follows a
-- newline: that line and everything behind it make no difference.
pub scan_lines_stops :
    (before long rest : Bytes)
    → IsOneLine long
    → max_scan_token_size ≤ length long
    → scan_lines (before ++ (10 ∷ (long ++ rest))) ≡ scan_lines (before ++ (10 ∷ []))
unfolding scan_lines
scan_lines_stops before long rest one h = scan_from_stops [] before long rest one h

positive_test : (n : ℕ) → 0 < n → (n == 0) ≡ false
positive_test n h = ground arith

-- If `chunkCode` finds chunks in a text that ends in a newline, it finds the same chunks in the text
-- with a line of 64 KiB or more and anything at all behind it: that part is dropped.
pub chunk_code-long_line :
    (fuel : ℕ) (before long rest : Bytes) (max_chars : ℕ) (a : CodeAccumulator)
    → IsOneLine long
    → max_scan_token_size ≤ length long
    → code_lines max_chars (scan_lines (before ++ (10 ∷ []))) 1 (some new_accumulator) ≡ some a
    → 0 < length (flush a).chunks
    → chunk_code fuel (before ++ (10 ∷ (long ++ rest))) max_chars
      ≡ chunk_code fuel (before ++ (10 ∷ [])) max_chars
unfolding chunk_code
chunk_code-long_line fuel before long rest max_chars a one h run found =
    let chunked : (length (flush a).chunks == 0) ≡ false = positive_test _ found in
    rw (scan_lines_stops before long rest one h, run) (unfold code_chunks in rw chunked refl)
