-- ===== src/Chunker/Code/Tests.antt =====
-- Two lines of code, and a line of 64 KiB.
use semidx.Prelude.{
  ℕ, zero, suc, ◌<◌, ◌≡◌, refl, some, List, [], ◌∷◌, ◌++◌, length, replicate, length-replicate,
  arith,
}
use semidx.Prelude.Bytes.{Bytes, codes}
use semidx.Chunker.Space.{trim_space}
use semidx.Chunker.Code.{
  CodeAccumulator, new_accumulator, code_lines, code_line, append_line, flush, scan_lines,
  scan_from, chunk_code,
}
use semidx.Chunker.Code.Ranges.{AreOrdered, code_lines-AreOrdered}
use semidx.Chunker.Code.Scanner.{IsOneLine, chunk_code-long_line}

abbrev two_lines : List Bytes
two_lines = (97 ∷ 10 ∷ []) ∷ (98 ∷ 98 ∷ 98 ∷ 98 ∷ 10 ∷ []) ∷ []

code_lines-AreOrdered_example :
    (a : CodeAccumulator) × (code_lines 2 two_lines 1 (some new_accumulator) ≡ some a)
    × AreOrdered 1 2 (flush a).chunks
code_lines-AreOrdered_example = code_lines-AreOrdered 2 (omega arith) two_lines (omega arith)

replicate-IsOneLine : (n : ℕ) → IsOneLine (replicate n 97)
replicate-IsOneLine zero = tt
replicate-IsOneLine (suc n) = (refl, replicate-IsOneLine n)

abbrev one_letter : Bytes
one_letter = 97 ∷ []

abbrev pending_line : CodeAccumulator
pending_line = record { chunks = []; current = 97 ∷ 10 ∷ 10 ∷ []; cur_start = 1; cur_end = 1 }

scanned_line :
    code_lines 9 (scan_lines (one_letter ++ (10 ∷ []))) 1 (some new_accumulator) ≡ some pending_line
unfolding code_lines code_line append_line scan_lines scan_from trim_space
scanned_line = refl

flushed_line : 0 < length (flush pending_line).chunks
unfolding flush
flushed_line = omega arith

chunk_code-long_line_example :
    chunk_code 1 (one_letter ++ (10 ∷ (replicate 65_536 97 ++ codes "lost"))) 9
    ≡ chunk_code 1 (one_letter ++ (10 ∷ [])) 9
chunk_code-long_line_example =
    chunk_code-long_line 1 one_letter (replicate 65_536 97) (codes "lost") 9 pending_line
      (replicate-IsOneLine 65_536) (omega (arith, length-replicate {A = ℕ} 65_536 97)) scanned_line
      flushed_line
