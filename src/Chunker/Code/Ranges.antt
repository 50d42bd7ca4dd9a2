-- ===== src/Chunker/Code/Ranges.antt =====
-- The line ranges of the chunks of code.
use semidx.Prelude.{
  ℕ, suc, ◌+◌, ◌-◌, ◌≤◌, ◌≡◌, refl, subst, true, false, ◌&&◌, some, List, [], ◌∷◌, ◌++◌, length,
  ltb, ◌==◌, if◌then◌else◌, arith, Bool-cases, inl, inr, length-append,
}
use semidx.Prelude.Bytes.{Bytes}
use semidx.Chunker.Space.{trim_space}
use semidx.Chunker.Prose.{Chunk, plain_chunk}
use semidx.Chunker.Runes.Pieces.{split_runes-IsPiece}
use semidx.Chunker.Code.{
  CodeAccumulator, new_accumulator, has_pending, flush, write_line, append_line, piece_chunks,
  add_pieces, append_oversized_line, code_line, code_lines,
}

-- The ranges are not empty, in order from line `lo` to line `hi`, and share at most a line.
abbrev pub AreOrdered : ℕ → ℕ → List Chunk → Type 0
AreOrdered lo hi [] = Unit
AreOrdered lo hi (c ∷ cs) =
    (lo ≤ c.start_line)
    × (c.start_line ≤ c.end_line)
    × (c.end_line ≤ hi)
    × AreOrdered c.end_line hi cs

AreOrdered-mono :
    (lo hi hi' : ℕ) (cs : List Chunk) → hi ≤ hi' → AreOrdered lo hi cs → AreOrdered lo hi' cs
AreOrdered-mono lo hi hi' [] le o = tt
AreOrdered-mono lo hi hi' (c ∷ cs) le (a, b, d, o) =
    (a, b, omega arith, AreOrdered-mono c.end_line hi hi' cs le o)

AreOrdered-weaken :
    (lo lo' hi : ℕ) (cs : List Chunk) → lo' ≤ lo → AreOrdered lo hi cs → AreOrdered lo' hi cs
AreOrdered-weaken lo lo' hi [] le o = tt
AreOrdered-weaken lo lo' hi (c ∷ cs) le (a, b, d, o) = (omega arith, b, d, o)

AreOrdered-append :
    (lo mid hi : ℕ) (cs ds : List Chunk)
    → lo ≤ mid
    → mid ≤ hi
    → AreOrdered lo mid cs
    → AreOrdered mid hi ds
    → AreOrdered lo hi (cs ++ ds)
AreOrdered-append lo mid hi [] ds le up o p = AreOrdered-weaken mid lo hi ds le p
AreOrdered-append lo mid hi (c ∷ cs) ds le up (a, b, d, o) p =
    (a, b, omega arith, AreOrdered-append c.end_line mid hi cs ds d up o p)

-- After `k` lines: the chunks end before the pending lines, and those lie within the `k` lines.
record IsAt (k : ℕ) (a : CodeAccumulator) : Type 0 where
  pub ordered : AreOrdered 1 (if has_pending a then a.cur_start else suc k) a.chunks
  pub pending :
      has_pending a ≡ true → (1 ≤ a.cur_start) × (a.cur_start ≤ a.cur_end) × (a.cur_end ≤ suc k)

-- nothing is pending and the chunks lie within the lines to `hi`
record IsFlushed (hi : ℕ) (a : CodeAccumulator) : Type 0 where
  pub ordered : AreOrdered 1 hi a.chunks
  pub empty : has_pending a ≡ false

flush-IsFlushed : (k : ℕ) (a : CodeAccumulator) → IsAt k a → IsFlushed (suc k) (flush a)
unfolding flush
flush-IsFlushed k a at = elim (Bool-cases (has_pending a)) [
  | inr empty ↦ rw empty (record { ordered = rw empty at at.ordered; empty = empty })
  | inl more ↦
      let (one, up, within) = at.pending more in
      rw more (record {
        ordered =
            AreOrdered-append 1 a.cur_start (suc k) a.chunks
              (plain_chunk (trim_space a.current) a.cur_start a.cur_end ∷ []) one (omega arith)
              (rw more at at.ordered) (omega arith, up, within, tt);
        empty = refl;
      })
]

IsFlushed-IsAt : (k : ℕ) (a : CodeAccumulator) → IsFlushed (suc k) a → IsAt k a
IsFlushed-IsAt k a f = record {
  ordered = rw f.empty f.ordered;
  pending = λ h. absurd (ground (arith, f.empty));
}

-- what is pending after a line was written
pending_written :
    (line : Bytes) (n : ℕ) (a : CodeAccumulator) → has_pending (write_line line n a) ≡ true
pending_written line n a =
    ground (arith, length-append a.current (line ++ (10 ∷ [])), length-append line (10 ∷ []))

write_line-IsAt :
    (line : Bytes) (k : ℕ) (a : CodeAccumulator) → IsAt k a → IsAt k (write_line line (suc k) a)
write_line-IsAt line k a at = elim (Bool-cases (has_pending a)) [
  | inl more ↦
      let (one, up, within) = at.pending more in
      record {
        ordered = rw (pending_written line (suc k) a, more) (rw more at at.ordered);
        pending = λ h. rw more (one, omega arith, omega arith);
      }
  | inr empty ↦ record {
    ordered = rw (pending_written line (suc k) a, empty) (rw empty at at.ordered);
    pending = λ h. rw empty (omega arith, omega arith, omega arith);
  }
]

append_line-IsAt :
    (max_chars : ℕ) (line : Bytes) (k : ℕ) (a : CodeAccumulator)
    → IsAt k a
    → IsAt k (append_line max_chars line (suc k) a)
unfolding append_line
append_line-IsAt max_chars line k a at =
    elim (Bool-cases (ltb max_chars (length a.current + length line + 1) && has_pending a)) [
      | inl over ↦
          rw over
            (write_line-IsAt line k (flush a) (IsFlushed-IsAt k (flush a) (flush-IsFlushed k a at)))
      | inr fits ↦ rw fits (write_line-IsAt line k a at)
    ]

piece_chunks-AreOrdered : (pieces : List Bytes) (n : ℕ) → AreOrdered n n (piece_chunks pieces n)
unfolding piece_chunks
piece_chunks-AreOrdered [] n = tt
piece_chunks-AreOrdered (piece ∷ pieces) n =
    let rest = piece_chunks-AreOrdered pieces n in
    elim (Bool-cases (length (trim_space piece) == 0)) [
      | inl blank ↦ rw blank rest
      | inr text ↦ rw text (omega arith, omega arith, omega arith, rest)
    ]

module _ (max_chars : ℕ) (some_budget : 1 ≤ max_chars) where
  append_oversized_line-IsAt :
      (line : Bytes) (k : ℕ) (a : CodeAccumulator)
      → IsAt k a
      → (b : CodeAccumulator) × (append_oversized_line max_chars line (suc k) a ≡ some b) × IsAt k b
  unfolding append_oversized_line add_pieces
  append_oversized_line-IsAt line k a at =
      let (pieces, run, whole, good, starts) =
        split_runes-IsPiece max_chars some_budget (suc (length line)) line (omega arith) in
      let f = flush-IsFlushed k a at in
      (
        record (flush a) { chunks = (flush a).chunks ++ piece_chunks pieces (suc k) },
        rw (run, add_pieces) refl,
        IsFlushed-IsAt k _ (record {
          ordered =
              AreOrdered-append 1 (suc k) (suc k) (flush a).chunks (piece_chunks pieces (suc k))
                (omega arith) (omega arith) f.ordered (piece_chunks-AreOrdered pieces (suc k));
          empty = f.empty;
        }),
      )

  code_line-IsAt :
      (line : Bytes) (k : ℕ) (a : CodeAccumulator)
      → IsAt k a
      → (b : CodeAccumulator) × (code_line max_chars line (suc k) a ≡ some b) × IsAt k b
  unfolding code_line
  code_line-IsAt line k a at =
      elim (Bool-cases ((length (trim_space line) == 0) && has_pending a)) [
        | inl blank ↦ (flush a, rw blank refl, IsFlushed-IsAt k (flush a) (flush-IsFlushed k a at))
        | inr text ↦ elim (Bool-cases (ltb max_chars (length line))) [
          | inl over ↦
              let (b, run, after) = append_oversized_line-IsAt line k a at in
              (b, rw (text, over) run, after)
          | inr fits ↦ (
            append_line max_chars line (suc k) a,
            rw (text, fits) refl,
            append_line-IsAt max_chars line k a at,
          )
        ]
      ]

  IsAt-suc : (k : ℕ) (a : CodeAccumulator) → IsAt k a → IsAt (suc k) a
  IsAt-suc k a at = elim (Bool-cases (has_pending a)) [
    | inl more ↦
        let (one, up, within) = at.pending more in
        record { ordered = rw more (rw more at at.ordered); pending = λ h. (one, up, omega arith) }
    | inr empty ↦ record {
      ordered =
          rw empty (
            AreOrdered-mono 1 (suc k) (suc (suc k)) a.chunks (omega arith)
              (rw empty at at.ordered));
      pending = λ h. absurd (ground arith);
    }
  ]

  code_lines-IsAt :
      (lines : List Bytes) (k : ℕ) (a : CodeAccumulator)
      → IsAt k a
      → (b : CodeAccumulator) × (code_lines max_chars lines (suc k) (some a) ≡ some b)
        × IsAt (k + (length lines - 1)) b
  unfolding code_lines
  code_lines-IsAt [] k a at = let e : k + (0 - 1) ≡ k = omega arith in (a, refl, rw e at)
  code_lines-IsAt (line ∷ []) k a at =
      let (b, run, after) = code_line-IsAt line k a at in
      let e : k + (1 - 1) ≡ k = omega arith in (b, rw (run, code_lines) refl, rw e after)
  code_lines-IsAt (line ∷ (l ∷ lines)) k a at =
      let (b, run, after) = code_line-IsAt line k a at in
      let (c, more, end) = code_lines-IsAt (l ∷ lines) (suc k) b (IsAt-suc k b after) in
      let e : suc k + (suc (length lines) - 1) ≡ k + (suc (suc (length lines)) - 1) = omega arith in
      (c, rw (run, code_lines) more, subst (λ n. IsAt n c) e end)

  -- With a budget of at least one byte the loop of `chunkCode` ends, with every line split whatever
  -- its length. The line ranges of its chunks are not empty, lie between line 1 and the last line
  -- that was scanned, and follow each other: a chunk begins no earlier than the one before it ends.
  pub code_lines-AreOrdered :
      (lines : List Bytes)
      → 1 ≤ length lines
      → (a : CodeAccumulator) × (code_lines max_chars lines 1 (some new_accumulator) ≡ some a)
        × AreOrdered 1 (length lines) (flush a).chunks
  code_lines-AreOrdered lines some_line =
      let (a, run, at) =
        code_lines-IsAt lines 0 new_accumulator
          (record { ordered = tt; pending = λ h. absurd (ground arith) }) in
      let e : suc (0 + (length lines - 1)) ≡ length lines = omega arith in
      (
        a,
        run,
        subst (λ n. AreOrdered 1 n (flush a).chunks) e
            (flush-IsFlushed (0 + (length lines - 1)) a at).ordered,
      )
