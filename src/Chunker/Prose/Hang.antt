-- ===== src/Chunker/Prose/Hang.antt =====
-- A text on which the prose split does not end.
use semidx.Prelude.{
  ℕ, zero, suc, ◌+◌, ◌-◌, ◌/◌, ◌≤◌, ◌<◌, ◌≡◌, refl, false, Option, none, some, [], ◌∷◌, ◌++◌,
  length, take, leb, ◌==◌, arith, if◌then◌else◌, All, length-append,
}
use semidx.Prelude.Bytes.{Bytes}
use semidx.Chunker.Space.{rune_start}
use semidx.Chunker.Prose.{
  last_newline, starts_at, snap_back, cut_at, prose_cut_end, snap_next, prose_next_start, add_range,
  prose_ranges, prose_chunks, chunk_text,
}

-- a continuation byte of UTF-8
abbrev pub IsContinuation : ℕ → Type 0
IsContinuation b = rune_start b ≡ false

starts_at_junk :
    (junk rest : Bytes) (i : ℕ)
    → All IsContinuation junk
    → i < length junk
    → starts_at (junk ++ rest) i ≡ false
unfolding starts_at
starts_at_junk [] rest i h lt = absurd (omega arith)
starts_at_junk (b ∷ junk) rest zero h lt = h.0
starts_at_junk (b ∷ junk) rest (suc i) h lt = starts_at_junk junk rest i h.1 (omega arith)

-- a window of continuation bytes has no newline
last_newline_junk :
    (junk rest : Bytes) (n : ℕ)
    → All IsContinuation junk
    → n ≤ length junk
    → last_newline (take n (junk ++ rest)) ≡ none
unfolding last_newline
last_newline_junk junk rest zero h le = refl
last_newline_junk [] rest (suc n) h le = absurd (omega arith)
last_newline_junk (b ∷ junk) rest (suc n) h le =
    ground (arith, last_newline_junk junk rest n h.1, h.0)

module _ (c : ℕ) (junk rest : Bytes) (max_chars : ℕ) (continuation : All IsContinuation junk)
    (long : length junk ≡ max_chars) (pos : 1 ≤ max_chars) where
  snap_back_stuck : (k : ℕ) → k ≤ max_chars → snap_back (c ∷ (junk ++ rest)) 0 k ≡ 0
  unfolding snap_back
  snap_back_stuck zero le = refl
  snap_back_stuck (suc k) le =
      let middle : starts_at (c ∷ (junk ++ rest)) (suc k) ≡ false =
        unfold starts_at in starts_at_junk junk rest k continuation (omega arith) in
      ground (arith, snap_back_stuck k)

  window_newline :
      (o : Option ℕ)
      → o ≡ none
      → cut_at
          (c ∷ (junk ++ rest))
          0
          max_chars
          (elim o [ some i ↦ some (suc i) | none ↦ if c == 10 then some 0 else none ])
        ≡ 0
  unfolding cut_at
  window_newline none h = ground (arith, snap_back_stuck max_chars)
  window_newline (some i) h = cc

  cut_stuck : prose_cut_end (c ∷ (junk ++ rest)) 0 max_chars ≡ 0
  unfolding prose_cut_end last_newline
  cut_stuck =
      let more : leb (suc (length (junk ++ rest))) (0 + max_chars) ≡ false =
        ground (arith, length-append junk rest) in
      let shape : 0 + max_chars - 0 ≡ suc (max_chars - 1) = omega arith in
      rw (more, shape)
        (window_newline _ (last_newline_junk junk rest (max_chars - 1) continuation (omega arith)))

  next_stuck : (overlap : ℕ) → prose_next_start (c ∷ (junk ++ rest)) 0 0 overlap ≡ 0
  unfolding prose_next_start snap_next
  next_stuck overlap = let e : 0 - overlap ≡ 0 = omega arith in rw e

  ranges_stuck : (fuel : ℕ) → prose_ranges fuel (c ∷ (junk ++ rest)) max_chars 0 ≡ none
  unfolding prose_ranges add_range
  ranges_stuck zero = refl
  ranges_stuck (suc fuel) =
      rw (cut_stuck, next_stuck (max_chars / 10), ranges_stuck fuel) (ground arith)

  -- Where a text has one byte and then as many continuation bytes as the budget, the loop of
  -- `chunkText` never ends: with any fuel, however large, it runs out.
  pub chunk_text_hangs : (fuel : ℕ) → chunk_text fuel (c ∷ (junk ++ rest)) max_chars ≡ none
  unfolding prose_chunks
  chunk_text_hangs fuel =
      let more : leb (suc (length (junk ++ rest))) max_chars ≡ false =
        ground (arith, length-append junk rest) in
      unfold chunk_text in rw (more, ranges_stuck fuel)
