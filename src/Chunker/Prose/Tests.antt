-- ===== src/Chunker/Prose/Tests.antt =====
-- Concrete texts for the prose split.
use semidx.Prelude.{
  ℕ, zero, ◌+◌, ◌≤◌, ◌<◌, ◌≡◌, refl, suc, true, none, some, List, [], ◌∷◌, length, arith,
}
use semidx.Prelude.Bytes.{Bytes, codes}
use semidx.Chunker.Prose.{prose_ranges, chunk_text, starts_at}
use semidx.Chunker.Prose.Cover.{Covers, prose_ranges_cover}
use semidx.Chunker.Prose.Hang.{chunk_text_hangs}

abbrev words : Bytes
words = codes "abcdef"

prose_ranges_cover_example :
    (end : ℕ) × (rs : List (ℕ × ℕ)) × (prose_ranges 7 words 4 0 ≡ some ((0, end) ∷ rs))
    × (0 < end)
    × (end ≤ 0 + 4)
    × Covers words 4 0 end rs
prose_ranges_cover_example =
    prose_ranges_cover words 4 cuttable (omega arith) 7 0 (omega arith) (omega arith)
  where
    cuttable :
        (start : ℕ)
        → start + 4 < length words
        → (k : ℕ) × (1 ≤ k) × (k ≤ 4) × (starts_at words (start + k) ≡ true)
    cuttable zero inside = (1, omega arith, omega arith, unfold starts_at in refl)
    cuttable (suc zero) inside = (1, omega arith, omega arith, unfold starts_at in refl)
    cuttable (suc (suc n)) inside = absurd (omega arith)

chunk_text_hangs_example : chunk_text 1000 (65 ∷ 0x80 ∷ 0x80 ∷ codes "more") 2 ≡ none
chunk_text_hangs_example =
    chunk_text_hangs 65 (0x80 ∷ 0x80 ∷ []) (codes "more") 2 (refl, (refl, tt)) refl (omega arith)
      1000
