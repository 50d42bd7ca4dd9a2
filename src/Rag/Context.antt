-- ===== src/Rag/Context.antt =====
-- internal/rag/context.go and prompts.go: `assembleContext`, which writes the sources of an answer
-- into a text within a budget.
pub mod Budget
mod Tests
use semidx.Prelude.{
  ℕ, zero, suc, ◌+◌, ◌*◌, ◌-◌, Bool, not, List, [], ◌∷◌, ◌++◌, length, leb, ltb, ◌==◌, take,
  if◌then◌else◌,
}
use semidx.Prelude.Bytes.{Bytes, codes}
use semidx.Prelude.Int.{ℤ, pos, negsuc}
use semidx.Prelude.Decimal.{format_int}
use semidx.Prelude.Paths.{has_suffix}
use semidx.Rag.Runes.{runes}

pub record Source (S : Type 0) : Type 0 where
  pub file : Bytes
  pub start_line : ℤ
  pub end_line : ℤ
  pub content : Bytes
  pub score : S
  pub keyword : Bool
  pub project : Bytes

-- the bytes of runes, `string(runes)`
abbrev pub joined : List Bytes → Bytes
joined [] = []
joined (r ∷ rs) = r ++ joined rs

module _ {S : Type 0} where
  unfoldable pub format_source_block : Source S → Bytes
  unfolding format_int
  format_source_block s =
      codes "--- File: "
      ++ (s.file
          ++ (codes " (lines "
              ++ (format_int s.start_line
                  ++ (codes "-"
                      ++ (format_int s.end_line
                          ++ (codes ") ---"
                              ++ (10
                                  ∷ (s.content
                                      ++ ((if has_suffix s.content (10 ∷ []) then [] else 10 ∷ [])
                                          ++ (codes "---" ++ (10 ∷ 10 ∷ [])))))))))))

  -- the source with the first `n` of its runes
  abbrev pub shortened : ℕ → Source S → Source S
  shortened n s = record s { content = joined (take n (runes s.content)) }

  -- the block of the largest number of runes, up to `n`, that fits
  pub truncated_block : ℕ → Source S → ℕ → Bytes
  unfolding format_source_block runes
  truncated_block room s zero = []
  truncated_block room s (suc n) =
      let rest = truncated_block room s n in
      let block = format_source_block (shortened (suc n) s) in
      if leb (length block) room then block else rest

  -- the loop over the sources, from the text that is written
  pub write_sources : ℕ → Bytes → List (Source S) → Bytes
  unfolding truncated_block format_source_block runes
  write_sources budget_chars b [] = b
  write_sources budget_chars b (s ∷ sources) =
      let block = format_source_block s in
      let rest = write_sources budget_chars (b ++ block) sources in
      let remaining = budget_chars - length b in
      if leb (length b + length block) budget_chars
      then rest
      else if leb budget_chars (length b)
      then b
      else if ltb remaining 60
      then b
      else b ++ truncated_block remaining s (length (runes s.content))

  unfoldable pub assemble_context : List (Source S) → ℤ → Bytes
  unfolding write_sources
  assemble_context [] budget_tokens = []
  assemble_context (s ∷ sources) (negsuc n) = []
  assemble_context (s ∷ sources) (pos n) =
      if n == 0 then [] else write_sources (n * 4) [] (s ∷ sources)
