-- ===== src/Chunker/Prose.antt =====
-- The split of prose: `chunkText` and its helpers. The loop is on fuel and gives the byte ranges of
-- the chunks; `none` means that the fuel ran out. Each range is then a chunk with its lines.
pub mod Cover
pub mod Hang
mod Tests
use semidx.Prelude.{
  ℕ, zero, suc, ◌+◌, ◌-◌, ◌/◌, Bool, true, false, not, ◌&&◌, Option, none, some, List, [], ◌∷◌, map,
  length, take, drop, get_elem?, ltb, leb, ◌==◌, if◌then◌else◌,
}
use semidx.Prelude.Bytes.{Bytes}
use semidx.Chunker.Space.{trim_space, rune_start}

pub record Chunk : Type 0 where
  pub content : Bytes
  pub start_line : ℕ
  pub end_line : ℕ
  pub confidence : Bytes
  pub symbol : Bytes

-- a chunk with the fields that the line-based splits set
abbrev pub plain_chunk : Bytes → ℕ → ℕ → Chunk
plain_chunk content start_line end_line = record {
  content = content;
  start_line = start_line;
  end_line = end_line;
  confidence = [];
  symbol = [];
}

-- `text[i:j]`
abbrev pub slice : Bytes → ℕ → ℕ → Bytes
slice text i j = take (j - i) (drop i text)

count_newlines : Bytes → ℕ
count_newlines [] = 0
count_newlines (c ∷ s) = if c == 10 then suc (count_newlines s) else count_newlines s

-- `lineOf`; a slice past the end stops there, so the bounds need no test
unfoldable pub line_of : Bytes → ℕ → ℕ
unfolding count_newlines
line_of text offset = suc (count_newlines (take offset text))

-- `strings.LastIndex(s, "\n")`
pub last_newline : Bytes → Option ℕ
last_newline [] = none
last_newline (c ∷ s) = elim (last_newline s) [
  | some i ↦ some (suc i)
  | none ↦ if c == 10 then some 0 else none
]

-- `utf8.RuneStart(text[i])`, for an index in range
unfoldable pub starts_at : Bytes → ℕ → Bool
starts_at text i = elim (get_elem? text i) [ none ↦ true | some b ↦ rune_start b ]

-- `for end > start && !utf8.RuneStart(text[end]) { end-- }`, from `start + k`
unfoldable pub snap_back : Bytes → ℕ → ℕ → ℕ
snap_back text start zero = start
snap_back text start (suc k) =
    let back = snap_back text start k in
    if starts_at text (start + suc k) then start + suc k else back

pub cut_at : Bytes → ℕ → ℕ → Option ℕ → ℕ
cut_at text start max_chars none = snap_back text start max_chars
cut_at text start max_chars (some nl) =
    if ltb (max_chars / 2) nl then start + nl + 1 else snap_back text start max_chars

pub prose_cut_end : Bytes → ℕ → ℕ → ℕ
prose_cut_end text start max_chars =
    if leb (length text) (start + max_chars)
    then length text
    else cut_at text start max_chars (last_newline (slice text start (start + max_chars)))

-- the loop that goes down from `k` to the start of a character, above `start`
pub snap_next : Bytes → ℕ → ℕ → ℕ
snap_next text start zero = zero
snap_next text start (suc k) =
    let lower = snap_next text start k in
    if ltb start (suc k) && (ltb (suc k) (length text) && not (starts_at text (suc k)))
    then lower
    else suc k

pub prose_next_start : Bytes → ℕ → ℕ → ℕ → ℕ
prose_next_start text start end overlap =
    let next = snap_next text start (end - overlap) in if leb next start then end else next

pub add_range : ℕ × ℕ → Option (List (ℕ × ℕ)) → Option (List (ℕ × ℕ))
add_range r none = none
add_range r (some rs) = some (r ∷ rs)

-- the loop of `chunkText` from `start` on
pub prose_ranges : ℕ → Bytes → ℕ → ℕ → Option (List (ℕ × ℕ))
prose_ranges zero text max_chars start = none
prose_ranges (suc fuel) text max_chars start =
    let end = prose_cut_end text start max_chars in
    let rest =
      add_range (start, end)
        (prose_ranges fuel text max_chars (prose_next_start text start end (max_chars / 10))) in
    if ltb start (length text)
    then (if leb (length text) end then some ((start, end) ∷ []) else rest)
    else some []

prose_chunk : Bytes → ℕ × ℕ → Chunk
prose_chunk text (start, end) =
    plain_chunk (trim_space (slice text start end)) (line_of text start) (line_of text (end - 1))

prose_chunks : Bytes → Option (List (ℕ × ℕ)) → Option (List Chunk)
prose_chunks text none = none
prose_chunks text (some rs) = some (map (prose_chunk text) rs)

unfoldable pub chunk_text : ℕ → Bytes → ℕ → Option (List Chunk)
unfolding prose_chunks prose_chunk prose_ranges add_range prose_next_start prose_cut_end
chunk_text fuel text max_chars =
    if leb (length text) max_chars
    then some (plain_chunk (trim_space text) 1 (line_of text (length text)) ∷ [])
    else prose_chunks text (prose_ranges fuel text max_chars 0)
