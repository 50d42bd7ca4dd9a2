-- ===== src/Chunker/Code.antt =====
-- The split of code by blank lines: `chunkCode` and its `codeAccumulator`. `none` is the fuel of
-- `splitRunes` or of the prose split that ran out. `append` and `appendString` are the same on bytes.
pub mod Scanner
pub mod Ranges
mod Tests
use semidx.Prelude.{
  ℕ, zero, suc, ◌+◌, Bool, true, false, ◌&&◌, ◌||◌, not, Option, none, some, List, [], ◌∷◌, ◌++◌,
  length, leb, ltb, ◌==◌, if◌then◌else◌,
}
use semidx.Prelude.Bytes.{Bytes}
use semidx.Chunker.Space.{trim_space}
use semidx.Chunker.Prose.{Chunk, plain_chunk, chunk_text}
use semidx.Chunker.Runes.{split_runes}

-- `bufio.MaxScanTokenSize`, the size of the scanner's buffer at most
abbrev pub max_scan_token_size : ℕ
max_scan_token_size = 65_536

-- The tokens that the scanner with `scanLines` gives, from a line on whose begin is read already.
-- A line keeps its newline. The scanner stops at a line that does not fit its buffer; at the end of
-- the content the buffer must have room for one byte more.
pub scan_from : Bytes → Bytes → List Bytes
scan_from line [] =
    if (length line == 0) || leb max_scan_token_size (length line) then [] else line ∷ []
scan_from line (c ∷ content) =
    let ends = c == 10 in
    let rest = scan_from (if ends then [] else line ++ (c ∷ [])) content in
    if not ends
    then rest
    else if leb (suc (length line)) max_scan_token_size
    then (line ++ (c ∷ [])) ∷ rest
    else []

unfoldable pub scan_lines : Bytes → List Bytes
unfolding scan_from
scan_lines content = scan_from [] content

pub record CodeAccumulator : Type 0 where
  pub chunks : List Chunk
  pub current : Bytes
  pub cur_start : ℕ
  pub cur_end : ℕ

abbrev pub new_accumulator : CodeAccumulator
new_accumulator = record { chunks = []; current = []; cur_start = 0; cur_end = 0 }

abbrev pub has_pending : CodeAccumulator → Bool
has_pending a = not (length a.current == 0)

pub flush : CodeAccumulator → CodeAccumulator
flush a =
    if has_pending a
    then record a {
      chunks = a.chunks ++ (plain_chunk (trim_space a.current) a.cur_start a.cur_end ∷ []);
      current = [];
    }
    else a

-- `append` behind its flush
abbrev pub write_line : Bytes → ℕ → CodeAccumulator → CodeAccumulator
write_line line line_num a = record a {
  cur_start = if has_pending a then a.cur_start else line_num;
  cur_end = line_num;
  current = a.current ++ (line ++ (10 ∷ []));
}

pub append_line : ℕ → Bytes → ℕ → CodeAccumulator → CodeAccumulator
unfolding flush
append_line max_chars line line_num a =
    if ltb max_chars (length a.current + length line + 1) && has_pending a
    then write_line line line_num (flush a)
    else write_line line line_num a

-- the chunks of the pieces that are not blank
pub piece_chunks : List Bytes → ℕ → List Chunk
piece_chunks [] line_num = []
piece_chunks (piece ∷ pieces) line_num =
    let p = trim_space piece in
    let rest = piece_chunks pieces line_num in
    if length p == 0 then rest else plain_chunk p line_num line_num ∷ rest

pub add_pieces : Option (List Bytes) → ℕ → CodeAccumulator → Option CodeAccumulator
unfolding piece_chunks
add_pieces none line_num a = none
add_pieces (some pieces) line_num a =
    some (record a { chunks = a.chunks ++ piece_chunks pieces line_num })

pub append_oversized_line : ℕ → Bytes → ℕ → CodeAccumulator → Option CodeAccumulator
unfolding add_pieces flush
append_oversized_line max_chars line line_num a =
    add_pieces (split_runes (suc (length line)) line max_chars) line_num (flush a)

-- one round of the loop of `chunkCode`
pub code_line : ℕ → Bytes → ℕ → CodeAccumulator → Option CodeAccumulator
unfolding append_oversized_line append_line flush
code_line max_chars line line_num a =
    if (length (trim_space line) == 0) && has_pending a
    then some (flush a)
    else if ltb max_chars (length line)
    then append_oversized_line max_chars line line_num a
    else some (append_line max_chars line line_num a)

pub code_lines : ℕ → List Bytes → ℕ → Option CodeAccumulator → Option CodeAccumulator
unfolding code_line
code_lines max_chars lines line_num none = none
code_lines max_chars [] line_num (some a) = some a
code_lines max_chars (line ∷ lines) line_num (some a) =
    code_lines max_chars lines (suc line_num) (code_line max_chars line line_num a)

-- `chunkCode` behind its loop
pub code_chunks : ℕ → Bytes → ℕ → Option CodeAccumulator → Option (List Chunk)
unfolding flush
code_chunks fuel content max_chars none = none
code_chunks fuel content max_chars (some a) =
    let chunks = (flush a).chunks in
    if (length chunks == 0) && not (length content == 0)
    then chunk_text fuel content max_chars
    else some chunks

unfoldable pub chunk_code : ℕ → Bytes → ℕ → Option (List Chunk)
unfolding code_chunks code_lines
chunk_code fuel content max_chars =
    code_chunks fuel content max_chars
      (code_lines max_chars (scan_lines content) 1 (some new_accumulator))
