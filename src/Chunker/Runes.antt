-- ===== src/Chunker/Runes.antt =====
-- `splitRunes` of internal/chunker/chunker.go: the hard split of a line. The loop is on fuel, and
-- `none` means that the fuel ran out.
pub mod Pieces
mod Tests
use semidx.Prelude.{
  ℕ, zero, suc, ◌+◌, Bool, true, false, Option, none, some, List, [], ◌∷◌, length, take, drop, leb,
  ◌==◌, if◌then◌else◌,
}
use semidx.Prelude.Bytes.{Bytes}
use semidx.Chunker.Space.{rune_start}
use semidx.Chunker.Prose.{snap_back}

-- `for end < len(s) && !utf8.RuneStart(s[end]) { end++ }`, as the number of steps from the start of
-- the bytes
pub skip_continuation : Bytes → ℕ
skip_continuation [] = 0
skip_continuation (c ∷ s) = let rest = skip_continuation s in if rune_start c then 0 else suc rest

-- `end` at the cut
pub rune_cut : Bytes → ℕ → ℕ
unfolding skip_continuation
rune_cut s max_bytes =
    let end = snap_back s 0 max_bytes in
    if end == 0 then max_bytes + skip_continuation (drop max_bytes s) else end

pub add_piece : Bytes → Option (List Bytes) → Option (List Bytes)
add_piece p none = none
add_piece p (some ps) = some (p ∷ ps)

unfoldable pub split_runes : ℕ → Bytes → ℕ → Option (List Bytes)
unfolding rune_cut add_piece
split_runes zero s max_bytes = none
split_runes (suc fuel) s max_bytes =
    let end = rune_cut s max_bytes in
    let rest = add_piece (take end s) (split_runes fuel (drop end s) max_bytes) in
    if leb (length s) max_bytes then (if length s == 0 then some [] else some (s ∷ [])) else rest
