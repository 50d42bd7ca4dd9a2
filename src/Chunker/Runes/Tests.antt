-- ===== src/Chunker/Runes/Tests.antt =====
-- A line of two characters, the first of three bytes, in a budget of two.
use semidx.Prelude.{◌≡◌, some, List, [], ◌∷◌, drop, All, arith}
use semidx.Prelude.Bytes.{Bytes}
use semidx.Chunker.Runes.{split_runes}
use semidx.Chunker.Runes.Pieces.{concat, IsPiece, StartsCharacter, split_runes-IsPiece}

abbrev wide_line : Bytes
wide_line = 0xe2 ∷ 0x80 ∷ 0xa6 ∷ 97 ∷ []

split_runes-IsPiece_example :
    (ps : List Bytes) × (split_runes 5 wide_line 2 ≡ some ps)
    × (concat ps ≡ wide_line)
    × All (IsPiece 2) ps
    × All StartsCharacter (drop 1 ps)
split_runes-IsPiece_example = split_runes-IsPiece 2 (omega arith) 5 wide_line (omega arith)
