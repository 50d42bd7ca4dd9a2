-- ===== src/Chunker/Space.antt =====
-- Go's `strings.TrimSpace` and `bytes.TrimSpace` on bytes of UTF-8, and `utf8.RuneStart`.
use mathlib.Core.List.{reverse}
use semidx.Prelude.{
  ℕ, zero, suc, Bool, not, ◌&&◌, List, [], ◌∷◌, map, length, drop, ltb, leb, if◌then◌else◌,
}
use semidx.Prelude.Bytes.{Bytes, has_prefix}

-- the UTF-8 encodings of the characters that `unicode.IsSpace` accepts
abbrev pub spaces : List Bytes
spaces =
    (10 ∷ [])
    ∷ (9 ∷ [])
    ∷ (11 ∷ [])
    ∷ (12 ∷ [])
    ∷ (13 ∷ [])
    ∷ (32 ∷ [])
    ∷ (0xc2 ∷ 0x85 ∷ [])
    ∷ (0xc2 ∷ 0xa0 ∷ [])
    ∷ (0xe1 ∷ 0x9a ∷ 0x80 ∷ [])
    ∷ (0xe2 ∷ 0x80 ∷ 0x80 ∷ [])
    ∷ (0xe2 ∷ 0x80 ∷ 0x81 ∷ [])
    ∷ (0xe2 ∷ 0x80 ∷ 0x82 ∷ [])
    ∷ (0xe2 ∷ 0x80 ∷ 0x83 ∷ [])
    ∷ (0xe2 ∷ 0x80 ∷ 0x84 ∷ [])
    ∷ (0xe2 ∷ 0x80 ∷ 0x85 ∷ [])
    ∷ (0xe2 ∷ 0x80 ∷ 0x86 ∷ [])
    ∷ (0xe2 ∷ 0x80 ∷ 0x87 ∷ [])
    ∷ (0xe2 ∷ 0x80 ∷ 0x88 ∷ [])
    ∷ (0xe2 ∷ 0x80 ∷ 0x89 ∷ [])
    ∷ (0xe2 ∷ 0x80 ∷ 0x8a ∷ [])
    ∷ (0xe2 ∷ 0x80 ∷ 0xa8 ∷ [])
    ∷ (0xe2 ∷ 0x80 ∷ 0xa9 ∷ [])
    ∷ (0xe2 ∷ 0x80 ∷ 0xaf ∷ [])
    ∷ (0xe2 ∷ 0x81 ∷ 0x9f ∷ [])
    ∷ (0xe3 ∷ 0x80 ∷ 0x80 ∷ [])
    ∷ []

-- `s` without the first of the patterns that it begins with
pub strip_one : List Bytes → Bytes → Bytes
strip_one [] s = s
strip_one (p ∷ ps) s = if has_prefix s p then drop (length p) s else strip_one ps s

-- as often as one fits; each time shortens `s`, so its length bounds the rounds
pub strip : List Bytes → ℕ → Bytes → Bytes
strip patterns zero s = s
strip patterns (suc f) s = strip patterns f (strip_one patterns s)

unfoldable pub trim_left : Bytes → Bytes
unfolding strip strip_one
trim_left s = strip spaces (length s) s

unfoldable pub trim_right : Bytes → Bytes
unfolding strip strip_one
trim_right s = reverse (strip (map reverse spaces) (length s) (reverse s))

unfoldable pub trim_space : Bytes → Bytes
unfolding trim_left trim_right
trim_space s = trim_right (trim_left s)

-- `utf8.RuneStart`: no continuation byte
abbrev pub rune_start : ℕ → Bool
rune_start b = not (leb 0x80 b && ltb b 0xc0)
