-- ===== src/Rag/Runes.antt =====
-- Go's conversion `[]rune(s)`, each rune by its UTF-8: a byte that starts no valid sequence is
-- the replacement character.
use semidx.Prelude.{ℕ, zero, suc, Bool, ◌&&◌, List, [], ◌∷◌, length, leb, ltb, ◌==◌, if◌then◌else◌}
use semidx.Prelude.Bytes.{Bytes}

abbrev pub within : ℕ → ℕ → ℕ → Bool
within lo hi b = leb lo b && leb b hi

abbrev continues : ℕ → Bool
continues b = within 0x80 0xbf b

-- the second byte that may follow the first of three
abbrev second_of_three : ℕ → ℕ → Bool
second_of_three a b =
    if a == 0xe0 then within 0xa0 0xbf b else if a == 0xed then within 0x80 0x9f b else continues b

-- the second byte that may follow the first of four
abbrev second_of_four : ℕ → ℕ → Bool
second_of_four a b =
    if a == 0xf0 then within 0x90 0xbf b else if a == 0xf4 then within 0x80 0x8f b else continues b

abbrev pub replacement : Bytes
replacement = 0xef ∷ 0xbf ∷ 0xbd ∷ []

abbrev four : Bytes → Bytes × Bytes
four (a ∷ b ∷ c ∷ d ∷ s) =
    if within 0xf0 0xf4 a && second_of_four a b && continues c && continues d
    then (a ∷ b ∷ c ∷ d ∷ [], s)
    else (replacement, b ∷ c ∷ d ∷ s)
four (a ∷ b ∷ c ∷ []) = (replacement, b ∷ c ∷ [])
four (a ∷ b ∷ []) = (replacement, b ∷ [])
four (a ∷ []) = (replacement, [])
four [] = ([], [])

abbrev three : Bytes → Bytes × Bytes
three (a ∷ b ∷ c ∷ s) =
    if within 0xe0 0xef a && second_of_three a b && continues c
    then (a ∷ b ∷ c ∷ [], s)
    else four (a ∷ b ∷ c ∷ s)
three s = four s

abbrev two : Bytes → Bytes × Bytes
two (a ∷ b ∷ s) = if within 0xc2 0xdf a && continues b then (a ∷ b ∷ [], s) else three (a ∷ b ∷ s)
two s = three s

-- the first rune and the rest
abbrev pub next_rune : Bytes → Bytes × Bytes
next_rune [] = ([], [])
next_rune (a ∷ s) = if ltb a 0x80 then (a ∷ [], s) else two (a ∷ s)

pub runes_on : ℕ → Bytes → List Bytes
runes_on zero s = []
runes_on (suc fuel) [] = []
runes_on (suc fuel) (a ∷ s) = let r = next_rune (a ∷ s) in r.0 ∷ runes_on fuel r.1

-- every rune takes a byte, so that as much fuel as bytes is enough
unfoldable pub runes : Bytes → List Bytes
unfolding runes_on
runes s = runes_on (length s) s
