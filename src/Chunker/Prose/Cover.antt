-- ===== src/Chunker/Prose/Cover.antt =====
-- The prose split ends, its chunks cover the text, and no chunk is longer than the budget.
use semidx.Prelude.{
  ℕ, zero, suc, ◌+◌, ◌-◌, ◌/◌, ◌≤◌, ◌<◌, ◌≡◌, refl, true, Option, none, some, List, [], ◌∷◌, length,
  drop, ltb, leb, ◌==◌, arith, length-take, inl, inr, Bool-cases, Option-cases,
}
use semidx.Prelude.Bytes.{Bytes}
use semidx.Chunker.Prose.{
  slice, last_newline, starts_at, snap_back, cut_at, prose_cut_end, snap_next, prose_next_start,
  add_range, prose_ranges,
}

-- Among the `max_chars` bytes behind every position there is one that starts a character, as in
-- valid UTF-8 for a budget of four bytes or more.
abbrev pub IsCuttable : Bytes → ℕ → Type 0
IsCuttable text max_chars =
    (start : ℕ)
    → start + max_chars < length text
    → (k : ℕ) × (1 ≤ k) × (k ≤ max_chars) × (starts_at text (start + k) ≡ true)

last_newline_bound : (s : Bytes) {i : ℕ} → last_newline s ≡ some i → i < length s
unfolding last_newline
last_newline_bound [] h = cc
last_newline_bound (c ∷ s) {i} h = elim (Option-cases (last_newline s)) [
  | inl p ↦ ground arith
  | inr (j, p) ↦ ground (arith, last_newline_bound s p)
]

snap_back_bounds :
    (text : Bytes) (start k : ℕ)
    → (start ≤ snap_back text start k) × (snap_back text start k ≤ start + k)
unfolding snap_back
snap_back_bounds text start zero = omega arith
snap_back_bounds text start (suc k) = ground (arith, snap_back_bounds text start k)

snap_back_found :
    (text : Bytes) (start k j : ℕ)
    → 1 ≤ j
    → j ≤ k
    → starts_at text (start + j) ≡ true
    → start < snap_back text start k
unfolding snap_back
snap_back_found text start zero j one le h = absurd (omega arith)
snap_back_found text start (suc k) j one le h = elim (Bool-cases (j == suc k)) [
  | inl same ↦ ground arith
  | inr less ↦ ground (arith, snap_back_found text start k j)
]

snap_next-le : (text : Bytes) (start k : ℕ) → snap_next text start k ≤ k
unfolding snap_next
snap_next-le text start zero = omega arith
snap_next-le text start (suc k) = ground (arith, snap_next-le text start k)

length-slice : (text : Bytes) (start n : ℕ) → length (slice text start (start + n)) ≤ n
length-slice text start n = omega (arith, length-take (start + n - start) (drop start text))

-- The ranges behind a range from `lo` to `hi`: each begins behind the begin of the one before and
-- not behind its end, is not empty and not above the budget, and the last ends the text.
abbrev pub Covers : Bytes → ℕ → ℕ → ℕ → List (ℕ × ℕ) → Type 0
Covers text max_chars lo hi [] = hi ≡ length text
Covers text max_chars lo hi ((c, d) ∷ rs) =
    (lo < c) × (c ≤ hi) × (c < d) × (d ≤ c + max_chars) × Covers text max_chars c d rs

module _ (text : Bytes) (max_chars : ℕ) (cuttable : IsCuttable text max_chars)
    (pos : 1 ≤ max_chars) where
  cut_at_bounds :
      (start : ℕ) (o : Option ℕ)
      → start + max_chars < length text
      → ((nl : ℕ) → o ≡ some nl → nl < max_chars)
      → (start < cut_at text start max_chars o)
        × (cut_at text start max_chars o ≤ start + max_chars)
  unfolding cut_at
  cut_at_bounds start none room h =
      let (k, one, le, found) = cuttable start room in
      (
        snap_back_found text start max_chars k one le found,
        (snap_back_bounds text start max_chars).1,
      )
  cut_at_bounds start (some nl) room h =
      let (k, one, le, found) = cuttable start room in
      ground (
        arith,
        h nl refl,
        snap_back_found text start max_chars k one le found,
        snap_back_bounds text start max_chars,
      )

  cut_end_bounds :
      (start : ℕ)
      → start < length text
      → (start < prose_cut_end text start max_chars)
        × (prose_cut_end text start max_chars ≤ start + max_chars)
        × (prose_cut_end text start max_chars ≤ length text)
  unfolding prose_cut_end
  cut_end_bounds start inside = elim (Bool-cases (leb (length text) (start + max_chars))) [
    | inl last ↦ rw last (ground arith)
    | inr more ↦
        let window = slice text start (start + max_chars) in
        let room : start + max_chars < length text = ground arith in
        let (above, below) =
          cut_at_bounds start (last_newline window) room (λ nl p.
            omega (arith, last_newline_bound window p, length-slice text start max_chars)) in
        rw more (above, below, omega arith)
  ]

  next_start_bounds :
      (start end overlap : ℕ)
      → start < end
      → (start < prose_next_start text start end overlap)
        × (prose_next_start text start end overlap ≤ end)
  unfolding prose_next_start
  next_start_bounds start end overlap h = ground (arith, snap_next-le text start (end - overlap))

  -- For a text that can be cut, and fuel above the bytes that are left, the loop ends. Its first
  -- range begins at `start`, no range is empty or longer than the budget, each begins within or at
  -- the end of the one before, and the last ends at the end of the text: nothing is left out.
  pub prose_ranges_cover :
      (fuel start : ℕ)
      → start < length text
      → length text < start + fuel
      → (end : ℕ) × (rs : List (ℕ × ℕ)) × (prose_ranges fuel text max_chars start
          ≡ some ((start, end) ∷ rs))
        × (start < end)
        × (end ≤ start + max_chars)
        × Covers text max_chars start end rs
  unfolding prose_ranges add_range
  prose_ranges_cover zero start inside enough = absurd (omega arith)
  prose_ranges_cover (suc fuel) start inside enough =
      let end = prose_cut_end text start max_chars in
      let (above, below, within) = cut_end_bounds start inside in
      let within_text : ltb start (length text) ≡ true = ground arith in
      elim (Bool-cases (leb (length text) end)) [
        | inl last ↦ (end, [], rw (within_text, last), above, below, ground arith)
        | inr more ↦
            let next = prose_next_start text start end (max_chars / 10) in
            let (up, down) = next_start_bounds start end (max_chars / 10) above in
            let left : end < length text = ground arith in
            let (end', rs, run, above', below', cover) =
              prose_ranges_cover fuel next (omega arith) (omega arith) in
            (
              end,
              (next, end') ∷ rs,
              rw (within_text, more, run, add_range),
              above,
              below,
              (up, down, above', below', cover),
            )
      ]
