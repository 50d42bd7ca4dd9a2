-- ===== src/Chunker/Runes/Pieces.antt =====
-- The pieces of `splitRunes`.
use semidx.Prelude.{
  ℕ, zero, suc, ◌+◌, ◌-◌, ◌≤◌, ◌<◌, ◌≡◌, ◌⊎◌, inl, inr, refl, sym, ap, ◌∙◌, true, false, some, List,
  [], ◌∷◌, ◌++◌, length, take, drop, leb, ◌==◌, arith, All, Bool-cases, length-take, length-drop,
  take-append-drop, append-nil,
}
use semidx.Prelude.Bytes.{Bytes}
use semidx.Chunker.Space.{rune_start}
use semidx.Chunker.Prose.{snap_back, starts_at}
use semidx.Chunker.Runes.{skip_continuation, rune_cut, add_piece, split_runes}

abbrev pub concat : List Bytes → Bytes
concat [] = []
concat (p ∷ ps) = p ++ concat ps

snap_back_start :
    (s : Bytes) (k : ℕ)
    → ((snap_back s 0 k ≡ 0) ⊎ (starts_at s (snap_back s 0 k) ≡ true)) × (snap_back s 0 k ≤ k)
unfolding snap_back
snap_back_start s zero = (inl refl, omega arith)
snap_back_start s (suc k) =
    let e : 0 + suc k ≡ suc k = omega arith in
    elim (Bool-cases (starts_at s (suc k))) [
      | inl here ↦ rw (e, here) (inr here, omega arith)
      | inr down ↦ let (start, le) = snap_back_start s k in rw (e, down) (start, omega arith)
    ]

snap_back_none : (s : Bytes) (k i : ℕ) → snap_back s 0 k ≡ 0 → 1 ≤ i → i ≤ k → starts_at s i ≡ false
unfolding snap_back
snap_back_none s zero i h one le = absurd (omega arith)
snap_back_none s (suc k) i h one le =
    let z : 0 + suc k ≡ suc k = omega arith in
    elim (Bool-cases (starts_at s (suc k))) [
      | inl here ↦ absurd (omega (arith, rw (z, here) at h))
      | inr down ↦ elim (Bool-cases (i == suc k)) [
        | inl same ↦ let e : i ≡ suc k = ground arith in rw e down
        | inr less ↦ snap_back_none s k i (rw (z, down) at h) one (ground arith)
      ]
    ]

record Skips (s : Bytes) (n : ℕ) : Type 0 where
  pub within : n ≤ length s
  pub middle : (i : ℕ) → i < n → starts_at s i ≡ false
  pub next : starts_at s n ≡ true

skip_continuation-Skips : (s : Bytes) → Skips s (skip_continuation s)
unfolding skip_continuation starts_at
skip_continuation-Skips [] = record {
  within = omega arith;
  middle = λ i h. absurd (omega arith);
  next = refl;
}
skip_continuation-Skips (c ∷ s) = elim (Bool-cases (rune_start c)) [
  | inl start ↦
      rw start (record { within = omega arith; middle = λ i h. absurd (omega arith); next = start })
  | inr continuation ↦
      let later = skip_continuation-Skips s in
      rw continuation (record {
        within = omega (arith, later.within);
        middle = go continuation later;
        next = later.next;
      })
]
  where
    go :
        rune_start c ≡ false
        → Skips s (skip_continuation s)
        → (i : ℕ) → i < suc (skip_continuation s)
        → starts_at (c ∷ s) i ≡ false
    go here later zero h = here
    go here later (suc i) h = later.middle i (omega arith)

starts_at-drop : (s : Bytes) (n i : ℕ) → starts_at (drop n s) i ≡ starts_at s (n + i)
unfolding starts_at
starts_at-drop s zero i = ap (starts_at s) (omega arith)
starts_at-drop [] (suc n) i = refl
starts_at-drop (c ∷ s) (suc n) i =
    let e : suc n + i ≡ suc (n + i) = omega arith in rw e (starts_at-drop s n i)

starts_at-take : (s : Bytes) (n i : ℕ) → i < n → starts_at (take n s) i ≡ starts_at s i
unfolding starts_at
starts_at-take s zero i h = absurd (omega arith)
starts_at-take [] (suc n) i h = refl
starts_at-take (c ∷ s) (suc n) zero h = refl
starts_at-take (c ∷ s) (suc n) (suc i) h = starts_at-take s n i (omega arith)

-- A piece is not empty, and it is within the budget or else has no start of a character behind its
-- first byte.
pub record IsPiece (max_bytes : ℕ) (p : Bytes) : Type 0 where
  pub nonempty : 0 < length p
  pub fits : (length p ≤ max_bytes) ⊎ ((i : ℕ) → 1 ≤ i → i < length p → starts_at p i ≡ false)

abbrev pub StartsCharacter : Bytes → Type 0
StartsCharacter p = starts_at p 0 ≡ true

module _ (max_bytes : ℕ) (some_budget : 1 ≤ max_bytes) where
  record Cut (s : Bytes) (end : ℕ) : Type 0 where
    pub forward : 0 < end
    pub within : end ≤ length s
    pub piece : IsPiece max_bytes (take end s)
    pub next : StartsCharacter (drop end s)

  rune_cut-Cut : (s : Bytes) → max_bytes < length s → Cut s (rune_cut s max_bytes)
  unfolding rune_cut
  rune_cut-Cut s long =
      let (start, le) = snap_back_start s max_bytes in
      elim (Bool-cases (snap_back s 0 max_bytes == 0)) [
        | inl stuck ↦
            let all_down : snap_back s 0 max_bytes ≡ 0 = ground arith in
            rw stuck (wide all_down (skip_continuation-Skips (drop max_bytes s)))
        | inr found ↦ rw found (narrow start le (ground arith))
      ]
    where
      narrow :
          ((snap_back s 0 max_bytes ≡ 0) ⊎ (starts_at s (snap_back s 0 max_bytes) ≡ true))
          → snap_back s 0 max_bytes ≤ max_bytes
          → 0 < snap_back s 0 max_bytes
          → Cut s (snap_back s 0 max_bytes)
      narrow start le positive =
          let at_end : snap_back s 0 max_bytes + 0 ≡ snap_back s 0 max_bytes = omega arith in
          record {
            forward = positive;
            within = omega arith;
            piece = record {
              nonempty = omega (arith, length-take (snap_back s 0 max_bytes) s);
              fits = inl (omega (arith, length-take (snap_back s 0 max_bytes) s));
            };
            next =
                starts_at-drop s (snap_back s 0 max_bytes) 0
                ∙ ap (λ k. starts_at s k) at_end
                ∙ elim start [ inl h ↦ absurd (omega arith) | inr h ↦ h ];
          }

      wide :
          snap_back s 0 max_bytes ≡ 0
          → Skips (drop max_bytes s) (skip_continuation (drop max_bytes s))
          → Cut s (max_bytes + skip_continuation (drop max_bytes s))
      wide stuck k =
          let n = skip_continuation (drop max_bytes s) in
          let le : n ≤ length s - max_bytes = omega (arith, k.within, length-drop max_bytes s) in
          let at_end : max_bytes + n + 0 ≡ max_bytes + n = omega arith in
          record {
            forward = omega arith;
            within = omega arith;
            piece = record {
              nonempty = omega (arith, length-take (max_bytes + n) s);
              fits = inr (behind stuck k);
            };
            next =
                starts_at-drop s (max_bytes + n) 0
                ∙ ap (λ k. starts_at s k) at_end
                ∙ sym (starts_at-drop s max_bytes n)
                ∙ k.next;
          }
        where
          behind :
              snap_back s 0 max_bytes ≡ 0
              → Skips (drop max_bytes s) (skip_continuation (drop max_bytes s))
              → (i : ℕ) → 1 ≤ i
              → i < length (take (max_bytes + skip_continuation (drop max_bytes s)) s)
              → starts_at (take (max_bytes + skip_continuation (drop max_bytes s)) s) i ≡ false
          behind stuck k i one lt =
              let n = skip_continuation (drop max_bytes s) in
              let inside : i < max_bytes + n = omega (arith, length-take (max_bytes + n) s) in
              starts_at-take s (max_bytes + n) i inside ∙ elim (Bool-cases (leb i max_bytes)) [
                | inl low ↦ snap_back_none s max_bytes i stuck one (ground arith)
                | inr high ↦
                    let above : max_bytes < i = ground arith in
                    let e : max_bytes + (i - max_bytes) ≡ i = omega arith in
                    sym (ap (starts_at s) e)
                    ∙ sym (starts_at-drop s max_bytes (i - max_bytes))
                    ∙ k.middle (i - max_bytes) (omega arith)
              ]

  record Splits (fuel : ℕ) (s : Bytes) : Type 0 where
    pub pieces : List Bytes
    pub run : split_runes fuel s max_bytes ≡ some pieces
    pub whole : concat pieces ≡ s
    pub good : All (IsPiece max_bytes) pieces
    pub starts : StartsCharacter s → All StartsCharacter pieces
    pub later : All StartsCharacter (drop 1 pieces)

  empty_of_length : (s : Bytes) → length s ≡ 0 → [] ≡ s
  empty_of_length [] h = refl
  empty_of_length (c ∷ s) h = absurd (omega arith)

  Splits-Cut :
      (fuel : ℕ) (s : Bytes)
      → leb (length s) max_bytes ≡ false
      → Cut s (rune_cut s max_bytes)
      → Splits fuel (drop (rune_cut s max_bytes) s)
      → Splits (suc fuel) s
  unfolding split_runes
  Splits-Cut fuel s long cut after = record {
    pieces = take (rune_cut s max_bytes) s ∷ after.pieces;
    run = rw (long, after.run, add_piece) refl;
    whole =
        ap (λ t. take (rune_cut s max_bytes) s ++ t) after.whole
        ∙ take-append-drop (rune_cut s max_bytes) s;
    good = (cut.piece, after.good);
    starts =
        λ h. (starts_at-take s (rune_cut s max_bytes) 0 cut.forward ∙ h, after.starts cut.next);
    later = after.starts cut.next;
  }

  split_runes-Splits : (fuel : ℕ) (s : Bytes) → length s < fuel → Splits fuel s
  unfolding split_runes
  split_runes-Splits zero s h = absurd (omega arith)
  split_runes-Splits (suc fuel) s h = elim (Bool-cases (leb (length s) max_bytes)) [
    | inr long ↦
        let cut = rune_cut-Cut s (ground arith) in
        let shorter = length-drop (rune_cut s max_bytes) s in
        Splits-Cut fuel s long cut (
          split_runes-Splits fuel (drop (rune_cut s max_bytes) s)
            (omega (arith, shorter, cut.forward, cut.within)))
    | inl short ↦ elim (Bool-cases (length s == 0)) [
      | inl nothing ↦ record {
        pieces = [];
        run = rw (short, nothing) refl;
        whole = empty_of_length s (ground arith);
        good = tt;
        starts = λ h. tt;
        later = tt;
      }
      | inr something ↦ record {
        pieces = s ∷ [];
        run = rw (short, something) refl;
        whole = append-nil s;
        good = (record { nonempty = ground arith; fits = inl (ground arith) }, tt);
        starts = λ h. (h, tt);
        later = tt;
      }
    ]
  ]

  -- With a budget of at least one byte and fuel above the length, `splitRunes` ends. Its pieces in
  -- order are the text, none is empty, each is within the budget or else has no start of a character
  -- behind its first byte, and each but the first begins with the start of a character.
  pub split_runes-IsPiece :
      (fuel : ℕ) (s : Bytes)
      → length s < fuel
      → (ps : List Bytes) × (split_runes fuel s max_bytes ≡ some ps)
        × (concat ps ≡ s)
        × All (IsPiece max_bytes) ps
        × All StartsCharacter (drop 1 ps)
  split_runes-IsPiece fuel s enough =
      let r = split_runes-Splits fuel s enough in (r.pieces, r.run, r.whole, r.good, r.later)
