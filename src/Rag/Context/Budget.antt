-- ===== src/Rag/Context/Budget.antt =====
-- The text that `assembleContext` of internal/rag/context.go makes: its length and its parts.
use semidx.Prelude.{
  ℕ, zero, suc, ◌+◌, ◌*◌, ◌-◌, ◌≤◌, ◌≡◌, ◌⊎◌, refl, sym, ap, subst, ◌∙◌, true, List, [], ◌∷◌, ◌++◌,
  length, length-append, append_assoc, append-nil, leb, ltb, ◌==◌, arith, inl, inr, Bool-cases,
}
use semidx.Prelude.Bytes.{Bytes}
use semidx.Prelude.Int.{pos}
use semidx.Rag.Runes.{runes}
use semidx.Rag.Context.{
  Source, format_source_block, shortened, truncated_block, write_sources, assemble_context,
}

module _ {S : Type 0} where
  -- the blocks of sources in order: some from the first on, and then perhaps one of a source that
  -- was cut to its first runes
  pub data Parts : List (Source S) → Bytes → Type 0 where
    ended : (sources : List (Source S)) → Parts sources []
    whole :
        (s : Source S) (sources : List (Source S)) (text : Bytes)
        → Parts sources text
        → Parts (s ∷ sources) (format_source_block s ++ text)
    cut :
        (s : Source S) (sources : List (Source S)) (n : ℕ)
        → n ≤ length (runes s.content)
        → Parts (s ∷ sources) (format_source_block (shortened n s))

  abbrev pub blocks : List (Source S) → Bytes
  blocks [] = []
  blocks (s ∷ sources) = format_source_block s ++ blocks sources

  pub record IsContext (room : ℕ) (sources : List (Source S)) (text : Bytes) : Type 0 where
    pub within : length text ≤ room
    pub parts : Parts sources text
    pub complete : length (blocks sources) ≤ room → text ≡ blocks sources

  truncated_block-cases :
      (room : ℕ) (s : Source S) (n : ℕ)
      → (truncated_block room s n ≡ [])
        ⊎ ((m : ℕ) × (m ≤ n)
            × (truncated_block room s n ≡ format_source_block (shortened m s))
            × (length (format_source_block (shortened m s)) ≤ room))
  unfolding truncated_block
  truncated_block-cases room s zero = inl refl
  truncated_block-cases room s (suc n) =
      elim (Bool-cases (leb (length (format_source_block (shortened (suc n) s))) room)) [
        | inl fits ↦ rw fits (inr (suc n, omega arith, refl, ground arith))
        | inr long ↦ rw long (elim (truncated_block-cases room s n) [
          | inl none_fits ↦ inl none_fits
          | inr (m, le, eq, fits) ↦ inr (m, omega arith, eq, fits)
        ])
      ]

  too_long :
      (room : ℕ) (s : Source S) (sources : List (Source S))
      → ltb room (length (format_source_block s)) ≡ true
      → length (blocks (s ∷ sources)) ≤ room
      → ⊥
  too_long room s sources long all =
      ground (arith, length-append (format_source_block s) (blocks sources))

  nothing-IsContext :
      (room : ℕ) (s : Source S) (sources : List (Source S))
      → ltb room (length (format_source_block s)) ≡ true
      → IsContext room (s ∷ sources) []
  nothing-IsContext room s sources long = record {
    within = omega arith;
    parts = ended (s ∷ sources);
    complete = λ all. absurd (too_long room s sources long all);
  }

  truncated_block-IsContext :
      (room : ℕ) (s : Source S) (sources : List (Source S))
      → ltb room (length (format_source_block s)) ≡ true
      → IsContext room (s ∷ sources) (truncated_block room s (length (runes s.content)))
  truncated_block-IsContext room s sources long =
      elim (truncated_block-cases room s (length (runes s.content))) [
        | inl eq ↦
            subst (IsContext room (s ∷ sources)) (sym eq) (nothing-IsContext room s sources long)
        | inr (m, le, eq, fits) ↦ subst (IsContext room (s ∷ sources)) (sym eq) (record {
          within = fits;
          parts = cut s sources m le;
          complete = λ all. absurd (too_long room s sources long all);
        })
      ]

  abbrev Writes : ℕ → Bytes → List (Source S) → Bytes → Type 0
  Writes max b sources out =
      (text : Bytes) × (out ≡ b ++ text) × IsContext (max - length b) sources text

  whole-Writes :
      (max : ℕ) (b : Bytes) (s : Source S) (sources : List (Source S)) (out : Bytes)
      → length b + length (format_source_block s) ≤ max
      → Writes max (b ++ format_source_block s) sources out
      → Writes max b (s ∷ sources) out
  whole-Writes max b s sources out fits (text, eq, c) =
      let block = format_source_block s in
      let sum = length-append b block in
      let sum_text = length-append block text in
      let inner = c.within in
      (
        block ++ text,
        eq ∙ append_assoc b block text,
        record {
          within = omega (arith, sum, sum_text, inner);
          parts = whole s sources text c.parts;
          complete = λ all.
              let sum_blocks = length-append block (blocks sources) in
              ap (λ t. block ++ t) (c.complete (omega (arith, sum, sum_blocks, all)));
        },
      )

  nothing-Writes :
      (max : ℕ) (b : Bytes) (s : Source S) (sources : List (Source S))
      → ltb (max - length b) (length (format_source_block s)) ≡ true
      → Writes max b (s ∷ sources) b
  nothing-Writes max b s sources long =
      ([], sym (append-nil b), nothing-IsContext (max - length b) s sources long)

  write_sources-Writes :
      (max : ℕ) (b : Bytes) (sources : List (Source S))
      → length b ≤ max
      → Writes max b sources (write_sources max b sources)
  unfolding write_sources
  write_sources-Writes max b [] le = (
    [],
    sym (append-nil b),
    record { within = omega arith; parts = ended []; complete = λ all. refl },
  )
  write_sources-Writes max b (s ∷ sources) le =
      let block = format_source_block s in
      let remaining = max - length b in
      elim (Bool-cases (leb (length b + length block) max)) [
        | inl fits ↦ rw fits (
            whole-Writes max b s sources (write_sources max (b ++ block) sources) (ground arith) (
              write_sources-Writes max (b ++ block) sources
                (ground (arith, length-append b block))))
        | inr over ↦
            let long : ltb remaining (length block) ≡ true = ground arith in
            rw over (elim (Bool-cases (leb max (length b))) [
              | inl full ↦ rw full (nothing-Writes max b s sources long)
              | inr room ↦ rw room (elim (Bool-cases (ltb remaining 60)) [
                | inl little ↦ rw little (nothing-Writes max b s sources long)
                | inr enough ↦ rw enough (
                  truncated_block remaining s (length (runes s.content)),
                  refl,
                  truncated_block-IsContext remaining s sources long,
                )
              ])
            ])
      ]

  no_room : (n : ℕ) (s : Source S) → n ≡ 0 → ltb (n * 4) (length (format_source_block s)) ≡ true
  unfolding format_source_block
  no_room n s zero_tokens = ground arith

  -- For every list of sources and every budget of `n` tokens, the context takes at most `n * 4`
  -- bytes. It is the blocks of the first sources in order, then perhaps the block of the next
  -- source cut to some of its first runes. With room for the blocks of all the sources, the context
  -- is all of them.
  pub assemble_context-IsContext :
      (sources : List (Source S)) (n : ℕ)
      → IsContext (n * 4) sources (assemble_context sources (pos n))
  unfolding assemble_context
  assemble_context-IsContext [] n = record {
    within = omega arith;
    parts = ended [];
    complete = λ all. refl;
  }
  assemble_context-IsContext (s ∷ sources) n = elim (Bool-cases (n == 0)) [
    | inl no_tokens ↦
        rw no_tokens (nothing-IsContext (n * 4) s sources (no_room n s (ground arith)))
    | inr tokens ↦ rw tokens (
        let w = write_sources-Writes (n * 4) [] (s ∷ sources) (omega arith) in
        let nothing : Bytes = [] in
        let out = write_sources (n * 4) [] (s ∷ sources) in
        let room : n * 4 - length nothing ≡ n * 4 = omega arith in
        subst (λ r. IsContext r (s ∷ sources) out) room
          (subst (IsContext (n * 4 - length nothing) (s ∷ sources)) (sym w.1) w.2))
  ]
