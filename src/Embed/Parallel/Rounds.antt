-- ===== src/Embed/Parallel/Rounds.antt =====
-- The round robin of the pool, and the fallback under force-local.
use native.Mathlib.Nat.{mod-lt, mod-eq_of_lt, mod-add-mod, add-mod_right}
use semidx.Prelude.{
  ℕ, zero, suc, ◌+◌, ◌-◌, ◌%◌, ◌≤◌, ◌<◌, ◌≡◌, ◌≢◌, inl, inr, refl, sym, ◌∙◌, ap, Bool, true, Option,
  none, some, List, [], ◌∷◌, length, get_elem?, arith, ltb, ◌==◌, Bool-cases,
}
use semidx.Embed.Errors.{Err, Res, ok, err}
use semidx.Embed.Provider.{Embedder}
use semidx.Embed.Parallel.{
  ParallelEmbedder, next_entry, call_at, after_entry, fallback_loop, after_first, pool_call,
}

module _ {W V : Type 0} where
  -- the pool after `k` calls
  abbrev pub after_calls : ℕ → ParallelEmbedder W V → ParallelEmbedder W V
  after_calls zero p = p
  after_calls (suc k) p = after_calls k (next_entry p).1

  -- In a pool of `n` entries whose next index is in range, the `k`-th call from now takes the entry
  -- `(next + k) % n`: strict round robin, for ever.
  pub next_entry_rounds :
      (k : ℕ) (p : ParallelEmbedder W V)
      → p.next < length p.entries
      → (next_entry (after_calls k p)).0 ≡ (p.next + k) % length p.entries
  unfolding next_entry
  next_entry_rounds zero p h = sym (ap (λ t. t % length p.entries) (omega arith) ∙ mod-eq_of_lt h)
  next_entry_rounds (suc k) p h =
      next_entry_rounds k (record p { next = (p.next + 1) % length p.entries })
        (mod-lt (p.next + 1) (omega arith))
      ∙ mod-add-mod (p.next + 1) (length p.entries) k
      ∙ ap (λ t. t % length p.entries) (omega arith)

get_elem?-some {ℓ} :
    {A : Type ℓ} (xs : List A) (i : ℕ) → i < length xs → (a : A) × (get_elem? xs i ≡ some a)
get_elem?-some [] i h = absurd (omega arith)
get_elem?-some (x ∷ xs) zero h = (x, refl)
get_elem?-some (x ∷ xs) (suc i) h = get_elem?-some xs i (omega arith)

lt-length_of_get_elem? {ℓ} :
    {A : Type ℓ} (xs : List A) (i : ℕ) {a : A} → get_elem? xs i ≡ some a → i < length xs
lt-length_of_get_elem? [] i h = cc
lt-length_of_get_elem? (x ∷ xs) zero h = omega arith
lt-length_of_get_elem? (x ∷ xs) (suc i) h = omega (arith, lt-length_of_get_elem? xs i h)

-- the distance from one index to another, round the pool
round_offset :
    (a b n : ℕ) → a < n → b < n → a ≢ b → (i : ℕ) × (n ≤ n - 1 + i) × (i < n) × ((a + i) % n ≡ b)
round_offset a b n ha hb ne = elim (Bool-cases (ltb a b)) [
  | inl up ↦
      let lt : a < b = ground arith in
      (b - a, omega arith, omega arith, ap (λ t. t % n) (omega arith) ∙ mod-eq_of_lt hb)
  | inr down ↦
      let lt : b < a = ground arith in
      (
        b + n - a,
        omega arith,
        omega arith,
        ap (λ t. t % n) (omega arith) ∙ add-mod_right b n ∙ mod-eq_of_lt hb,
      )
]

-- the result is there and is no error
abbrev pub Succeeds : {W A : Type 0} → Option (Res A × W) → Type 0
Succeeds none = ⊥
Succeeds (some (ok a, w)) = Unit
Succeeds (some (err e, w)) = ⊥

module _ {W V A : Type 0} (fn : Embedder W V → W → Res A × W) (entries : List (Embedder W V))
    (sound : Embedder W V) (j : ℕ) (at_j : get_elem? entries j ≡ some sound)
    (succeeds : (w : W) → (a : A) × ((fn sound w).0 ≡ ok a)) where
  call_at_j : (w : W) → Succeeds (call_at fn entries j w)
  unfolding call_at
  call_at_j w = rw (at_j, call_at) (go (fn sound w) (succeeds w))
    where
      go : (r : Res A × W) → (a : A) × (r.0 ≡ ok a) → Succeeds (some r)
      go (ok b, w') h = tt
      go (err e, w') (a, h) = cc

  call_at-some :
      (i : ℕ) (w : W) → i < length entries → (r : Res A × W) × (call_at fn entries i w ≡ some r)
  unfolding call_at
  call_at-some i w h = let (e, p) = get_elem?-some entries i h in (fn e w, rw (p, call_at))

  after_Succeeds :
      (next : Option Err → W → Option (Res A × W)) (r : Option (Res A × W))
      → Succeeds r
      → Succeeds (after_entry fn next r)
  unfolding after_entry
  after_Succeeds next none h = h
  after_Succeeds next (some (ok a, w)) h = h
  after_Succeeds next (some (err e, w)) h = absurd h

  after_next :
      (next : Option Err → W → Option (Res A × W)) (r : Res A × W)
      → ((last : Option Err) (w : W) → Succeeds (next last w))
      → Succeeds (after_entry fn next (some r))
  unfolding after_entry
  after_next next (ok a, w) h = tt
  after_next next (err e, w) h = h (some e) w

  fallback-Succeeds :
      (start left : ℕ) (last : Option Err) (w : W) (i : ℕ)
      → left < length entries
      → length entries ≤ left + i
      → i < length entries
      → (start + i) % length entries ≡ j
      → Succeeds (fallback_loop fn entries start left last w)
  unfolding fallback_loop
  fallback-Succeeds start zero last w i l n r e = absurd (omega arith)
  fallback-Succeeds start (suc left) last w i l n r e =
      let i0 = length entries - suc left in
      elim (Bool-cases (i == i0)) [
        | inl here ↦
            let same : i ≡ i0 = ground arith in
            after_Succeeds (fallback_loop fn entries start left) _ (rw (← same, e) (call_at_j w))
        | inr later ↦
            let more : i ≢ i0 = ground arith in
            let (found, p) =
              call_at-some ((start + i0) % length entries) w (mod-lt (start + i0) (omega arith)) in
            rw p (
              after_next (fallback_loop fn entries start left) found
                λ last' w'. fallback-Succeeds start left last' w' i (omega arith) (omega arith) r e)
      ]

  -- Under force-local, a call of the pool succeeds if some entry's calls always succeed, wherever
  -- the round robin stands: every entry is tried before the pool gives up.
  pub pool_call-Succeeds :
      (keeps : Bool) (next : ℕ) (w : W)
      → next < length entries
      → Succeeds (pool_call fn true keeps (record { entries = entries; next = next }) w).0
  unfolding pool_call
  pool_call-Succeeds keeps next w h = elim (Bool-cases (next == j)) [
    | inl here ↦
        let same : next ≡ j = ground arith in
        first (call_at fn entries next w) (rw same (call_at_j w))
    | inr other ↦
        let differ : next ≢ j = ground arith in
        let (r, p) = call_at-some next w h in
        let (i, n, lt, e) =
          round_offset next j (length entries) h (lt-length_of_get_elem? entries j at_j) differ in
        rw p (
          second r
            λ last w'. fallback-Succeeds next (length entries - 1) last w' i (omega arith) n lt e)
  ]
    where
      first :
          (r : Option (Res A × W))
          → Succeeds r
          → Succeeds (after_first fn true keeps entries next r)
      first none s = s
      first (some (ok a, w')) s = tt
      first (some (err e, w')) s = absurd s

      second :
          (r : Res A × W)
          → ((last : Option Err) (w' : W)
              → Succeeds (fallback_loop fn entries next (length entries - 1) last w'))
          → Succeeds (after_first fn true keeps entries next (some r))
      second (ok a, w') s = tt
      second (err e, w') s = s _ w'
