-- ===== src/Embed/Retry/Attempts.antt =====
-- How often `retryTransient` calls the provider, and what its result says of the calls.
use semidx.Prelude.{
  ℕ, ◌+◌, ◌≤◌, ◌≡◌, ◌⊎◌, inl, inr, refl, Bool, true, false, Option, none, some, List, [], ◌∷◌,
  length, arith, Bool-cases, Option-cases,
}
use semidx.Embed.Errors.{Err, Res, ok, err, is_transient}
use semidx.Embed.Provider.{Context}
use semidx.Embed.Retry.{
  wait_or_cancel, timer_or_done, after_call, after_wait, attempts, retry_transient,
  quick_retry_backoffs,
}

-- `calls` counts the calls of `fn` in the world: `fn` adds one, and a wait adds none.
module _ {W A : Type 0} (ctx : Context W) (fn : W → Res A × W) (calls : W → ℕ)
    (counted : (w : W) → calls (fn w).1 ≡ calls w + 1)
    (wait_counts : (d : ℕ) (w : W) → calls (ctx.timer_fires d w).1 ≡ calls w) where
  calls-wait : (d : ℕ) (w : W) → calls (wait_or_cancel ctx d w).1 ≡ calls w
  unfolding wait_or_cancel
  calls-wait d w = go (ctx.timer_fires d w) (wait_counts d w)
    where
      go : (r : Bool × W) → calls r.1 ≡ calls w → calls (timer_or_done ctx r).1 ≡ calls w
      go (true, w') h = h
      go (false, w') h = h

  -- what holds of a result `r` after at most `n` calls more than `c`
  record Bounded (c n : ℕ) (r : Res A × W) : Type 0 where
    pub at_least : c + 1 ≤ calls r.1
    pub at_most : calls r.1 ≤ c + n

  after_call-Bounded :
      (c n : ℕ) (again : Err → W → Res A × W) (r : Res A × W)
      → calls r.1 ≡ c + 1
      → ((e : Err) (w : W) → calls w ≡ c + 1 → Bounded c (n + 1) (again e w))
      → Bounded c (n + 1) (after_call ctx again r)
  unfolding after_call
  after_call-Bounded c n again (ok a, w) h later = omega arith
  after_call-Bounded c n again (err e, w) h later = elim (Option-cases (ctx.err w)) [
    | inr (done, p) ↦ rw (p, after_call) (omega arith)
    | inl p ↦ elim (Bool-cases (is_transient e)) [
      | inl t ↦ rw (p, t, after_call) (later e w h)
      | inr t ↦ rw (p, t, after_call) (omega arith)
    ]
  ]

  attempts-Bounded :
      (waits : List ℕ) (w : W) → Bounded (calls w) (length waits + 1) (attempts ctx fn waits w)
  unfolding attempts
  attempts-Bounded [] w =
      after_call-Bounded (calls w) 0 _ (fn w) (counted w) (λ e w' h. omega arith)
  attempts-Bounded (wait ∷ waits) w =
      after_call-Bounded (calls w) (length (wait ∷ waits)) _ (fn w) (counted w)
        λ e w' h. go (attempts-Bounded waits) (wait_or_cancel ctx wait w') (rw calls-wait h)
    where
      go :
          ((w2 : W) → Bounded (calls w2) (length waits + 1) (attempts ctx fn waits w2))
          → (r : Option Err × W) → calls r.1 ≡ calls w + 1
          → Bounded (calls w) (length (wait ∷ waits) + 1) (after_wait ctx (attempts ctx fn waits) r)
      go ih (some x, w2) h = unfold after_wait in omega arith
      go ih (none, w2) h = unfold after_wait in omega (arith, ih w2)

  -- `retryTransient` calls the provider at least once and at most three times, whatever the
  -- provider answers and whenever the context is cancelled.
  pub retry_transient-calls :
      (w : W)
      → (calls w + 1 ≤ calls (retry_transient ctx fn w).1)
        × (calls (retry_transient ctx fn w).1 ≤ calls w + 3)
  unfolding retry_transient
  retry_transient-calls w = omega (arith, attempts-Bounded quick_retry_backoffs w)

  -- an error after fewer than `n` calls is not transient
  abbrev GivesUp : ℕ → ℕ → Res A × W → Type 0
  GivesUp c n (ok a, w) = Unit
  GivesUp c n (err e, w) = (is_transient e ≡ false) ⊎ (calls w ≡ c + n)

  module _ (live : (w : W) → ctx.err w ≡ none)
      (fires : (d : ℕ) (w : W) → (ctx.timer_fires d w).0 ≡ true) where
    wait_live : (d : ℕ) (w : W) → (wait_or_cancel ctx d w).0 ≡ none
    unfolding wait_or_cancel
    wait_live d w = go (ctx.timer_fires d w) (fires d w)
      where
        go : (r : Bool × W) → r.0 ≡ true → (timer_or_done ctx r).0 ≡ none
        go (true, w') h = refl
        go (false, w') h = cc

    after_call-GivesUp :
        (c n : ℕ) (again : Err → W → Res A × W) (r : Res A × W)
        → calls r.1 ≡ c + 1
        → ((e : Err) (w : W) → calls w ≡ c + 1 → is_transient e ≡ true → GivesUp c n (again e w))
        → GivesUp c n (after_call ctx again r)
    unfolding after_call
    after_call-GivesUp c n again (ok a, w) h later = tt
    after_call-GivesUp c n again (err e, w) h later = elim (Bool-cases (is_transient e)) [
      | inl t ↦ rw (live w, t, after_call) (later e w h t)
      | inr t ↦ rw (live w, t, after_call) (inl t)
    ]

    attempts-GivesUp :
        (waits : List ℕ) (w : W) → GivesUp (calls w) (length waits + 1) (attempts ctx fn waits w)
    unfolding attempts
    attempts-GivesUp [] w =
        after_call-GivesUp (calls w) (0 + 1) _ (fn w) (counted w) (λ e w' h t. inr (omega arith))
    attempts-GivesUp (wait ∷ waits) w =
        after_call-GivesUp (calls w) (length (wait ∷ waits) + 1) _ (fn w) (counted w) λ e w' h t.
          go (attempts-GivesUp waits) (wait_or_cancel ctx wait w') (wait_live wait w')
            (rw calls-wait h)
      where
        shift :
            (w2 : W) (r : Res A × W)
            → calls w2 ≡ calls w + 1
            → GivesUp (calls w2) (length waits + 1) r
            → GivesUp (calls w) (length (wait ∷ waits) + 1) r
        shift w2 (ok a, w3) h g = tt
        shift w2 (err e, w3) h (inl p) = inl p
        shift w2 (err e, w3) h (inr q) = inr (omega arith)

        go :
            ((w2 : W) → GivesUp (calls w2) (length waits + 1) (attempts ctx fn waits w2))
            → (r : Option Err × W) → r.0 ≡ none
            → calls r.1 ≡ calls w + 1
            → GivesUp
                (calls w)
                (length (wait ∷ waits) + 1)
                (after_wait ctx (attempts ctx fn waits) r)
        go ih (some x, w2) n h = cc
        go ih (none, w2) n h = unfold after_wait in shift w2 _ h (ih w2)

    -- While the context stays live, an error that `retryTransient` returns is either permanent or
    -- was met at the third call.
    pub retry_transient_gives_up :
        (w : W) {e : Err}
        → (retry_transient ctx fn w).0 ≡ err e
        → (is_transient e ≡ false) ⊎ (calls (retry_transient ctx fn w).1 ≡ calls w + 3)
    unfolding retry_transient
    retry_transient_gives_up w {e} failed =
        go (attempts ctx fn quick_retry_backoffs w) failed (attempts-GivesUp quick_retry_backoffs w)
      where
        go :
            (r : Res A × W)
            → r.0 ≡ err e
            → GivesUp (calls w) 3 r
            → (is_transient e ≡ false) ⊎ (calls r.1 ≡ calls w + 3)
        go (ok a, w') h g = cc
        go (err x, w') h g = ground (arith, g)
