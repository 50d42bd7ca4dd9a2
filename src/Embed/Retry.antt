-- ===== src/Embed/Retry.antt =====
-- The quick retries of internal/embed/circuit.go.
pub mod Attempts
use semidx.Prelude.{ℕ, Bool, true, false, Option, none, some, List, [], ◌∷◌, if◌then◌else◌}
use semidx.Embed.Errors.{Err, Res, ok, err, is_transient}
use semidx.Embed.Provider.{Context}

-- 50 ms and 150 ms
abbrev pub quick_retry_backoffs : List ℕ
quick_retry_backoffs = 50_000_000 ∷ 150_000_000 ∷ []

module _ {W : Type 0} (ctx : Context W) where
  timer_or_done : Bool × W → Option Err × W
  timer_or_done (true, w) = (none, w)
  timer_or_done (false, w) = (ctx.err w, w)

  unfoldable pub wait_or_cancel : ℕ → W → Option Err × W
  unfolding timer_or_done
  wait_or_cancel d w = timer_or_done (ctx.timer_fires d w)

  module _ {A : Type 0} where
    -- the checks behind a call of `fn`; `again` goes on with the loop
    after_call : (Err → W → Res A × W) → Res A × W → Res A × W
    after_call again (ok a, w) = (ok a, w)
    after_call again (err e, w) = elim (ctx.err w) [
      | some done ↦ (err done, w)
      | none ↦ let more = again e w in if is_transient e then more else (err e, w)
    ]

    after_wait : (W → Res A × W) → Option Err × W → Res A × W
    after_wait call (some werr, w) = (err werr, w)
    after_wait call (none, w) = call w

    -- a call of `fn`, and the rest of the loop over the backoffs that are left
    attempts : (W → Res A × W) → List ℕ → W → Res A × W
    attempts fn [] w = after_call (λ e w'. (err e, w')) (fn w)
    attempts fn (wait ∷ waits) w =
        after_call (λ e w'. after_wait (attempts fn waits) (wait_or_cancel wait w')) (fn w)

    unfoldable pub retry_transient : (W → Res A × W) → W → Res A × W
    unfolding attempts after_call after_wait
    retry_transient fn w = attempts fn quick_retry_backoffs w
