-- ===== src/Embed/Guard/Wedge.antt =====
-- A probe that is given up: what happens to the breaker when the call that the half-open circuit
-- let through ends in an error that is not recorded.
use semidx.Prelude.{◌≤◌, ◌≡◌, ◌⊎◌, inl, inr, refl, Bool, true, false, some, arith, Option-cases}
use semidx.Prelude.Bytes.{Bytes}
use semidx.Embed.Errors.{Err, Res, err}
use semidx.Embed.Provider.{Context}
use semidx.Embed.Circuit.{Breaker, allow}
use semidx.Embed.Guard.{guard, admit, settle, circuit_open}

module _ {W : Type 0} (ctx : Context W) where
  -- the circuit is half open with a probe in flight
  pub record Stuck (cb : Breaker) : Type 0 where
    pub probing : cb.probing ≡ true
    pub tripped : cb.threshold ≤ cb.failures
    pub not_open : cb.open_until ≡ 0

  guard-Stuck :
      {A : Type 0} (counts : Err → Bool) (name : Bytes) (call : W → Res A × W) (cb : Breaker)
      (w : W)
      → Stuck cb
      → guard ctx counts name call (cb, w) ≡ (err (circuit_open name cb.cooldown), (cb, w))
  unfolding guard
  guard-Stuck counts name call cb w s = rw rejected
    where
      rejected : allow (ctx.now w) cb ≡ ((false, cb.cooldown), cb)
      rejected = unfold allow in ground (arith, s)

  -- A call that the tripped breaker lets through, after its cooldown, and that fails with its
  -- context done or with an error that does not count.
  module _ {A : Type 0} (counts : Err → Bool) (name : Bytes) (call : W → Res A × W) (cb : Breaker)
      (w : W) (tripped : cb.threshold ≤ cb.failures) (idle : cb.probing ≡ false)
      (cooled : cb.open_until ≤ ctx.now w) {e : Err} {w' : W} (fails : call w ≡ (err e, w'))
      (unrecorded : ((done : Err) × (ctx.err w' ≡ some done)) ⊎ (counts e ≡ false)) where
    lost : Breaker
    lost = record cb { probing = true; open_until = 0 }

    guard-lost : guard ctx counts name call (cb, w) ≡ (err e, (lost, w'))
    unfolding guard lost
    guard-lost = rw (admitted, admit, fails) (go unrecorded)
      where
        admitted : allow (ctx.now w) cb ≡ ((true, 0), lost)
        admitted = unfold allow in ground arith

        go :
            ((done : Err) × (ctx.err w' ≡ some done)) ⊎ (counts e ≡ false)
            → settle ctx {A = A} counts lost (err e, w') ≡ (err e, (lost, w'))
        go (inl (done, p)) = rw (p, settle)
        go (inr n) = elim (Option-cases (ctx.err w')) [
          | inl p ↦ rw (p, n, settle)
          | inr (done, p) ↦ rw (p, settle)
        ]

    -- From then on every call through the breaker, of any method, at any time and with any context,
    -- is rejected without a call of the provider, and the breaker stays as it is.
    pub probe_lost :
        {B : Type 0} (counts' : Err → Bool) (name' : Bytes) (call' : W → Res B × W) (later : W)
        → let cb' = (guard ctx counts name call (cb, w)).1.0 in
          guard ctx counts' name' call' (cb', later)
          ≡ (err (circuit_open name' cb.cooldown), (cb', later))
    probe_lost counts' name' call' later = rw guard-lost (
        unfold lost in
        guard-Stuck counts' name' call' (record cb { probing = true; open_until = 0 }) later
          (record { probing = refl; tripped = tripped; not_open = refl }))
