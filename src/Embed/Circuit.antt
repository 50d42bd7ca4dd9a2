-- ===== src/Embed/Circuit.antt =====
-- The circuit breaker of internal/embed/circuit.go. Times are nanoseconds since Go's zero time,
-- which is 0; `now` is the clock at the call. The lock makes each method one step.
pub mod States
use semidx.Prelude.{ℕ, suc, ◌+◌, ◌-◌, ◌<◌, ◌≤◌, ◌≡◌, Bool, true, false, ltb, leb, if◌then◌else◌}
use semidx.Prelude.Int.{ℤ, positive_or}

pub record Breaker : Type 0 where
  pub failures : ℕ
  pub open_until : ℕ
  pub probing : Bool
  pub threshold : ℕ
  pub cooldown : ℕ

abbrev pub default_failure_threshold : ℕ
default_failure_threshold = 3

-- thirty seconds
abbrev pub default_cooldown : ℕ
default_cooldown = 30_000_000_000

unfoldable pub new_circuit_breaker : ℤ → ℤ → Breaker
new_circuit_breaker threshold cooldown = record {
  failures = 0;
  open_until = 0;
  probing = false;
  threshold = positive_or default_failure_threshold threshold;
  cooldown = positive_or default_cooldown cooldown;
}

-- `allow`: whether the call may go on, and how long to wait if not
unfoldable pub allow : ℕ → Breaker → (Bool × ℕ) × Breaker
allow now cb =
    if ltb now cb.open_until
    then ((false, cb.open_until - now), cb)
    else if leb cb.threshold cb.failures
    then (if cb.probing
        then ((false, cb.cooldown), cb)
        else ((true, 0), record cb { probing = true; open_until = 0 }))
    else ((true, 0), cb)

unfoldable pub record_success : Breaker → Breaker
record_success cb = record cb { failures = 0; open_until = 0; probing = false }

unfoldable pub record_failure : ℕ → Breaker → Breaker
record_failure now cb =
    let failures = cb.failures + 1 in
    record cb {
      failures = failures;
      probing = false;
      open_until = if leb cb.threshold failures then now + cb.cooldown else cb.open_until;
    }
