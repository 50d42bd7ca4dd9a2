-- ===== src/Embed/Circuit/States.antt =====
-- What holds of a circuit breaker over every sequence of calls.
use semidx.Prelude.{
  ℕ, suc, ◌+◌, ◌≤◌, ◌<◌, ◌≡◌, refl, true, false, List, [], ◌∷◌, length, arith, leb, if◌then◌else◌,
}
use semidx.Prelude.Int.{ℤ}
use semidx.Embed.Circuit.{Breaker, new_circuit_breaker, allow, record_success, record_failure}

pub record IsValid (cb : Breaker) : Type 0 where
  pub positive : (0 < cb.threshold) × (0 < cb.cooldown)
  pub probe_tripped : cb.probing ≡ true → cb.threshold ≤ cb.failures
  pub open_tripped : 0 < cb.open_until → cb.threshold ≤ cb.failures
  pub probe_not_open : cb.probing ≡ true → cb.open_until ≡ 0

-- The methods, each with the clock at its call.
pub data Event : Type 0 where
  allow_at : ℕ → Event
  success : Event
  failure_at : ℕ → Event

abbrev pub step : Event → Breaker → Breaker
step (allow_at now) cb = (allow now cb).1
step success cb = record_success cb
step (failure_at now) cb = record_failure now cb

abbrev pub run : List Event → Breaker → Breaker
run [] cb = cb
run (e ∷ es) cb = run es (step e cb)

step-IsValid : (e : Event) {cb : Breaker} → IsValid cb → IsValid (step e cb)
unfolding allow record_success record_failure
step-IsValid (allow_at now) v = ground arith
step-IsValid success v = ground arith
step-IsValid (failure_at now) v = ground arith

run-IsValid : (es : List Event) {cb : Breaker} → IsValid cb → IsValid (run es cb)
run-IsValid [] v = v
run-IsValid (e ∷ es) v = run-IsValid es (step-IsValid e v)

-- A breaker of any configuration, after any calls by any callers in any order: threshold and
-- cooldown are positive, a probe is in flight or the circuit is open only when the failures have
-- reached the threshold, and never both at once.
pub run_new-IsValid :
    (threshold cooldown : ℤ) (es : List Event)
    → IsValid (run es (new_circuit_breaker threshold cooldown))
unfolding new_circuit_breaker
run_new-IsValid threshold cooldown es = run-IsValid es (ground arith)

-- how many of the calls of `allow`, at these times, are let through
abbrev pub grants : List ℕ → Breaker → ℕ
grants [] cb = 0
grants (now ∷ times) cb =
    let rest = grants times (allow now cb).1 in if (allow now cb).0.0 then suc rest else rest

grants_probing :
    (times : List ℕ) (cb : Breaker)
    → cb.probing ≡ true
    → cb.threshold ≤ cb.failures
    → grants times cb ≡ 0
unfolding allow
grants_probing [] cb p t = refl
grants_probing (now ∷ times) cb p t = ground (arith, grants_probing times cb p t)

-- Once the failures have reached the threshold, at most one call is let through until a result is
-- recorded, however many callers ask and at whatever times.
pub single_probe :
    (times : List ℕ) (cb : Breaker) → cb.threshold ≤ cb.failures → grants times cb ≤ 1
unfolding allow
single_probe [] cb t = omega arith
single_probe (now ∷ times) cb t = ground (
  arith,
  single_probe times cb t,
  grants_probing times (record cb { probing = true; open_until = 0 }),
)

-- failures recorded at these times
abbrev pub fail_all : List ℕ → Breaker → Breaker
fail_all [] cb = cb
fail_all (t ∷ ts) cb = fail_all ts (record_failure t cb)

fail_all_fields :
    (ts : List ℕ) (cb : Breaker)
    → cb.probing ≡ false
    → ((fail_all ts cb).failures ≡ cb.failures + length ts)
      × ((fail_all ts cb).probing ≡ false)
      × ((fail_all ts cb).threshold ≡ cb.threshold)
      × ((fail_all ts cb).cooldown ≡ cb.cooldown)
      × ((fail_all ts cb).failures < cb.threshold → (fail_all ts cb).open_until ≡ cb.open_until)
unfolding record_failure
fail_all_fields [] cb p = ground arith
fail_all_fields (t ∷ ts) cb p = ground (arith, fail_all_fields ts (record_failure t cb) refl)

-- After a success and then any number of failures, the last at time `t`, `allow` rejects exactly
-- when the failures have reached the threshold and the cooldown since `t` has not passed; after it
-- has passed, `allow` lets the call through.
pub trips_exactly :
    (ts : List ℕ) (t now : ℕ) (cb : Breaker)
    → (allow now (record_failure t (fail_all ts (record_success cb)))).0.0
      ≡ (if leb cb.threshold (length ts + 1) then leb (t + cb.cooldown) now else true)
unfolding record_success allow record_failure
trips_exactly ts t now cb = ground (arith, fail_all_fields ts (record_success cb) refl)
