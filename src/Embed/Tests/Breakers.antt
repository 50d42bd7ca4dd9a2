-- ===== src/Embed/Tests/Breakers.antt =====
-- The breaker, the retries and the guarded embedder on concrete providers.
use semidx.Prelude.{◌+◌, ◌≤◌, ◌⊎◌, ◌≡◌, refl, ap, not, true, false, List, [], ◌∷◌, arith, inr}
use semidx.Prelude.Bytes.{codes}
use semidx.Prelude.Int.{pos, negsuc}
use semidx.Embed.Errors.{Err, err, unknown_model, as_unknown_model, is_transient}
use semidx.Embed.Circuit.{Breaker, allow, record_success, record_failure, new_circuit_breaker}
use semidx.Embed.Circuit.States.{
  IsValid, allow_at, success, failure_at, Event, run, run_new-IsValid, grants, single_probe,
  fail_all, trips_exactly,
}
use semidx.Embed.Retry.{retry_transient}
use semidx.Embed.Retry.Attempts.{retry_transient-calls, retry_transient_gives_up}
use semidx.Embed.Guard.{guard, circuit_open, every_error, not_unknown_model}
use semidx.Embed.Guard.Wedge.{probe_lost}
use semidx.Embed.Tests.{live_context, failing, no_route}

-- three failures, the cooldown of 30 over at 60
abbrev tripped : Breaker
tripped = record { failures = 3; open_until = 60; probing = false; threshold = 3; cooldown = 30 }

abbrev events : List Event
events = failure_at 1 ∷ failure_at 2 ∷ allow_at 3 ∷ success ∷ failure_at 4 ∷ []

run_new-IsValid_example : IsValid (run events (new_circuit_breaker (pos 2) (negsuc 4)))
run_new-IsValid_example = run_new-IsValid (pos 2) (negsuc 4) events

single_probe_example : grants (10 ∷ 70 ∷ 80 ∷ 500 ∷ []) tripped ≤ 1
single_probe_example = single_probe (10 ∷ 70 ∷ 80 ∷ 500 ∷ []) tripped (omega arith)

trips_exactly_example :
    (allow 100 (record_failure 80 (fail_all (1 ∷ 2 ∷ []) (record_success tripped)))).0.0 ≡ false
trips_exactly_example = trips_exactly (1 ∷ 2 ∷ []) 80 100 tripped

abbrev missing : Err
missing = unknown_model (codes "m") (codes "ollama") []

missing_unknown : as_unknown_model missing ≡ true
unfolding as_unknown_model
missing_unknown = refl

probe_lost_example :
    guard live_context every_error (codes "ollama") (failing no_route).list_models (
      (guard live_context not_unknown_model
          (codes "ollama")
          ((failing missing).model_info (codes "m"))
          (tripped, 0)).1.0,
      9,
    )
    ≡ (
      err (circuit_open (codes "ollama") 30),
      (
        (guard live_context not_unknown_model
            (codes "ollama")
            ((failing missing).model_info (codes "m"))
            (tripped, 0)).1.0,
        9,
      ),
    )
probe_lost_example =
    probe_lost live_context not_unknown_model (codes "ollama")
      ((failing missing).model_info (codes "m")) tripped 0 (omega arith) refl (omega arith) refl
      (inr (ap not missing_unknown)) every_error (codes "ollama") (failing no_route).list_models 9

retry_transient-calls_example :
    (5 + 1 ≤ (retry_transient live_context (failing no_route).list_models 5).1)
    × ((retry_transient live_context (failing no_route).list_models 5).1 ≤ 5 + 3)
retry_transient-calls_example =
    retry_transient-calls live_context (failing no_route).list_models (λ w. w) (λ w. refl)
      (λ d w. refl) 5

list_fails : (retry_transient live_context (failing no_route).list_models 5).0 ≡ err no_route
unfolding retry_transient is_transient
list_fails = refl

retry_transient_gives_up_example :
    (is_transient no_route ≡ false)
    ⊎ ((retry_transient live_context (failing no_route).list_models 5).1 ≡ 5 + 3)
retry_transient_gives_up_example =
    retry_transient_gives_up live_context (failing no_route).list_models (λ w. w) (λ w. refl)
      (λ d w. refl) (λ w. refl) (λ d w. refl) 5 list_fails
