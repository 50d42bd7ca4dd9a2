-- ===== src/Embed/Guard.antt =====
-- The `circuitEmbedder` of internal/embed/circuit.go: an embedder behind a circuit breaker. The
-- state of a call is the breaker and the world. Between the two uses of its lock a call of another
-- goroutine may change the breaker; here the calls run one after another.
pub mod Wedge
pub mod Lookups
use semidx.Prelude.{ℕ, Bool, true, false, Option, none, some, List, ◌++◌, if◌then◌else◌, ◌||◌, not}
use semidx.Prelude.Bytes.{Bytes, codes}
use semidx.Prelude.Int.{ℤ}
use semidx.Embed.Errors.{Err, Res, ok, err, message, retryable, as_unknown_model}
use semidx.Embed.Provider.{Embedder, ModelInfo, Context}
use semidx.Embed.Circuit.{Breaker, new_circuit_breaker, allow, record_success, record_failure}
use semidx.Embed.Retry.{retry_transient}

pub circuit_open : Bytes → ℕ → Err
circuit_open name remaining =
    retryable (message (codes "circuit breaker open for " ++ name)) remaining

abbrev pub every_error : Err → Bool
every_error e = true

abbrev pub not_unknown_model : Err → Bool
not_unknown_model e = not (as_unknown_model e)

module _ {W : Type 0} (ctx : Context W) where
  module _ {A : Type 0} where
    -- what follows the call of the provider: `counts` tells the errors that count
    settle : (Err → Bool) → Breaker → Res A × W → Res A × (Breaker × W)
    settle counts cb (ok a, w) = (ok a, (record_success cb, w))
    settle counts cb (err e, w) = elim (ctx.err w) [
      | some done ↦ (err e, (cb, w))
      | none ↦ (err e, (if counts e then record_failure (ctx.now w) cb else cb, w))
    ]

    admit :
        (Err → Bool) → Bytes → (W → Res A × W) → (Bool × ℕ) × Breaker → W → Res A × (Breaker × W)
    admit counts name call ((true, remaining), cb) w = settle counts cb (call w)
    admit counts name call ((false, remaining), cb) w = (err (circuit_open name remaining), (cb, w))

    unfoldable pub guard :
        (Err → Bool) → Bytes → (W → Res A × W) → Breaker × W → Res A × (Breaker × W)
    unfolding admit settle
    guard counts name call (cb, w) = admit counts name call (allow (ctx.now w) cb) w

  module _ {V : Type 0} (name : Bytes) (inner : Embedder W V) where
    unfoldable pub embed : Bytes → List Bytes → Breaker × W → Res (List V) × (Breaker × W)
    embed model inputs = guard every_error name (retry_transient ctx (inner.embed model inputs))

    unfoldable pub embed_single : Bytes → Bytes → Breaker × W → Res V × (Breaker × W)
    embed_single model text =
        guard every_error name (retry_transient ctx (inner.embed_single model text))

    unfoldable pub model_info : Bytes → Breaker × W → Res ModelInfo × (Breaker × W)
    model_info model = guard not_unknown_model name (inner.model_info model)

    unfoldable pub list_models : Breaker × W → Res (List Bytes) × (Breaker × W)
    list_models = guard every_error name inner.list_models

    -- `wrapWithCircuit`: the embedder, and the breaker that it starts with
    unfoldable pub wrap_with_circuit : ℤ → ℤ → Embedder (Breaker × W) V × Breaker
    wrap_with_circuit threshold cooldown = (
      record {
        model_info = model_info;
        embed = embed;
        embed_single = embed_single;
        list_models = list_models;
      },
      new_circuit_breaker threshold cooldown,
    )
