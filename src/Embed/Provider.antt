-- ===== src/Embed/Provider.antt =====
-- The `Embedder` interface of internal/embed/embed.go over the state `W` of the world: a call may
-- fail and changes the world. `V` is the type of an embedding vector (`[]float32`).
use semidx.Prelude.{ℕ, Bool, Option, List}
use semidx.Prelude.Bytes.{Bytes}
use semidx.Embed.Errors.{Err, Res}

pub record ModelInfo : Type 0 where
  pub name : Bytes
  pub dims : ℕ

pub record Embedder (W V : Type 0) : Type 0 where
  pub model_info : Bytes → W → Res ModelInfo × W
  pub embed : Bytes → List Bytes → W → Res (List V) × W
  pub embed_single : Bytes → Bytes → W → Res V × W
  pub list_models : W → Res (List Bytes) × W

-- The clock, the `context.Context` of the call and the timers, which are Go's: `time.Now()`,
-- `ctx.Err()`, and whether a `select` on `ctx.Done()` and `time.After(d)` takes the timer.
pub record Context (W : Type 0) : Type 0 where
  pub now : W → ℕ
  pub err : W → Option Err
  pub timer_fires : ℕ → W → Bool × W
  -- `context.WithTimeout` around a call, and its `cancel()`
  pub with_timeout : ℕ → W → W
  pub cancel : W → W
