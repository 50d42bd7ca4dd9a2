-- ===== src/Embed/Tests.antt =====
-- Concrete providers, contexts and chains. The state of the world counts the calls.
mod Breakers
mod Chains
mod Pools
use semidx.Prelude.{ℕ, ◌+◌, true, false, none, List, [], ◌∷◌}
use semidx.Prelude.Bytes.{Bytes, codes}
use semidx.Embed.Errors.{Err, message, deadline_exceeded, unknown_model, ok, err}
use semidx.Embed.Provider.{Context, Embedder}
use semidx.Embed.Chain.{ProviderInstance}

-- the context is live and the clock stands at 100
abbrev pub live_context : Context ℕ
live_context = record {
  now = λ w. 100;
  err = λ w. none;
  timer_fires = λ d w. (true, w);
  with_timeout = λ d w. w;
  cancel = λ w. w;
}

-- a provider all of whose calls fail with this error
abbrev pub failing : Err → Embedder ℕ ℕ
failing e = record {
  model_info = λ model w. (err e, w + 1);
  embed = λ model inputs w. (err e, w + 1);
  embed_single = λ model text w. (err e, w + 1);
  list_models = λ w. (err e, w + 1);
}

abbrev pub no_route : Err
no_route = message (codes "no route to host")

-- a provider that works
abbrev pub working : Embedder ℕ ℕ
working = record {
  model_info = λ model w. (ok (record { name = model; dims = 3 }), w + 1);
  embed = λ model inputs w. (ok (7 ∷ []), w + 1);
  embed_single = λ model text w. (ok 7, w + 1);
  list_models = λ w. (ok (codes "bge-m3" ∷ codes "nomic" ∷ []), w + 1);
}

abbrev pub provider : Bytes → Embedder ℕ ℕ → ProviderInstance ℕ ℕ
provider name embedder = record { name = name; embedder = embedder; local = true }

abbrev pub remote_provider : Bytes → Embedder ℕ ℕ → ProviderInstance ℕ ℕ
remote_provider name embedder = record { name = name; embedder = embedder; local = false }
