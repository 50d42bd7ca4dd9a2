-- ===== src/Embed/Chain.antt =====
-- The fallback chain of internal/embed/embed.go. `force_local` is what the context says, and
-- `local_timeout` is what `embedTimeout()` reads from the environment.
pub mod Privacy
pub mod Exhausted
pub mod Models
use semidx.Prelude.{
  ℕ, Bool, true, false, not, ◌&&◌, ◌||◌, none, some, List, [], ◌∷◌, ◌++◌, if◌then◌else◌,
}
use semidx.Prelude.Bytes.{Bytes, codes, bytes_eq}
use semidx.Prelude.Eq.{contains}
use semidx.Embed.Errors.{
  Err, Failures, nil, append_failure, no_failures, Res, ok, err, message, chain_error,
}
use semidx.Embed.Provider.{Embedder, ModelInfo, Context}

pub record ProviderInstance (W V : Type 0) : Type 0 where
  pub name : Bytes
  pub embedder : Embedder W V
  pub local : Bool

pub record ChainEmbedder (W V : Type 0) : Type 0 where
  pub providers : List (ProviderInstance W V)
  pub privacy : Bool

-- thirty seconds
abbrev pub remote_timeout : ℕ
remote_timeout = 30_000_000_000

abbrev pub set_privacy : {W V : Type 0} → Bool → ChainEmbedder W V → ChainEmbedder W V
set_privacy privacy ce = record ce { privacy = privacy }

abbrev pub skip : {W V : Type 0} → Bool → Bool → ProviderInstance W V → Bool
skip privacy force_local p = (privacy || force_local) && not p.local

abbrev pub no_model : Bytes → Err
no_model op = message (codes "chain: " ++ (op ++ codes ": no embedding model available"))

-- what `tryEach` returns behind its loop
abbrev pub exhausted : Bytes → Failures → Err
exhausted op fs = if no_failures fs then no_model op else chain_error op fs

module _ {W V : Type 0} (ctx : Context W) (local_timeout : ℕ) where
  module _ {A : Type 0} (fn : Embedder W V → W → Res A × W) (privacy force_local : Bool)
      (op : Bytes) where
    -- the call of one provider under its timeout
    pub call : ProviderInstance W V → W → Res A × W
    call p w =
        let timeout = if p.local then local_timeout else remote_timeout in
        let (r, w') = fn p.embedder (ctx.with_timeout timeout w) in (r, ctx.cancel w')

    pub after_call : Bytes → Failures → (Failures → W → Res A × W) → Res A × W → Res A × W
    after_call name fs next (ok a, w) = (ok a, w)
    after_call name fs next (err e, w) = elim (ctx.err w) [
      | some done ↦ (err done, w)
      | none ↦ next (append_failure fs name e) w
    ]

    pub loop : List (ProviderInstance W V) → Failures → W → Res A × W
    loop [] fs w = (err (exhausted op fs), w)
    loop (p ∷ ps) fs w = elim (skip privacy force_local p) [
      | true ↦ loop ps fs w
      | false ↦ after_call p.name fs (loop ps) (call p w)
    ]

  unfoldable pub try_each :
      {A : Type 0}
      → Bool
      → Bytes
      → (Embedder W V → W → Res A × W)
      → ChainEmbedder W V
      → W
      → Res A × W
  unfolding loop after_call call
  try_each force_local op fn ce w = loop fn ce.privacy force_local op ce.providers nil w

  module _ (force_local : Bool) (ce : ChainEmbedder W V) where
    unfoldable pub embed : Bytes → List Bytes → W → Res (List V) × W
    embed model inputs =
        try_each force_local (codes "failed to generate embeddings") (λ e. e.embed model inputs) ce

    unfoldable pub embed_single : Bytes → Bytes → W → Res V × W
    embed_single model text =
        try_each force_local (codes "failed to generate embedding") (λ e. e.embed_single model text)
          ce

    unfoldable pub model_info : Bytes → W → Res ModelInfo × W
    model_info model =
        try_each force_local (codes "failed to get model info") (λ e. e.model_info model) ce

-- `models` with those of `list` that it lacks; the map `seen` holds what `models` holds
pub add_models : List Bytes → List Bytes → List Bytes
add_models models [] = models
add_models models (m ∷ list) =
    add_models (if contains models m then models else models ++ (m ∷ [])) list

pub add_listed : List Bytes → Res (List Bytes) → List Bytes
add_listed models (ok list) = add_models models list
add_listed models (err e) = models

pub models_or_error : Bytes → List Bytes → Res (List Bytes)
models_or_error op [] = err (message op)
models_or_error op (m ∷ ms) = ok (m ∷ ms)

module _ {W V : Type 0} where
  pub collect_models : Bool → Bool → List (ProviderInstance W V) → List Bytes → W → List Bytes × W
  unfolding add_listed
  collect_models privacy force_local [] models w = (models, w)
  collect_models privacy force_local (p ∷ ps) models w = elim (skip privacy force_local p) [
    | true ↦ collect_models privacy force_local ps models w
    | false ↦
        collect_models privacy force_local ps (add_listed models (p.embedder.list_models w).0)
          (p.embedder.list_models w).1
  ]

  unfoldable pub list_models : Bool → ChainEmbedder W V → W → Res (List Bytes) × W
  unfolding collect_models add_models models_or_error
  list_models force_local ce w =
      let (models, w') = collect_models ce.privacy force_local ce.providers [] w in
      (models_or_error (codes "chain: no embedding model available") models, w')
