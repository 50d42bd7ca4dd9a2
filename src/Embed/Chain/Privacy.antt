-- ===== src/Embed/Chain/Privacy.antt =====
-- The chain under a privacy restriction calls local providers only.
use mathlib.Core.Path.{fun_ext}
use semidx.Prelude.{
  ℕ, ◌≡◌, refl, sym, ◌∙◌, ap, Bool, true, false, ◌||◌, List, [], ◌∷◌, if◌then◌else◌, Bool-cases,
  inl, inr, arith,
}
use semidx.Prelude.Bytes.{Bytes, codes}
use semidx.Embed.Errors.{Failures, nil, Res}
use semidx.Embed.Provider.{Embedder, Context}
use semidx.Embed.Chain.{
  ProviderInstance, ChainEmbedder, skip, loop, after_call, call, try_each, embed, embed_single,
  model_info, list_models, collect_models, add_listed, models_or_error,
}

-- the providers marked local, in order
abbrev pub locals : {W V : Type 0} → List (ProviderInstance W V) → List (ProviderInstance W V)
locals [] = []
locals (p ∷ ps) = if p.local then p ∷ locals ps else locals ps

module _ {W V : Type 0} where
  locals_here :
      (p : ProviderInstance W V) (ps : List (ProviderInstance W V))
      → p.local ≡ true
      → locals (p ∷ ps) ≡ p ∷ locals ps
  locals_here p ps h = ground arith

  locals_remote :
      (p : ProviderInstance W V) (ps : List (ProviderInstance W V))
      → p.local ≡ false
      → locals (p ∷ ps) ≡ locals ps
  locals_remote p ps h = ground arith

module _ {W V A : Type 0} (ctx : Context W) (local_timeout : ℕ) (fn : Embedder W V → W → Res A × W)
    (privacy force_local : Bool) (op : Bytes) where
  pub loop-skip :
      (p : ProviderInstance W V) (ps : List (ProviderInstance W V)) (fs : Failures) (w : W)
      → skip privacy force_local p ≡ true
      → loop ctx local_timeout fn privacy force_local op (p ∷ ps) fs w
        ≡ loop ctx local_timeout fn privacy force_local op ps fs w
  unfolding loop
  loop-skip p ps fs w h = rw (h, loop)

  pub loop-call :
      (p : ProviderInstance W V) (ps : List (ProviderInstance W V)) (fs : Failures) (w : W)
      → skip privacy force_local p ≡ false
      → loop ctx local_timeout fn privacy force_local op (p ∷ ps) fs w
        ≡ after_call ctx local_timeout fn privacy force_local op p.name fs
            (loop ctx local_timeout fn privacy force_local op ps)
            (call ctx local_timeout fn privacy force_local op p w)
  unfolding loop
  loop-call p ps fs w h = rw (h, loop)

  loop-locals :
      (ps : List (ProviderInstance W V)) (fs : Failures) (w : W)
      → (privacy || force_local) ≡ true
      → loop ctx local_timeout fn privacy force_local op ps fs w
        ≡ loop ctx local_timeout fn privacy force_local op (locals ps) fs w
  loop-locals [] fs w on = refl
  loop-locals (p ∷ ps) fs w on = elim (Bool-cases p.local) [
    | inl here ↦
        let called : skip privacy force_local p ≡ false = ground arith in
        rw (locals_here p ps here) (
          loop-call p ps fs w called
          ∙ ap
              (λ next.
                after_call ctx local_timeout fn privacy force_local op p.name fs next
                  (call ctx local_timeout fn privacy force_local op p w))
              (fun_ext λ fs'. fun_ext λ w'. loop-locals ps fs' w' on)
          ∙ sym (loop-call p (locals ps) fs w called))
    | inr remote ↦
        rw (locals_remote p ps remote) (loop-skip p ps fs w (ground arith) ∙ loop-locals ps fs w on)
  ]

module _ {W V A : Type 0} (ctx : Context W) (local_timeout : ℕ) (op : Bytes)
    (fn : Embedder W V → W → Res A × W) where
  -- With privacy set, or a context that forces local, `tryEach` does the same on two chains with the
  -- same local providers.
  try_each_local :
      (force_local privacy : Bool) (ps qs : List (ProviderInstance W V)) (w : W)
      → (privacy || force_local) ≡ true
      → locals ps ≡ locals qs
      → try_each ctx local_timeout force_local op fn
          (record { providers = ps; privacy = privacy })
          w
        ≡ try_each ctx local_timeout force_local op fn
            (record { providers = qs; privacy = privacy })
            w
  unfolding try_each
  try_each_local force_local privacy ps qs w on same =
      loop-locals ctx local_timeout fn privacy force_local op ps nil w on
      ∙ ap (λ l. loop ctx local_timeout fn privacy force_local op l nil w) same
      ∙ sym (loop-locals ctx local_timeout fn privacy force_local op qs nil w on)

module _ {W V : Type 0} (privacy force_local : Bool) where
  collect_models-locals :
      (ps : List (ProviderInstance W V)) (models : List Bytes) (w : W)
      → (privacy || force_local) ≡ true
      → collect_models privacy force_local ps models w
        ≡ collect_models privacy force_local (locals ps) models w
  unfolding collect_models
  collect_models-locals [] models w on = refl
  collect_models-locals (p ∷ ps) models w on = elim (Bool-cases p.local) [
    | inl here ↦
        let called : skip privacy force_local p ≡ false = ground arith in
        let (r, u) = p.embedder.list_models w in
        rw (locals_here p ps here)
          (rw (called, collect_models) (collect_models-locals ps (add_listed models r) u on))
    | inr remote ↦
        let skipped : skip privacy force_local p ≡ true = ground arith in
        rw (locals_remote p ps remote)
          (rw (skipped, collect_models) (collect_models-locals ps models w on))
  ]

  list_models-locals :
      (ps qs : List (ProviderInstance W V)) (w : W)
      → (privacy || force_local) ≡ true
      → locals ps ≡ locals qs
      → list_models force_local (record { providers = ps; privacy = privacy }) w
        ≡ list_models force_local (record { providers = qs; privacy = privacy }) w
  unfolding list_models
  list_models-locals ps qs w on same =
      let collected =
        collect_models-locals ps [] w on
        ∙ ap (λ l. collect_models privacy force_local l [] w) same
        ∙ sym (collect_models-locals qs [] w on) in
      ap (λ r. (models_or_error (codes "chain: no embedding model available") r.0, r.1)) collected

-- the four operations of two chains are the same
abbrev pub Agree :
    {W V : Type 0} → Context W → ℕ → Bool → ChainEmbedder W V → ChainEmbedder W V → Type 0
Agree {W} ctx local_timeout force_local one other =
    ((model : Bytes) (inputs : List Bytes) (w : W)
      → embed ctx local_timeout force_local one model inputs w
        ≡ embed ctx local_timeout force_local other model inputs w)
    × ((model text : Bytes) (w : W)
        → embed_single ctx local_timeout force_local one model text w
          ≡ embed_single ctx local_timeout force_local other model text w)
    × ((model : Bytes) (w : W)
        → model_info ctx local_timeout force_local one model w
          ≡ model_info ctx local_timeout force_local other model w)
    × ((w : W) → list_models force_local one w ≡ list_models force_local other w)

-- With privacy set, or a context that forces local, two chains with the same local providers in the
-- same order have the same results and the same effects in each of `Embed`, `EmbedSingle`,
-- `ModelInfo` and `ListModels`, whatever the calls of their other providers would do.
pub operations_local :
    {W V : Type 0} (ctx : Context W) (local_timeout : ℕ) (force_local privacy : Bool)
    (ps qs : List (ProviderInstance W V))
    → (privacy || force_local) ≡ true
    → locals ps ≡ locals qs
    → Agree ctx local_timeout force_local
        (record { providers = ps; privacy = privacy })
        (record { providers = qs; privacy = privacy })
unfolding embed embed_single model_info
operations_local ctx local_timeout force_local privacy ps qs on same = (
  λ model inputs w.
      try_each_local ctx local_timeout _ (λ e. e.embed model inputs) force_local privacy ps qs w on
        same,
  λ model text w.
      try_each_local ctx local_timeout _ (λ e. e.embed_single model text) force_local privacy ps qs
        w on same,
  λ model w.
      try_each_local ctx local_timeout _ (λ e. e.model_info model) force_local privacy ps qs w on
        same,
  λ w. list_models-locals privacy force_local ps qs w on same,
)
