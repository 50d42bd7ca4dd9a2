-- ===== src/Embed/Guard/Lookups.antt =====
-- Lookups of unknown models and the breaker.
use semidx.Prelude.{
  ℕ, ◌<◌, ◌≡◌, refl, Bool, true, false, List, [], ◌∷◌, arith, Option-cases, inl, inr,
}
use semidx.Prelude.Bytes.{Bytes}
use semidx.Embed.Errors.{Err, Res, ok, err, as_unknown_model}
use semidx.Embed.Provider.{Context, Embedder, ModelInfo}
use semidx.Embed.Circuit.{Breaker, allow}
use semidx.Embed.Guard.{guard, admit, settle, model_info, not_unknown_model}

-- a lookup of each of the models, one after another
abbrev pub lookups :
    {W V : Type 0} (ctx : Context W) (name : Bytes) (inner : Embedder W V)
    → List Bytes
    → Breaker × W
    → Breaker × W
lookups ctx name inner [] s = s
lookups ctx name inner (model ∷ models) s =
    lookups ctx name inner models (model_info ctx name inner model s).1

module _ {W V : Type 0} (ctx : Context W) (name : Bytes) (inner : Embedder W V)
    (unknown : (model : Bytes) (w : W)
      → (e : Err) × ((inner.model_info model w).0 ≡ err e) × (as_unknown_model e ≡ true)) where
  lookup_keeps :
      (model : Bytes) (cb : Breaker) (w : W)
      → cb.failures < cb.threshold
      → (model_info ctx name inner model (cb, w)).1.0 ≡ cb
  unfolding model_info guard
  lookup_keeps model cb w closed = go (allow (ctx.now w) cb) allow_closed
    where
      allow_closed : (allow (ctx.now w) cb).1 ≡ cb
      allow_closed = unfold allow in ground arith

      settled :
          (r : Res ModelInfo × W)
          → ((e : Err) × (r.0 ≡ err e) × (as_unknown_model e ≡ true))
          → (settle ctx not_unknown_model cb r).1.0 ≡ cb
      settled (ok info, w') (e, p, u) = cc
      settled (err x, w') (e, p, u) = elim (Option-cases (ctx.err w')) [
        | inl live ↦ rw (live, settle) (ground arith)
        | inr (done, d) ↦ rw (d, settle)
      ]

      go :
          (a : (Bool × ℕ) × Breaker)
          → a.1 ≡ cb
          → (admit ctx not_unknown_model name (inner.model_info model) a w).1.0 ≡ cb
      go ((true, remaining), cb') same = unfold admit in rw same (settled _ (unknown model w))
      go ((false, remaining), cb') same = unfold admit in same

  -- A closed circuit is left as it is by any number of lookups that fail for unknown models: they
  -- never count as failures of the provider.
  pub unknown_lookups_keep_closed :
      (models : List Bytes) (cb : Breaker) (w : W)
      → cb.failures < cb.threshold
      → (lookups ctx name inner models (cb, w)).0 ≡ cb
  unknown_lookups_keep_closed [] cb w closed = refl
  unknown_lookups_keep_closed (model ∷ models) cb w closed =
      let kept = lookup_keeps model cb w closed in
      go (model_info ctx name inner model (cb, w)).1 kept (unknown_lookups_keep_closed models cb)
    where
      go :
          (s : Breaker × W)
          → s.0 ≡ cb
          → ((w' : W)
              → cb.failures < cb.threshold
              → (lookups ctx name inner models (cb, w')).0 ≡ cb)
          → (lookups ctx name inner models s).0 ≡ cb
      go (cb', w') same ih = rw same (ih w' closed)
