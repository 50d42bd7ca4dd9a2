-- ===== src/Embed/Parallel.antt =====
-- The pool of internal/embed/parallel.go. The state of a call is the index of the next entry and
-- the world; `fn` is the method that is called on an entry. The tracing span of `Embed` is left out.
pub mod Rounds
use semidx.Prelude.{
  ℕ, zero, suc, ◌+◌, ◌-◌, ◌%◌, Bool, true, false, not, ◌||◌, Option, none, some, List, [], ◌∷◌,
  ◌++◌, length, get_elem?, if◌then◌else◌,
}
use semidx.Prelude.Bytes.{Bytes, codes}
use semidx.Prelude.Decimal.{decimal}
use semidx.Embed.Errors.{Err, Res, ok, err, wrapped, message}
use semidx.Embed.Provider.{Embedder, ModelInfo}
use semidx.Embed.Chain.{add_listed, models_or_error}

pub record ParallelEmbedder (W V : Type 0) : Type 0 where
  pub entries : List (Embedder W V)
  pub next : ℕ

unfoldable pub new_parallel_embedder : {W V : Type 0} → List (Embedder W V) → ParallelEmbedder W V
new_parallel_embedder entries = record { entries = entries; next = 0 }

-- `nextEntry`; Go's `% 0` panics, so a pool has at least one entry
unfoldable pub next_entry : {W V : Type 0} → ParallelEmbedder W V → ℕ × ParallelEmbedder W V
next_entry p = (p.next, record p { next = (p.next + 1) % length p.entries })

-- `fmt.Errorf` with `%w` on the last error, or on nil if no entry was tried
pub all_failed : ℕ → Bytes → Option Err → Err
all_failed n what (some last) =
    wrapped
      (codes "parallel: all " ++ (decimal n ++ (codes " entries failed " ++ (what ++ codes ": "))))
      last
all_failed n what none = message (
    codes "parallel: all "
    ++ (decimal n ++ (codes " entries failed " ++ (what ++ codes ": %!w(<nil>)"))))

module _ {W V A : Type 0} (fn : Embedder W V → W → Res A × W) where
  -- `p.entries[idx]`; an index out of range would panic, which is `none`
  pub call_at : List (Embedder W V) → ℕ → W → Option (Res A × W)
  call_at entries idx w = elim (get_elem? entries idx) [ none ↦ none | some e ↦ some (fn e w) ]

  pub after_entry : (Option Err → W → Option (Res A × W)) → Option (Res A × W) → Option (Res A × W)
  after_entry next none = none
  after_entry next (some (ok a, w)) = some (ok a, w)
  after_entry next (some (err e, w)) = next (some e) w

  -- the loop over `i` from `len(p.entries) - left` on, with the last error
  pub fallback_loop : List (Embedder W V) → ℕ → ℕ → Option Err → W → Option (Res A × W)
  fallback_loop entries start zero last w =
      some (err (all_failed (length entries) (codes "with force-local") last), w)
  fallback_loop entries start (suc left) last w =
      after_entry (fallback_loop entries start left)
        (call_at entries ((start + (length entries - suc left)) % length entries) w)

  -- `EmbedSingle` goes on with the error of the first entry, `Embed` (`embedFallback`) with nil
  abbrev first_error : Bool → Err → Option Err
  first_error keeps e = if keeps then some e else none

  after_first : Bool → Bool → List (Embedder W V) → ℕ → Option (Res A × W) → Option (Res A × W)
  after_first force_local keeps entries start none = none
  after_first force_local keeps entries start (some (ok a, w)) = some (ok a, w)
  after_first force_local keeps entries start (some (err e, w)) =
      let fallback = fallback_loop entries start (length entries - 1) (first_error keeps e) w in
      if force_local then fallback else some (err e, w)

  unfoldable pub pool_call :
      Bool → Bool → ParallelEmbedder W V → W → Option (Res A × W) × ParallelEmbedder W V
  unfolding next_entry after_first fallback_loop after_entry call_at
  pool_call force_local keeps p w =
      let (start, p') = next_entry p in
      (after_first force_local keeps p.entries start (call_at p.entries start w), p')

after_info :
    {W : Type 0} → (Option Err → W → Res ModelInfo × W) → Res ModelInfo × W → Res ModelInfo × W
after_info next (ok info, w) = (ok info, w)
after_info next (err e, w) = next (some e) w

module _ {W V : Type 0} where
  unfoldable pub embed :
      Bool
      → Bytes
      → List Bytes
      → ParallelEmbedder W V
      → W
      → Option (Res (List V) × W) × ParallelEmbedder W V
  unfolding pool_call
  embed force_local model inputs = pool_call (λ e. e.embed model inputs) force_local false

  unfoldable pub embed_single :
      Bool → Bytes → Bytes → ParallelEmbedder W V → W → Option (Res V × W) × ParallelEmbedder W V
  unfolding pool_call
  embed_single force_local model text = pool_call (λ e. e.embed_single model text) force_local true

  info_loop : ℕ → Bytes → List (Embedder W V) → Option Err → W → Res ModelInfo × W
  info_loop n model [] last w = (err (all_failed n (codes "to get model info") last), w)
  info_loop n model (e ∷ es) last w = after_info (info_loop n model es) (e.model_info model w)

  unfoldable pub model_info : Bytes → ParallelEmbedder W V → W → Res ModelInfo × W
  unfolding info_loop after_info
  model_info model p w = info_loop (length p.entries) model p.entries none w

  collect_models : List (Embedder W V) → List Bytes → W → List Bytes × W
  collect_models [] models w = (models, w)
  collect_models (e ∷ es) models w =
      let (r, w') = e.list_models w in collect_models es (add_listed models r) w'

  unfoldable pub list_models : ParallelEmbedder W V → W → Res (List Bytes) × W
  unfolding collect_models
  list_models p w =
      let (models, w') = collect_models p.entries [] w in
      (models_or_error (codes "parallel: no embedding model available") models, w')
