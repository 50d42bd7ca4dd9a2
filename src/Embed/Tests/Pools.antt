-- ===== src/Embed/Tests/Pools.antt =====
-- A pool whose first entry fails and whose second works.
use semidx.Prelude.{ℕ, refl, true, List, [], ◌∷◌, arith}
use semidx.Prelude.Bytes.{codes}
use semidx.Embed.Provider.{Embedder}
use semidx.Embed.Parallel.{ParallelEmbedder, pool_call}
use semidx.Embed.Parallel.Rounds.{Succeeds, pool_call-Succeeds}
use semidx.Embed.Tests.{failing, no_route, working}

abbrev entries : List (Embedder ℕ ℕ)
entries = failing no_route ∷ working ∷ failing no_route ∷ []

abbrev three : ParallelEmbedder ℕ ℕ
three = record { entries = entries; next = 2 }

pool_call-Succeeds_example :
    Succeeds
      (pool_call
        (λ (e : Embedder ℕ ℕ). e.embed_single (codes "m") (codes "text"))
        true
        true
        three
        0).0
pool_call-Succeeds_example =
    pool_call-Succeeds (λ (e : Embedder ℕ ℕ). e.embed_single (codes "m") (codes "text")) entries
      working 1 refl (λ w. (7, refl)) true 2 0 (omega arith)
