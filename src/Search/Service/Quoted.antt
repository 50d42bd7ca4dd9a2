-- ===== src/Search/Service/Quoted.antt =====
-- What the search of internal/search/service.go does with a quoted query.
use semidx.Prelude.{ℕ, ◌≡◌, refl, false, ◌++◌, [], ◌∷◌}
use semidx.Prelude.Bytes.{Bytes}
use semidx.Prelude.Int.{positive_or}
use semidx.Embed.Provider.{Embedder}
use semidx.Search.Routing.{query_exact, classify_query}
use semidx.Search.Routing.Quotes.{keyword_query_for_routing-quoted}
use semidx.Search.Service.{
  StoredProject, SearchRequest, Backend, search_keyword_only, worktree_filter,
}
use semidx.Search.Service.Answer.{Ranking, new_response, retrieve}

module _ {W V S : Type 0} (b : Backend W V S) (ranking : Ranking S) (emb : Embedder W V) where
  -- For a request that asks for neither keywords only nor vectors only, a text between quotation
  -- marks is an exact query, whatever the text, and what the search retrieves is what the keyword
  -- search answers for the text itself, without the marks.
  pub retrieve-quoted :
      (s : Bytes) (req : SearchRequest) (project : StoredProject) (model : Bytes) (dims : ℕ) (w : W)
      → req.query ≡ b'"' ∷ (s ++ b'"' ∷ [])
      → req.keyword_only ≡ false
      → req.vector_only ≡ false
      → (classify_query req.query ≡ query_exact)
        × (retrieve b ranking emb req project model dims w
            ≡ search_keyword_only b project.id s dims
                (positive_or 5 req.top_k)
                (worktree_filter project req.worktree)
                (new_response project model)
                w)
  unfolding retrieve
  retrieve-quoted s req project model dims w quoted not_keyword not_vector =
      let (exact, inner) = keyword_query_for_routing-quoted s in
      rw quoted (exact, rw (not_keyword, not_vector) (rw exact (rw (rw exact at inner) refl)))
