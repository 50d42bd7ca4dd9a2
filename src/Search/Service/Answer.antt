-- ===== src/Search/Service/Answer.antt =====
-- `Service.Search` of internal/search/service.go, put together from its steps.
use semidx.Prelude.{ℕ, false, List, [], ◌++◌, length, if◌then◌else◌}
use semidx.Prelude.Bytes.{Bytes, codes, bytes_beq}
use semidx.Prelude.Int.{pos, positive_or}
use semidx.Embed.Errors.{Err, Res, ok, err, wrapped}
use semidx.Embed.Provider.{Embedder, ModelInfo}
use semidx.Embed.Dims.{infer_dims}
use semidx.Search.Diversity.{SearchResult}
use semidx.Search.Hybrid.{RrfScores, RrfScored, tag_result_source, rerank_rrf}
use semidx.Search.Fusion.{Comparison}
use semidx.Search.Routing.{classify_query, routes_to_keyword, keyword_query_for_routing}
use semidx.Search.Service.{
  StoredProject, SearchRequest, SearchResponse, Backend, UsageEvent, Outcome, outcome_error,
  classify, bind, resolve_project, vector_search, search_keyword_only, keyword_search, fall_back,
  worktree_filter, apply_rerank, apply_graph_expansion,
}

-- what the fusion of a hybrid search takes: the scores and the sort
pub record Ranking (S : Type 0) : Type 0 where
  pub rrf : RrfScores S
  pub sort : (RrfScored S → RrfScored S → Comparison) → List (RrfScored S) → List (RrfScored S)

-- `&Response{Project: project, Model: model}`
abbrev pub new_response : {S : Type 0} → StoredProject → Bytes → SearchResponse S
new_response project model = record {
  project = project;
  model = model;
  results = [];
  route = [];
  fallback = false;
  keyword = false;
  degraded = false;
  retry_after = 0;
  fallback_reason = [];
}

abbrev pub known_dims : {W : Type 0} → ℕ → Res ModelInfo × W → ℕ
known_dims inferred (ok info, w) = info.dims
known_dims inferred (err e, w) = inferred

-- the route by the request alone
unfoldable pub requested_route : SearchRequest → Bytes
unfolding classify_query
requested_route req =
    if req.keyword_only
    then codes "keyword"
    else if req.vector_only
    then codes "vector"
    else if routes_to_keyword (classify_query req.query)
    then codes "keyword"
    else codes "hybrid"

abbrev pub final_route : {S : Type 0} → Bytes → SearchResponse S → Bytes
final_route route resp =
    if resp.fallback
    then codes "fallback"
    else if bytes_beq resp.route []
    then route
    else resp.route

abbrev pub event : Bytes → Outcome → ℕ → Bytes → UsageEvent
event project outcome hits reason = record {
  project = project;
  outcome = outcome;
  hit_count = hits;
  fallback_reason = reason;
}

-- `recordUsage` names the project that the caller gave if there is no other name
abbrev pub usage_name : SearchRequest → Bytes → Bytes
usage_name req name = if bytes_beq name [] then req.project else name

module _ {W V S : Type 0} (b : Backend W V S) where
  -- what `Search` does with the response: the reranker, the graph, the stale results, the route and
  -- the record of the usage
  unfoldable pub finish :
      SearchRequest → StoredProject → ℕ → SearchResponse S × W → Res (SearchResponse S) × W
  unfolding requested_route
  finish req project dims (resp, w) =
      let (reranked, w1) = apply_rerank b req.query resp w in
      let (expanded, w2) = apply_graph_expansion b req reranked project.id dims w1 in
      let root = if bytes_beq req.worktree [] then project.path else req.worktree in
      let (marked, w3) = b.annotate_staleness project root expanded.results w2 in
      let out : SearchResponse S = record expanded {
        results = marked;
        route = final_route (requested_route req) expanded;
      } in
      (
        ok out,
        b.record_usage req
            (event (usage_name req project.name) (classify (length marked) out.fallback out.keyword)
              (length marked) out.fallback_reason)
            w3,
      )

  abbrev pub or_failed :
      SearchRequest → StoredProject → ℕ → Res (SearchResponse S) × W → Res (SearchResponse S) × W
  or_failed req project dims (ok resp, w) = finish req project dims (resp, w)
  or_failed req project dims (err e, w) =
      (err e, b.record_usage req (event (usage_name req project.name) outcome_error 0 []) w)

  abbrev pub lookup_failed : SearchRequest → Err → Err
  lookup_failed req e =
      if b.is_not_found e
      then e
      else wrapped
          (codes "project lookup failed for "
            ++ ((if bytes_beq req.identity [] then req.project else req.identity) ++ codes ": "))
          e

module _ {W V S : Type 0} (b : Backend W V S) (ranking : Ranking S) (emb : Embedder W V) where
  abbrev pub with_keywords :
      List (SearchResult S)
      → ℕ
      → Res (List (SearchResult S)) × W
      → Res (List (SearchResult S) × Bytes) × W
  with_keywords vector top_k (ok keyword, w) = (
    ok (
      rerank_rrf ranking.rrf ranking.sort vector (tag_result_source (codes "keyword") keyword)
          (pos top_k),
      codes "hybrid",
    ),
    w,
  )
  with_keywords vector top_k (err e, w) = (ok (vector, codes "vector"), w)

  -- the results and the route
  unfoldable pub hybrid_fuse_route :
      ℕ → Bytes → V → ℕ → ℕ → Bytes → W → Res (List (SearchResult S) × Bytes) × W
  unfolding vector_search keyword_search
  hybrid_fuse_route id query vec dims top_k worktree w =
      bind (vector_search b id vec dims top_k worktree w) (λ results u.
        with_keywords (tag_result_source (codes "vector") results) top_k
          (keyword_search b id query dims top_k worktree u))

  abbrev pub fuse_embedded :
      ℕ → Bytes → ℕ → ℕ → Bytes → SearchResponse S → Res V × W → Res (SearchResponse S) × W
  fuse_embedded id query dims top_k worktree resp (ok vec, w) =
      bind (hybrid_fuse_route id query vec dims top_k worktree w)
        (λ r u. (ok (record resp { results = r.0; route = r.1 }), u))
  fuse_embedded id query dims top_k worktree resp (err e, w) =
      fall_back b id query dims top_k worktree resp e w

  unfoldable pub search_semantic :
      ℕ → Bytes → Bytes → ℕ → ℕ → Bytes → SearchResponse S → W → Res (SearchResponse S) × W
  unfolding hybrid_fuse_route fall_back
  search_semantic id query model dims top_k worktree resp w =
      fuse_embedded id query dims top_k worktree resp (emb.embed_single model query w)

  abbrev pub vector_embedded :
      ℕ → ℕ → ℕ → Bytes → SearchResponse S → Res V × W → Res (SearchResponse S) × W
  vector_embedded id dims top_k worktree resp (ok vec, w) =
      bind (vector_search b id vec dims top_k worktree w)
        (λ results u. (ok (record resp { results = results }), u))
  vector_embedded id dims top_k worktree resp (err e, w) =
      (err (wrapped (codes "vector-only embedding: ") e), w)

  unfoldable pub search_vector_only :
      ℕ → Bytes → Bytes → ℕ → ℕ → Bytes → SearchResponse S → W → Res (SearchResponse S) × W
  unfolding vector_search
  search_vector_only id query model dims top_k worktree resp w =
      vector_embedded id dims top_k worktree resp (emb.embed_single model query w)

  -- the switch over the kinds of search
  unfoldable pub retrieve :
      SearchRequest → StoredProject → Bytes → ℕ → W → Res (SearchResponse S) × W
  unfolding search_keyword_only search_vector_only search_semantic classify_query
      keyword_query_for_routing
  retrieve req project model dims w =
      let top_k = positive_or 5 req.top_k in
      let worktree = worktree_filter project req.worktree in
      let qt = classify_query req.query in
      let resp = new_response project model in
      if req.keyword_only
      then search_keyword_only b project.id req.query project.dims top_k worktree resp w
      else if req.vector_only
      then search_vector_only project.id req.query model dims top_k worktree resp w
      else if routes_to_keyword qt
      then search_keyword_only b project.id (keyword_query_for_routing req.query qt) dims top_k
          worktree resp w
      else search_semantic project.id req.query model dims top_k worktree resp w

  abbrev pub search_project : SearchRequest → Res StoredProject × W → Res (SearchResponse S) × W
  search_project req (ok project, w) =
      let model = if bytes_beq req.model [] then project.model else req.model in
      let info = emb.model_info model w in
      let dims = known_dims (infer_dims model) info in
      or_failed b req project dims (retrieve req project model dims info.1)
  search_project req (err e, w) =
      (err (lookup_failed b req e), b.record_usage req (event req.project outcome_error 0 []) w)

  unfoldable pub search : SearchRequest → W → Res (SearchResponse S) × W
  unfolding resolve_project retrieve finish infer_dims
  search req w = search_project req (resolve_project b req w)
