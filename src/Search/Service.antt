-- ===== src/Search/Service.antt =====
-- The search of one project (`Service.Search` of internal/search/service.go, and `hybridFuseRoute` of
-- hybrid.go). The store, the reranker, the expansion by the graph, the marks of stale results and the
-- recorder of usage are a parameter, which reads and changes the world `W`; the calls of the clock and
-- the spans of the tracing are left out. The two searches of a hybrid search run one after the other.
pub mod Answer
pub mod Flags
pub mod Drafts
pub mod Coherent
pub mod Quoted
pub mod Unseen
mod Tests
use semidx.Prelude.{
  ℕ, zero, Bool, true, false, not, ◌&&◌, ◌||◌, Option, none, some, List, [], ◌∷◌, ◌++◌, map, length,
  ltb, ◌==◌, if◌then◌else◌,
}
use semidx.Prelude.Eq.{contains}
use semidx.Prelude.Bytes.{Bytes, codes, bytes_beq, bytes_eq}
use semidx.Prelude.Int.{ℤ, pos, positive_or}
use semidx.Embed.Errors.{Err, Res, ok, err, wrapped, as_retryable, summarize_failure}
use semidx.Embed.Provider.{Embedder, ModelInfo}
use semidx.Embed.Dims.{infer_dims}
use semidx.Search.Diversity.{SearchResult}
use semidx.Search.Hybrid.{RrfScores, RrfScored, tag_result_source, rerank_rrf}
use semidx.Search.Fusion.{Comparison}
use semidx.Search.Routing.{
  QueryType, classify_query, routes_to_keyword, keyword_query_for_routing, clamp_graph_depth,
}

-- a project of the store, by the fields that a search reads
pub record StoredProject : Type 0 where
  pub id : ℕ
  pub name : Bytes
  pub path : Bytes
  pub model : Bytes
  pub source_type : Bytes
  pub dims : ℕ

pub record SearchRequest : Type 0 where
  pub project : Bytes
  pub identity : Bytes
  pub query : Bytes
  pub model : Bytes
  pub top_k : ℤ
  pub keyword_only : Bool
  pub vector_only : Bool
  pub worktree : Bytes
  pub graph : Bool
  pub graph_max_depth : ℤ

pub record SearchResponse (S : Type 0) : Type 0 where
  pub project : StoredProject
  pub model : Bytes
  pub results : List (SearchResult S)
  pub route : Bytes
  pub fallback : Bool
  pub keyword : Bool
  pub degraded : Bool
  pub retry_after : ℕ
  pub fallback_reason : Bytes

pub data Outcome : Type 0 where
  outcome_ok : Outcome
  outcome_empty : Outcome
  outcome_fallback : Outcome
  outcome_error : Outcome

-- what `recordUsage` is told, besides the request
pub record UsageEvent : Type 0 where
  pub project : Bytes
  pub outcome : Outcome
  pub hit_count : ℕ
  pub fallback_reason : Bytes

abbrev pub classify : ℕ → Bool → Bool → Outcome
classify hit_count fallback keyword_only =
    if hit_count == 0
    then outcome_empty
    else if fallback || keyword_only
    then outcome_fallback
    else outcome_ok

pub record Backend (W V S : Type 0) : Type 0 where
  pub get_project_by_identity : Bytes → W → Res StoredProject × W
  -- `projectref.Resolve` on the store
  pub resolve_reference : Bytes → W → Res StoredProject × W
  pub not_found : Err
  pub is_not_found : Err → Bool
  pub search_similar : ℕ → V → ℕ → ℕ → W → Res (List (SearchResult S)) × W
  pub search_similar_worktree : ℕ → V → ℕ → ℕ → Bytes → W → Res (List (SearchResult S)) × W
  pub search_similar_keywords : ℕ → Bytes → ℕ → ℕ → W → Res (List (SearchResult S)) × W
  pub search_similar_keywords_worktree :
      ℕ → Bytes → ℕ → ℕ → Bytes → W → Res (List (SearchResult S)) × W
  pub reranker : Option (Bytes → List (SearchResult S) → W → List (SearchResult S) × W)
  -- `expandByGraph` with a depth
  pub expand_by_graph : ℕ → List (SearchResult S) → ℕ → ℕ → W → Res (List (SearchResult S)) × W
  -- `slices.SortFunc` by descending score
  pub sort_by_score : List (SearchResult S) → List (SearchResult S)
  pub annotate_staleness :
      StoredProject → Bytes → List (SearchResult S) → W → List (SearchResult S) × W
  pub record_usage : SearchRequest → UsageEvent → W → W

-- the results of a call that succeeded, and the world
abbrev pub bind : {W A B : Type 0} → Res A × W → (A → W → Res B × W) → Res B × W
bind (ok a, w) k = k a w
bind (err e, w) k = (err e, w)

-- the results of files that are not among those seen, and of each only the first
abbrev pub unseen_files : {S : Type 0} → List Bytes → List (SearchResult S) → List (SearchResult S)
unseen_files dedup [] = []
unseen_files dedup (r ∷ rs) =
    if contains dedup r.file_path
    then unseen_files dedup rs
    else r ∷ unseen_files (r.file_path ∷ dedup) rs

abbrev pub worktree_filter : StoredProject → Bytes → Bytes
worktree_filter project worktree =
    if bytes_beq project.source_type (codes "git") then worktree else []

-- by the reranker, if there is one and something to reorder
abbrev pub rerank_with :
    {W S : Type 0}
    → Option (Bytes → List (SearchResult S) → W → List (SearchResult S) × W)
    → Bytes
    → SearchResponse S
    → W
    → SearchResponse S × W
rerank_with none query resp w = (resp, w)
rerank_with (some rerank) query resp w =
    if ltb 1 (length resp.results)
    then (let (results, u) = rerank query resp.results w in (record resp { results = results }, u))
    else (resp, w)

module _ {W V S : Type 0} (b : Backend W V S) where
  abbrev pub merge_graph_results :
      List (SearchResult S) → List (SearchResult S) → List (SearchResult S)
  merge_graph_results original expanded =
      b.sort_by_score (original ++ unseen_files (map (λ r. r.file_path) original) expanded)

  unfoldable pub resolve_project : SearchRequest → W → Res StoredProject × W
  resolve_project req w =
      if not (bytes_beq req.identity [])
      then b.get_project_by_identity req.identity w
      else if not (bytes_beq req.project [])
      then b.resolve_reference req.project w
      else (err b.not_found, w)

  unfoldable pub vector_search : ℕ → V → ℕ → ℕ → Bytes → W → Res (List (SearchResult S)) × W
  vector_search id vec dims top_k worktree w =
      if bytes_beq worktree []
      then b.search_similar id vec dims top_k w
      else b.search_similar_worktree id vec dims top_k worktree w

  unfoldable pub keyword_search : ℕ → Bytes → ℕ → ℕ → Bytes → W → Res (List (SearchResult S)) × W
  keyword_search id query dims top_k worktree w =
      if bytes_beq worktree []
      then b.search_similar_keywords id query dims top_k w
      else b.search_similar_keywords_worktree id query dims top_k worktree w

  -- `searchKeywordOnly` and `searchRoutedKeyword`
  unfoldable pub search_keyword_only :
      ℕ → Bytes → ℕ → ℕ → Bytes → SearchResponse S → W → Res (SearchResponse S) × W
  unfolding keyword_search
  search_keyword_only id query dims top_k worktree resp w =
      bind (keyword_search id query dims top_k worktree w) (λ results u. (
        ok (record resp { results = tag_result_source (codes "keyword") results; keyword = true }),
        u,
      ))

  -- the answer when the query could not be embedded
  unfoldable pub fall_back :
      ℕ → Bytes → ℕ → ℕ → Bytes → SearchResponse S → Err → W → Res (SearchResponse S) × W
  unfolding keyword_search
  fall_back id query dims top_k worktree resp e w =
      bind (keyword_search id query dims top_k worktree w) (λ results u. (
        ok (record resp {
          results = tag_result_source (codes "keyword") results;
          degraded = elim (as_retryable e) [ none ↦ resp.degraded | some after ↦ true ];
          retry_after = elim (as_retryable e) [ none ↦ resp.retry_after | some after ↦ after ];
          fallback = true;
          keyword = true;
          fallback_reason = summarize_failure (some e);
        }),
        u,
      ))

  -- `applyRerank`
  abbrev pub apply_rerank : Bytes → SearchResponse S → W → SearchResponse S × W
  apply_rerank query resp w = rerank_with b.reranker query resp w

  abbrev pub with_expanded :
      SearchResponse S → Res (List (SearchResult S)) × W → SearchResponse S × W
  with_expanded resp (ok [], w) = (resp, w)
  with_expanded resp (ok (r ∷ expanded), w) =
      (record resp { results = merge_graph_results resp.results (r ∷ expanded) }, w)
  with_expanded resp (err e, w) = (resp, w)

  -- `applyGraphExpansion`
  abbrev pub apply_graph_expansion :
      SearchRequest → SearchResponse S → ℕ → ℕ → W → SearchResponse S × W
  apply_graph_expansion req resp id dims w =
      if req.graph
      then with_expanded resp
          (b.expand_by_graph (clamp_graph_depth req.graph_max_depth) resp.results id dims w)
      else (resp, w)
