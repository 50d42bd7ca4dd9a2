-- ===== src/Search/Service/Tests.antt =====
-- A store with one project, and a provider behind an open circuit. The world counts the texts that the
-- provider gets to see.
use semidx.Prelude.{ℕ, suc, ◌≡◌, refl, Bool, true, false, none, [], ◌∷◌}
use semidx.Prelude.Bytes.{Bytes, codes}
use semidx.Prelude.Int.{pos}
use semidx.Embed.Errors.{Res, ok, err, message, retryable, as_retryable}
use semidx.Embed.Provider.{Embedder}
use semidx.Search.Diversity.{SearchResult}
use semidx.Search.Service.{
  StoredProject, SearchRequest, SearchResponse, Backend, search_keyword_only,
}
use semidx.Search.Service.Answer.{Ranking, new_response, retrieve, search}
use semidx.Search.Service.Flags.{IsCoherent}
use semidx.Search.Service.Coherent.{search-IsCoherent}
use semidx.Search.Service.Quoted.{retrieve-quoted}
use semidx.Search.Service.Unseen.{search_unseen}
use semidx.Search.Routing.{query_exact, classify_query}

abbrev tool : StoredProject
tool = record {
  id = 1;
  name = codes "tool";
  path = codes "/src/tool";
  model = codes "bge-m3";
  source_type = codes "path";
  dims = 1024;
}

abbrev hit : SearchResult ℕ
hit = record {
  file_path = codes "a.go";
  score = 1;
  start_line = 1;
  end_line = 2;
  source = [];
  rest = [];
}

abbrev store : Backend ℕ ℕ ℕ
store = record {
  get_project_by_identity = λ i w. (ok tool, w);
  resolve_reference = λ r w. (ok tool, w);
  not_found = message (codes "not found");
  is_not_found = λ e. true;
  search_similar = λ id vec dims top_k w. (ok (hit ∷ []), w);
  search_similar_worktree = λ id vec dims top_k tree w. (ok [], w);
  search_similar_keywords = λ id query dims top_k w. (ok (hit ∷ []), w);
  search_similar_keywords_worktree = λ id query dims top_k tree w. (ok [], w);
  reranker = none;
  expand_by_graph = λ depth results id dims w. (ok [], w);
  sort_by_score = λ results. results;
  annotate_staleness = λ project root results w. (results, w);
  record_usage = λ req event w. w;
}

abbrev ranking : Ranking ℕ
ranking = record {
  rrf = record {
    scores = record { gt = λ a b. false; add = λ a b. a; inverse = λ n. n };
    bonus = 0;
    near = λ a b. true;
    is_positive = λ s. false;
    divide = λ a b. a;
  };
  sort = λ compare results. results;
}

abbrev open_circuit : Embedder ℕ ℕ
open_circuit = record {
  model_info = λ model w. (err (message (codes "unknown")), w);
  embed = λ model texts w. (err (message (codes "unknown")), suc w);
  embed_single = λ model text w. (err (retryable (message (codes "circuit open")) 30), suc w);
  list_models = λ w. (ok [], w);
}

abbrev working : Embedder ℕ ℕ
working = record {
  model_info = λ model w. (err (message (codes "unknown")), w);
  embed = λ model texts w. (ok [], suc w);
  embed_single = λ model text w. (ok 7, suc w);
  list_models = λ w. (ok [], w);
}

abbrev asking : Bytes → SearchRequest
asking query = record {
  project = codes "tool";
  identity = [];
  query = query;
  model = [];
  top_k = pos 0;
  keyword_only = false;
  vector_only = false;
  worktree = [];
  graph = true;
  graph_max_depth = pos 0;
}

search-IsCoherent_example :
    IsCoherent store ranking open_circuit
      (asking (codes "how is it done"))
      (search store ranking open_circuit (asking (codes "how is it done")) 0).0
search-IsCoherent_example =
    search-IsCoherent store ranking open_circuit (asking (codes "how is it done")) 0

search_unseen_example :
    search store ranking open_circuit (asking (codes "parseConfig")) 0
    ≡ search store ranking working (asking (codes "parseConfig")) 0
unfolding classify_query
search_unseen_example =
    search_unseen store ranking open_circuit working (λ model w. refl)
      (asking (codes "parseConfig")) 0 refl

retrieve-quoted_example :
    (classify_query (codes "\"open file\"") ≡ query_exact)
    × (retrieve store ranking open_circuit
          (asking (codes "\"open file\""))
          tool
          (codes "bge-m3")
          9
          0
        ≡ search_keyword_only store 1
            (codes "open file")
            9
            5
            []
            (new_response tool (codes "bge-m3"))
            0)
retrieve-quoted_example =
    retrieve-quoted store ranking open_circuit (codes "open file") (asking (codes "\"open file\""))
      tool (codes "bge-m3") 9 0 refl refl refl

abbrev flags_or : Res (SearchResponse ℕ) → Bytes → Bytes × Bool
flags_or (ok r) route = (r.route, r.degraded)
flags_or (err e) route = (route, false)

falls_back :
    (flags_or (search store ranking open_circuit (asking (codes "how is it done")) 0).0 []
      ≡ (codes "fallback", true))
    × ((search store ranking open_circuit (asking (codes "how is it done")) 0).1 ≡ 1)
    × ((search store ranking open_circuit (asking (codes "\"how is it\"")) 0).1 ≡ 0)
unfolding search as_retryable
falls_back = (refl, refl, refl)
