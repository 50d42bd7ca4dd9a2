-- ===== src/Search/Service/Drafts.antt =====
-- What the kinds of search leave in a response (internal/search/service.go).
use semidx.Prelude.{ℕ, ◌≡◌, refl, Bool, true, false, arith, List, if◌then◌else◌}
use semidx.Prelude.Bytes.{Bytes, codes}
use semidx.Prelude.Int.{positive_or}
use semidx.Embed.Errors.{Err, Res, ok, err}
use semidx.Embed.Provider.{Embedder}
use semidx.Search.Diversity.{SearchResult}
use semidx.Search.Hybrid.{tag_result_source}
use semidx.Search.Routing.{classify_query, routes_to_keyword, keyword_query_for_routing}
use semidx.Search.Service.{
  StoredProject, SearchRequest, SearchResponse, Backend, bind, keyword_search, vector_search,
  search_keyword_only, fall_back, worktree_filter,
}
use semidx.Search.Service.Answer.{
  Ranking, with_keywords, hybrid_fuse_route, fuse_embedded, search_semantic, vector_embedded,
  search_vector_only, retrieve, new_response,
}
use semidx.Search.Service.Flags.{
  by_keyword, by_vector, by_both, by_vector_alone, fell_back, asks_keyword, asks_vector, asks_both,
  Fits, IsDraft,
}

module _ {W V S : Type 0} (b : Backend W V S) (ranking : Ranking S) (emb : Embedder W V) where
  bind-IsDraft :
      {A : Type 0} (req : SearchRequest) (r : Res A) (w : W)
      (k : A → W → Res (SearchResponse S) × W)
      → ((a : A) (u : W) → IsDraft b ranking emb req (k a u).0)
      → IsDraft b ranking emb req (bind (r, w) k).0
  bind-IsDraft req (ok a) w k h = h a w
  bind-IsDraft req (err e) w k h = tt

  if-IsDraft :
      (req : SearchRequest) (c : Bool) (x y : Res (SearchResponse S) × W)
      → (c ≡ true → IsDraft b ranking emb req x.0)
      → (c ≡ false → IsDraft b ranking emb req y.0)
      → IsDraft b ranking emb req (if c then x else y).0
  if-IsDraft req true x y h k = h refl
  if-IsDraft req false x y h k = k refl

  module _ (req : SearchRequest) (project : StoredProject) (model : Bytes) where
    abbrev pub resp : SearchResponse S
    resp = new_response project model

    keyword_only-IsDraft :
        (id : ℕ) (query : Bytes) (dims top_k : ℕ) (worktree : Bytes) (w : W)
        → asks_keyword req ≡ true
        → IsDraft b ranking emb req (search_keyword_only b id query dims top_k worktree resp w).0
    unfolding search_keyword_only
    keyword_only-IsDraft id query dims top_k worktree w h =
        bind-IsDraft req (keyword_search b id query dims top_k worktree w).0
          (keyword_search b id query dims top_k worktree w).1 _ (λ results u. (by_keyword, h, refl))

    vector_embedded-IsDraft :
        (id dims top_k : ℕ) (worktree : Bytes) (r : Res V) (w : W)
        → asks_vector req ≡ true
        → IsDraft b ranking emb req
            (vector_embedded b ranking emb id dims top_k worktree resp (r, w)).0
    vector_embedded-IsDraft id dims top_k worktree (ok vec) w h =
        bind-IsDraft req (vector_search b id vec dims top_k worktree w).0
          (vector_search b id vec dims top_k worktree w).1 _ (λ results u. (by_vector, h, refl))
    vector_embedded-IsDraft id dims top_k worktree (err e) w h = tt

    fall_back-IsDraft :
        (id dims top_k : ℕ) (worktree : Bytes) (e : Err) (w : W)
        → Fits b ranking emb req (fell_back e)
        → IsDraft b ranking emb req (fall_back b id req.query dims top_k worktree resp e w).0
    unfolding fall_back
    fall_back-IsDraft id dims top_k worktree e w h =
        bind-IsDraft req (keyword_search b id req.query dims top_k worktree w).0
          (keyword_search b id req.query dims top_k worktree w).1 _
          (λ results u. (fell_back e, h, refl))

    with_keywords-IsDraft :
        (vector : List (SearchResult S)) (top_k : ℕ) (r : Res (List (SearchResult S))) (w : W)
        → asks_both req ≡ true
        → IsDraft b ranking emb req
            (bind
              (with_keywords b ranking emb vector top_k (r, w))
              (λ r u. (ok (record resp { results = r.0; route = r.1 }), u))).0
    with_keywords-IsDraft vector top_k (ok keyword) w h = (by_both, h, refl)
    with_keywords-IsDraft vector top_k (err e) w h = (by_vector_alone, h, refl)

    fuse_embedded-IsDraft :
        (id dims top_k : ℕ) (worktree : Bytes) (m : Bytes) (w0 : W) (r : Res V) (w : W)
        → (emb.embed_single m req.query w0).0 ≡ r
        → asks_both req ≡ true
        → IsDraft b ranking emb req
            (fuse_embedded b ranking emb id req.query dims top_k worktree resp (r, w)).0
    unfolding hybrid_fuse_route
    fuse_embedded-IsDraft id dims top_k worktree m w0 (ok vec) w e h =
        go (vector_search b id vec dims top_k worktree w).0
          (vector_search b id vec dims top_k worktree w).1
      where
        go :
            (r : Res (List (SearchResult S))) (u : W)
            → IsDraft b ranking emb req
                (bind
                  (bind
                    (r, u)
                    (λ results u.
                      with_keywords b ranking emb
                        (tag_result_source (codes "vector") results)
                        top_k
                        (keyword_search b id req.query dims top_k worktree u)))
                  (λ r u. (ok (record resp { results = r.0; route = r.1 }), u))).0
        go (ok results) u =
            with_keywords-IsDraft (tag_result_source (codes "vector") results) top_k
              (keyword_search b id req.query dims top_k worktree u).0
              (keyword_search b id req.query dims top_k worktree u).1 h
        go (err e) u = tt
    fuse_embedded-IsDraft id dims top_k worktree m w0 (err x) w e h =
        fall_back-IsDraft id dims top_k worktree x w (h, (m, w0, e))

    pub retrieve-IsDraft :
        (dims : ℕ) (w : W)
        → IsDraft b ranking emb req (retrieve b ranking emb req project model dims w).0
    unfolding retrieve search_vector_only search_semantic
    retrieve-IsDraft dims w =
        let top_k = positive_or 5 req.top_k in
        let worktree = worktree_filter project req.worktree in
        let qt = classify_query req.query in
        if-IsDraft req req.keyword_only _ _
          (λ only.
            keyword_only-IsDraft project.id req.query project.dims top_k worktree w (ground arith))
          (λ free.
            if-IsDraft req req.vector_only _ _
              (λ vectors.
                vector_embedded-IsDraft project.id dims top_k worktree
                  (emb.embed_single model req.query w).0 (emb.embed_single model req.query w).1
                  (ground arith))
              (λ either.
                if-IsDraft req (routes_to_keyword qt) _ _
                  (λ routed.
                    keyword_only-IsDraft project.id (keyword_query_for_routing req.query qt) dims
                      top_k worktree w (ground arith))
                  (λ semantic.
                    fuse_embedded-IsDraft project.id dims top_k worktree model w
                      (emb.embed_single model req.query w).0 (emb.embed_single model req.query w).1
                      refl (ground arith))))
