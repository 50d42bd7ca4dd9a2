-- ===== src/Search/Service/Coherent.antt =====
-- The flags and the route of a response (internal/search/service.go).
use semidx.Prelude.{
  ℕ, ◌≡◌, refl, ap, ◌∙◌, Bool, true, false, Option, none, some, arith, List, [], ◌∷◌, length, ltb,
  if◌then◌else◌,
}
use semidx.Prelude.Bytes.{Bytes, codes, bytes_beq}
use semidx.Embed.Errors.{Res, ok, err}
use semidx.Embed.Dims.{infer_dims}
use semidx.Embed.Provider.{Embedder}
use semidx.Search.Diversity.{SearchResult}
use semidx.Search.Routing.{clamp_graph_depth}
use semidx.Search.Service.{
  StoredProject, SearchRequest, SearchResponse, Backend, resolve_project, apply_rerank, rerank_with,
  apply_graph_expansion, with_expanded,
}
use semidx.Search.Service.Answer.{
  Ranking, retrieve, requested_route, finish, or_failed, search_project, search, known_dims,
}
use semidx.Search.Service.Drafts.{retrieve-IsDraft}
use semidx.Search.Service.Flags.{
  Flags, flags_of, Kind, by_keyword, by_vector, by_both, by_vector_alone, fell_back, flags_for,
  draft_for, Fits, IsDraft, IsCoherent,
}

module _ {W V S : Type 0} (b : Backend W V S) where
  -- the steps behind the search change the results only
  flags-if :
      (c : Bool) (x y : SearchResponse S × W) (f : Flags)
      → flags_of x.0 ≡ f
      → flags_of y.0 ≡ f
      → flags_of (if c then x else y).0 ≡ f
  flags-if true x y f h k = h
  flags-if false x y f h k = k

  flags-rerank_with :
      (o : Option (Bytes → List (SearchResult S) → W → List (SearchResult S) × W)) (query : Bytes)
      (resp : SearchResponse S) (w : W)
      → flags_of (rerank_with o query resp w).0 ≡ flags_of resp
  flags-rerank_with none query resp w = refl
  flags-rerank_with (some rerank) query resp w =
      flags-if (ltb 1 (length resp.results)) _ (resp, w) (flags_of resp) refl refl

  flags-with_expanded :
      (resp : SearchResponse S) (r : Res (List (SearchResult S))) (w : W)
      → flags_of (with_expanded b resp (r, w)).0 ≡ flags_of resp
  flags-with_expanded resp (ok []) w = refl
  flags-with_expanded resp (ok (r ∷ expanded)) w = refl
  flags-with_expanded resp (err e) w = refl

  flags-apply_graph_expansion :
      (req : SearchRequest) (resp : SearchResponse S) (id dims : ℕ) (w : W)
      → flags_of (apply_graph_expansion b req resp id dims w).0 ≡ flags_of resp
  flags-apply_graph_expansion req resp id dims w =
      let depth = clamp_graph_depth req.graph_max_depth in
      let x = b.expand_by_graph depth resp.results id dims w in
      flags-if req.graph (with_expanded b resp x) (resp, w) (flags_of resp)
        (flags-with_expanded resp x.0 x.1) refl

-- the flags with the route that is filled in
abbrev routed : Bytes → Flags → Flags
routed route f = record f {
  route = if f.fallback then codes "fallback" else if bytes_beq f.route [] then route else f.route;
}

module _ {W V S : Type 0} (b : Backend W V S) (ranking : Ranking S) (emb : Embedder W V) where
  routed-draft :
      (req : SearchRequest) (k : Kind)
      → Fits b ranking emb req k
      → routed (requested_route req) (draft_for k) ≡ flags_for k
  unfolding requested_route
  routed-draft req by_keyword h =
      let e : requested_route req ≡ codes "keyword" = ground arith in rw e refl
  routed-draft req by_vector h =
      let e : requested_route req ≡ codes "vector" = ground arith in rw e refl
  routed-draft req by_both h = refl
  routed-draft req by_vector_alone h = refl
  routed-draft req (fell_back e) h = refl

  finish-IsCoherent :
      (req : SearchRequest) (project : StoredProject) (dims : ℕ) (resp : SearchResponse S) (w : W)
      → IsDraft b ranking emb req (ok resp)
      → IsCoherent b ranking emb req (finish b req project dims (resp, w)).0
  unfolding finish
  finish-IsCoherent req project dims resp w (k, fits, flags) =
      let (reranked, w1) = apply_rerank b req.query resp w in
      let e =
        flags-apply_graph_expansion b req reranked project.id dims w1
        ∙ (flags-rerank_with b b.reranker req.query resp w ∙ flags) in
      (k, fits, ap (routed (requested_route req)) e ∙ routed-draft req k fits)

  or_failed-IsCoherent :
      (req : SearchRequest) (project : StoredProject) (dims : ℕ) (r : Res (SearchResponse S))
      (w : W)
      → IsDraft b ranking emb req r
      → IsCoherent b ranking emb req (or_failed b req project dims (r, w)).0
  or_failed-IsCoherent req project dims (ok resp) w d = finish-IsCoherent req project dims resp w d
  or_failed-IsCoherent req project dims (err e) w d = tt

  search_project-IsCoherent :
      (req : SearchRequest) (r : Res StoredProject) (w : W)
      → IsCoherent b ranking emb req (search_project b ranking emb req (r, w)).0
  search_project-IsCoherent req (ok project) w =
      let model = if bytes_beq req.model [] then project.model else req.model in
      let info = emb.model_info model w in
      let dims = known_dims (infer_dims model) info in
      let found = retrieve b ranking emb req project model dims info.1 in
      or_failed-IsCoherent req project dims found.0 found.1
        (retrieve-IsDraft b ranking emb req project model dims info.1)
  search_project-IsCoherent req (err e) w = tt

  -- Every response of `Search` is of one of five kinds, which fix its route and its flags: from the
  -- keywords or the vectors, if the request or its query asks for them; and otherwise from both,
  -- from the vectors alone, or a fallback to the keywords. A fallback has an error of the provider
  -- for this query as its reason, and is degraded, with the wait as the hint, exactly if that error
  -- comes from an open circuit.
  pub search-IsCoherent :
      (req : SearchRequest) (w : W) → IsCoherent b ranking emb req (search b ranking emb req w).0
  unfolding search
  search-IsCoherent req w =
      search_project-IsCoherent req (resolve_project b req w).0 (resolve_project b req w).1
