-- ===== src/Search/Service/Unseen.antt =====
-- The queries that no embedding provider gets to see (internal/search/service.go).
use semidx.Prelude.{ℕ, ◌≡◌, refl, Bool, false, not, ◌&&◌, ◌||◌, arith, [], if◌then◌else◌}
use semidx.Prelude.Bytes.{Bytes, bytes_beq}
use semidx.Embed.Errors.{Res, ok, err}
use semidx.Embed.Provider.{Embedder}
use semidx.Search.Routing.{classify_query, routes_to_keyword}
use semidx.Search.Service.{StoredProject, SearchRequest, Backend, resolve_project}
use semidx.Search.Service.Answer.{Ranking, retrieve, search_project, search, known_dims}
use semidx.Embed.Dims.{infer_dims}

-- whether a search has to embed the query
abbrev pub embeds_query : SearchRequest → Bool
embeds_query req =
    not req.keyword_only && (req.vector_only || not (routes_to_keyword (classify_query req.query)))

module _ {W V S : Type 0} (b : Backend W V S) (ranking : Ranking S) (one other : Embedder W V) where
  retrieve-same :
      (req : SearchRequest) (project : StoredProject) (model : Bytes) (dims : ℕ) (w : W)
      → embeds_query req ≡ false
      → retrieve b ranking one req project model dims w
        ≡ retrieve b ranking other req project model dims w
  unfolding retrieve
  retrieve-same req project model dims w h = ground arith

  module _
      (same : (model : Bytes) (w : W) → one.model_info model w ≡ other.model_info model w) where
    search_project-same :
        (req : SearchRequest) (r : Res StoredProject) (w : W)
        → embeds_query req ≡ false
        → search_project b ranking one req (r, w) ≡ search_project b ranking other req (r, w)
    search_project-same req (ok project) w h =
        let model = if bytes_beq req.model [] then project.model else req.model in
        let dims = known_dims (infer_dims model) (other.model_info model w) in
        let u = (other.model_info model w).1 in
        rw (same model w, retrieve-same req project model dims u h) refl
    search_project-same req (err e) w h = refl

    -- A search by keyword, one that is routed to the keyword search by its query, as a quoted text, a
    -- path and an identifier are, does the same whatever the provider's calls on texts do: with the
    -- same information on the models, the answer and the effects are the same.
    pub search_unseen :
        (req : SearchRequest) (w : W)
        → embeds_query req ≡ false
        → search b ranking one req w ≡ search b ranking other req w
    unfolding search
    search_unseen req w h =
        search_project-same req (resolve_project b req w).0 (resolve_project b req w).1 h
