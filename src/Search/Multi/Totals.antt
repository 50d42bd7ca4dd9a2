-- ===== src/Search/Multi/Totals.antt =====
-- The counts of the response.
use semidx.Prelude.{
  ℕ, suc, ◌+◌, ◌≤◌, ◌≡◌, refl, sym, ap, ◌∙◌, false, Option, some, List, [], ◌∷◌, ◌++◌, length,
  arith, ◌==◌, ◌&&◌, length-append,
}
use semidx.Prelude.Bytes.{Bytes, bytes_eq}
use semidx.Prelude.Map
use semidx.Prelude.Map.{Map, or_zero, is_some, lookup-insert}
use semidx.Search.Diversity.{RankedResult, clamp_multi_top_k}
use semidx.Search.Fusion.{
  Scores, Response, no_flags, MultiResponse, Comparison, fuse_ranked_results,
}
use semidx.Search.Multi.{
  MultiScopeRequest, Request, Project, Gathered, respond, search_scopes, identity_scopes,
  project_scopes, search_multi,
}
use semidx.Search.Multi.Answers.{
  sum_counts, failures, answered_by, answers, length-answers, gathered_failures, gathered_routes,
  gathered,
}

-- the counts of a response are those of the answers of its searches
pub record IsCounted {S : Type 0} (answers : List (Option (Response S))) (r : MultiResponse S)
    : Type 0 where
  pub all_scopes : r.project_count ≡ length answers
  pub skipped : r.skipped_count ≡ failures answers
  pub by_route :
      (route : Bytes) → or_zero (Map.lookup route r.flags.routes) ≡ answered_by route answers
  pub counted : r.skipped_count + sum_counts r.flags.routes ≡ length answers

-- the scopes of a request: its identities and then its projects
abbrev pub named_scopes : MultiScopeRequest → List (Request × Bytes)
named_scopes req =
    let k = clamp_multi_top_k req.top_k in
    identity_scopes req k req.identities ++ project_scopes req k req.projects

module _ {S W : Type 0} (scores : Scores S) (search : Request → W → Option (Response S) × W) where
  module _
      (sort : (RankedResult S → RankedResult S → Comparison)
        → List (RankedResult S)
        → List (RankedResult S)) where
    search_scopes-IsCounted :
        (req : MultiScopeRequest) (scopes : List (Request × Bytes)) (w : W)
        → IsCounted
            (answers scores search scopes w)
            (search_scopes scores search sort req scopes w).0
    unfolding search_scopes respond fuse_ranked_results Map.lookup
    search_scopes-IsCounted req scopes w =
        let start : Gathered S = record { all_results = []; flags = no_flags; skipped = 0 } in
        let n = length-answers scores search scopes w in
        record {
          all_scopes = sym n;
          skipped = omega (arith, gathered_failures scores search scopes start w);
          by_route = λ route. omega (arith, gathered_routes scores search route scopes start w);
          counted = omega (arith, gathered scores search scopes start w, n);
        }

    length-identity_scopes :
        (req : MultiScopeRequest) (k : ℕ) (is : List Bytes)
        → length (identity_scopes req k is) ≡ length is
    length-identity_scopes req k [] = refl
    length-identity_scopes req k (i ∷ is) = ap suc (length-identity_scopes req k is)

    length-project_scopes :
        (req : MultiScopeRequest) (k : ℕ) (ps : List Bytes)
        → length (project_scopes req k ps) ≡ length ps
    length-project_scopes req k [] = refl
    length-project_scopes req k (p ∷ ps) = ap suc (length-project_scopes req k ps)

    -- `SearchMulti` over named projects answers, whichever of their searches fail. Of the answers to
    -- the scopes of the request, each in the world that the one before it left, the response counts
    -- the failed ones as skipped, and under every route the answers of that route: their own, or
    -- "fallback", "keyword" or "hybrid" by their marks. The counts of the routes and the skipped add
    -- up to the projects of the request.
    pub search_multi-IsCounted :
        (req : MultiScopeRequest) (listed : Option (List Project)) (w : W)
        → req.all ≡ false
        → 1 ≤ length req.identities + length req.projects
        → (r : MultiResponse S) × ((search_multi scores search sort req listed w).0 ≡ some r)
          × IsCounted (answers scores search (named_scopes req) w) r
          × (r.project_count ≡ length req.identities + length req.projects)
    unfolding search_multi
    search_multi-IsCounted req listed w named some_scope =
        let k = clamp_multi_top_k req.top_k in
        let scopes = named_scopes req in
        let counted = search_scopes-IsCounted req scopes w in
        let given : ((length req.identities == 0) && (length req.projects == 0)) ≡ false =
          ground arith in
        let n : length scopes ≡ length req.identities + length req.projects = omega (
          arith,
          length-append (identity_scopes req k req.identities) (project_scopes req k req.projects),
          length-identity_scopes req k req.identities,
          length-project_scopes req k req.projects,
        ) in
        (
          (search_scopes scores search sort req scopes w).0,
          rw (named, given) refl,
          counted,
          counted.all_scopes ∙ length-answers scores search scopes w ∙ n,
        )
