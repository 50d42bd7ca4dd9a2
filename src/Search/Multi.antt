-- ===== src/Search/Multi.antt =====
-- `SearchMulti` and `SearchAllProjects` of internal/search/multiscope.go. The search of one project
-- is `search`, which reads and changes the world `W`; an error of it is `none`, as is the error that
-- these methods return. The log of a failed search is left out.
pub mod Answers
pub mod Totals
pub mod Identities
mod Tests
use semidx.Prelude.{
  ℕ, zero, suc, ◌+◌, ◌*◌, min, Bool, true, false, not, ◌&&◌, Option, none, some, List, [], ◌∷◌,
  ◌++◌, map, length, ◌==◌, if◌then◌else◌,
}
use semidx.Prelude.Bytes.{Bytes, bytes_beq, bytes_eq}
use semidx.Prelude.Eq.{contains}
use semidx.Prelude.Int.{ℤ, pos}
use semidx.Search.Diversity.{SearchResult, RankedResult, max_top_k, clamp_multi_top_k, tagged}
use semidx.Search.Fusion.{
  Scores, Response, AggFlags, no_flags, absorb, MultiResponse, Comparison, reciprocal_rank_constant,
  fuse_ranked_results,
}

pub record MultiScopeRequest : Type 0 where
  pub identities : List Bytes
  pub projects : List Bytes
  pub all : Bool
  pub query : Bytes
  pub top_k : ℤ
  pub graph : Bool
  pub graph_max_depth : ℤ
  pub keyword_only : Bool
  pub max_per_file : ℤ
  pub max_per_project : ℤ

-- the fields of a request that the searches over several projects set
pub record Request : Type 0 where
  pub project : Bytes
  pub identity : Bytes
  pub query : Bytes
  pub top_k : ℕ
  pub keyword_only : Bool
  pub graph : Bool
  pub graph_max_depth : ℤ

-- a project of the store, by the fields that are read
pub record Project : Type 0 where
  pub name : Bytes
  pub identity : Bytes
  pub path : Bytes

-- the loop of `projectref.UniqueByIdentity`, with the identities that were seen
pub unique_from : List Bytes → List Project → List Project
unique_from seen [] = []
unique_from seen (p ∷ ps) =
    let unnamed = bytes_beq p.identity [] in
    let again = not unnamed && contains seen p.identity in
    let rest = unique_from (if unnamed then seen else p.identity ∷ seen) ps in
    if again then rest else p ∷ rest

unfoldable pub unique_by_identity : List Project → List Project
unfolding unique_from
unique_by_identity projects = unique_from [] projects

-- what the loop over the projects changes
pub record Gathered (S : Type 0) : Type 0 where
  pub all_results : List (RankedResult S)
  pub flags : AggFlags
  pub skipped : ℕ

abbrev pub request_for : MultiScopeRequest → ℕ → Bytes → Bytes → Request
request_for req k identity project = record {
  project = project;
  identity = identity;
  query = req.query;
  top_k = min (k * 2) max_top_k;
  keyword_only = req.keyword_only;
  graph = req.graph;
  graph_max_depth = req.graph_max_depth;
}

-- the scopes of `SearchMulti`: requests with their labels
abbrev pub identity_scopes : MultiScopeRequest → ℕ → List Bytes → List (Request × Bytes)
identity_scopes req k [] = []
identity_scopes req k (i ∷ is) = (request_for req k i [], i) ∷ identity_scopes req k is

abbrev pub project_scopes : MultiScopeRequest → ℕ → List Bytes → List (Request × Bytes)
project_scopes req k [] = []
project_scopes req k (p ∷ ps) = (request_for req k [] p, p) ∷ project_scopes req k ps

-- the scopes of `SearchAllProjects`
abbrev pub store_scopes : MultiScopeRequest → ℕ → List Project → List (Request × Bytes)
store_scopes req k [] = []
store_scopes req k (p ∷ ps) =
    let named = bytes_beq p.identity [] in
    (
      request_for req k p.identity (if named then p.name else []),
      if named then p.name else p.identity,
    )
    ∷ store_scopes req k ps

module _ {S W : Type 0} (scores : Scores S) (search : Request → W → Option (Response S) × W) where
  -- the results of one project from the index `i` on, tagged with its label
  pub tag_results : Bytes → ℕ → List (SearchResult S) → List (RankedResult S)
  tag_results label i [] = []
  tag_results label i (r ∷ rs) =
      record {
        result = record r { file_path = tagged label r.file_path };
        project = label;
        source_rank = i + 1;
        fusion = scores.inverse (reciprocal_rank_constant + i + 1);
      }
      ∷ tag_results label (suc i) rs

  pub gather_one : Bytes → Gathered S → Option (Response S) → Gathered S
  unfolding tag_results
  gather_one label g none = record g { skipped = suc g.skipped }
  gather_one label g (some r) = record g {
    all_results = g.all_results ++ tag_results label 0 r.results;
    flags = absorb g.flags r;
  }

  pub gather : List (Request × Bytes) → Gathered S → W → Gathered S × W
  unfolding gather_one
  gather [] g w = (g, w)
  gather ((request, label) ∷ scopes) g w =
      let (answer, after) = search request w in gather scopes (gather_one label g answer) after

  module _
      (sort : (RankedResult S → RankedResult S → Comparison)
        → List (RankedResult S)
        → List (RankedResult S)) where
    -- the fusion of what was gathered, with the counts of the projects
    pub respond : MultiScopeRequest → ℕ → ℕ → Gathered S → MultiResponse S
    respond req k project_count g =
        record (fuse_ranked_results scores sort g.all_results req.max_per_file req.max_per_project
          (pos k) g.flags) { project_count = project_count; skipped_count = g.skipped }

    pub search_scopes : MultiScopeRequest → List (Request × Bytes) → W → MultiResponse S × W
    unfolding respond gather
    search_scopes req scopes w =
        let (g, after) =
          gather scopes (record { all_results = []; flags = no_flags; skipped = 0 }) w in
        (respond req (clamp_multi_top_k req.top_k) (length scopes) g, after)

    pub empty_response : MultiResponse S
    empty_response = record {
      results = [];
      project_count = 0;
      skipped_count = 0;
      route = [];
      flags = no_flags;
    }

    pub search_listed : MultiScopeRequest → List Project → W → MultiResponse S × W
    unfolding search_scopes empty_response
    search_listed req [] w = (empty_response, w)
    search_listed req (p ∷ ps) w =
        search_scopes req (store_scopes req (clamp_multi_top_k req.top_k) (p ∷ ps)) w

    -- over the projects that the store lists, or `none` if it fails
    unfoldable pub search_all_projects :
        MultiScopeRequest → Option (List Project) → W → Option (MultiResponse S) × W
    unfolding search_listed
    search_all_projects req none w = (none, w)
    search_all_projects req (some projects) w =
        let (r, after) = search_listed req (unique_by_identity projects) w in (some r, after)

    unfoldable pub search_multi :
        MultiScopeRequest → Option (List Project) → W → Option (MultiResponse S) × W
    unfolding search_scopes
    search_multi req listed w =
        let k = clamp_multi_top_k req.top_k in
        let (r, after) =
          search_scopes req
            (identity_scopes req k req.identities ++ project_scopes req k req.projects) w in
        if req.all
        then search_all_projects req listed w
        else if (length req.identities == 0) && (length req.projects == 0)
        then (none, w)
        else (some r, after)
