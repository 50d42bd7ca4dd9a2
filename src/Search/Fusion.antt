-- ===== src/Search/Fusion.antt =====
-- The search over several projects and the fusion of its results (internal/search/multiscope.go).
-- The scores are a parameter, since they are floating-point numbers; so is Go's sort, and the search
-- of one project, which changes the world `W` and may fail.
pub mod Candidates
pub mod Places
pub mod Fused
mod Tests
use semidx.Prelude.{
  ℕ, suc, ◌+◌, ◌*◌, min, max, Bool, true, false, ◌||◌, ◌&&◌, Option, none, some, List, [], ◌∷◌,
  ◌++◌, map, length, take, leb, ltb, ◌==◌, if◌then◌else◌,
}
use semidx.Prelude.Bytes.{Bytes, codes, bytes_beq, bytes_eq, bytes_lt}
use semidx.Prelude.Decimal.{decimal}
use semidx.Prelude.Int.{ℤ, pos, positive_or}
use semidx.Prelude.Map
use semidx.Prelude.Map.{Map}
use semidx.Search.Diversity.{
  SearchResult, RankedResult, max_top_k, clamp_multi_top_k, split_provenance, tagged, bump,
  apply_ranked_diversity,
}

-- `float64`: `>`, `+` and `1 / float64(n)`
pub record Scores (S : Type 0) : Type 0 where
  pub gt : S → S → Bool
  pub add : S → S → S
  pub inverse : ℕ → S

-- the fields of a response that the searches over several projects read
pub record Response (S : Type 0) : Type 0 where
  pub results : List (SearchResult S)
  pub fallback : Bool
  pub keyword : Bool
  pub degraded : Bool
  pub retry_after : ℕ
  pub route : Bytes

pub record AggFlags : Type 0 where
  pub fallback : Bool
  pub keyword : Bool
  pub degraded : Bool
  pub retry_after : ℕ
  pub routes : Map Bytes ℕ

abbrev pub no_flags : AggFlags
no_flags = record {
  fallback = false;
  keyword = false;
  degraded = false;
  retry_after = 0;
  routes = [];
}

-- the route of a response, or the one that its flags say
abbrev pub response_route : {S : Type 0} → Response S → Bytes
response_route r =
    if bytes_beq r.route []
    then (if r.fallback
        then codes "fallback"
        else if r.keyword
        then codes "keyword"
        else codes "hybrid")
    else r.route

unfoldable pub absorb : {S : Type 0} → AggFlags → Response S → AggFlags
absorb f r = record {
  fallback = f.fallback || r.fallback;
  keyword = f.keyword || r.keyword;
  degraded = f.degraded || r.degraded;
  retry_after =
      if r.degraded && ltb f.retry_after r.retry_after then r.retry_after else f.retry_after;
  routes = bump (response_route r) f.routes;
}

pub record MultiResult (S : Type 0) : Type 0 where
  pub result : SearchResult S
  pub project : Bytes
  pub source_rank : ℕ
  pub fusion_score : S

pub record MultiResponse (S : Type 0) : Type 0 where
  pub results : List (MultiResult S)
  pub project_count : ℕ
  pub skipped_count : ℕ
  pub route : Bytes
  pub flags : AggFlags

abbrev pub reciprocal_rank_constant : ℕ
reciprocal_rank_constant = 60

abbrev pub total_route : Map Bytes ℕ → Bytes
total_route [] = []
total_route ((route, n) ∷ []) = route
total_route ((route, n) ∷ (r ∷ routes)) = codes "mixed"

-- what `slices.SortFunc` reads of a comparison
pub data Comparison : Type 0 where
  less : Comparison
  equal : Comparison
  greater : Comparison

module _ {S : Type 0} where
  unfoldable pub candidate_key : RankedResult S → Bytes
  candidate_key c =
      tagged c.project (
        tagged c.result.file_path
          (tagged (decimal c.result.start_line) (decimal c.result.end_line)))

  unfoldable pub compare_candidates : RankedResult S → RankedResult S → Comparison
  compare_candidates a b =
      if bytes_lt a.project b.project
      then less
      else if bytes_lt b.project a.project
      then greater
      else if bytes_lt a.result.file_path b.result.file_path
      then less
      else if bytes_lt b.result.file_path a.result.file_path
      then greater
      else if ltb a.result.start_line b.result.start_line
      then less
      else if ltb b.result.start_line a.result.start_line
      then greater
      else equal

module _ {S : Type 0} (scores : Scores S) where
  unfoldable pub compare_ranked : RankedResult S → RankedResult S → Comparison
  compare_ranked a b =
      if scores.gt a.fusion b.fusion
      then less
      else if scores.gt b.fusion a.fusion
      then greater
      else if scores.gt a.result.score b.result.score
      then less
      else if scores.gt b.result.score a.result.score
      then greater
      else compare_candidates a b

  abbrev pub share : ℕ → S
  share source_rank = scores.inverse (reciprocal_rank_constant + source_rank)

  -- a candidate that meets an earlier one with its key
  abbrev pub joined : RankedResult S → RankedResult S → RankedResult S
  joined previous candidate = record previous {
    fusion = scores.add previous.fusion candidate.fusion;
    result =
        if scores.gt candidate.result.score previous.result.score
        then candidate.result
        else previous.result;
  }

  pub place : Option (RankedResult S) → RankedResult S → RankedResult S
  place none candidate = candidate
  place (some previous) candidate = joined previous candidate

  -- the loop that fills `byCandidate`
  pub by_candidate : Map Bytes (RankedResult S) → List (RankedResult S) → Map Bytes (RankedResult S)
  unfolding place
  by_candidate m [] = m
  by_candidate m (c ∷ cs) =
      let candidate : RankedResult S = record c { fusion = share c.source_rank } in
      let key = candidate_key candidate in
      by_candidate (Map.insert key (place (Map.lookup key m) candidate) m) cs

  abbrev pub candidates : Map Bytes (RankedResult S) → List (RankedResult S)
  candidates [] = []
  candidates ((k, c) ∷ m) = c ∷ candidates m

  abbrev pub to_multi_result : RankedResult S → MultiResult S
  to_multi_result c =
      let (project, file) = split_provenance c.result.file_path in
      record {
        result = record c.result { file_path = file };
        project = project;
        source_rank = c.source_rank;
        fusion_score = c.fusion;
      }

  module _
      (sort : (RankedResult S → RankedResult S → Comparison)
        → List (RankedResult S)
        → List (RankedResult S)) where
    pub selected : ℤ → ℤ → ℕ → List (RankedResult S) → List (RankedResult S)
    selected max_per_file max_per_project k ranked =
        if ltb 0 (positive_or 0 max_per_file) || ltb 0 (positive_or 0 max_per_project)
        then apply_ranked_diversity ranked max_per_file max_per_project (pos k)
        else take k ranked

    unfoldable pub fuse_ranked_results :
        List (RankedResult S) → ℤ → ℤ → ℤ → AggFlags → MultiResponse S
    unfolding selected by_candidate
    fuse_ranked_results all_results max_per_file max_per_project top_k flags = record {
      results =
          if length all_results == 0
          then []
          else map to_multi_result (
              selected max_per_file max_per_project (positive_or 5 top_k)
                (sort compare_ranked (candidates (by_candidate [] all_results))));
      project_count = 0;
      skipped_count = 0;
      route = total_route flags.routes;
      flags = flags;
    }
