-- ===== src/Search/Hybrid.antt =====
-- Reciprocal rank fusion of the vector and the keyword results (internal/search/hybrid.go). The
-- scores are a parameter, since they are floating-point numbers, and so is Go's sort.
pub mod Occurrences
pub mod Chunks
mod Tests
use semidx.Prelude.{
  ℕ, suc, ◌+◌, min, Bool, true, false, not, ◌&&◌, ◌||◌, Option, none, some, List, [], ◌∷◌, ◌++◌,
  map, length, take, leb, if◌then◌else◌,
}
use semidx.Prelude.Bytes.{Bytes, codes, bytes_beq, bytes_eq}
use semidx.Prelude.Decimal.{decimal}
use semidx.Prelude.Int.{ℤ, pos, positive_or}
use semidx.Prelude.Map
use semidx.Prelude.Map.{Map, or_zero}
use semidx.Search.Diversity.{SearchResult, max_top_k}
use semidx.Search.Fusion.{Scores, Comparison, less, equal, greater}

-- the rest of what is computed with scores
pub record RrfScores (S : Type 0) : Type 0 where
  pub scores : Scores S
  pub bonus : S
  -- `math.Abs(a - b) < 1e-9`, `s > 0` and `/`
  pub near : S → S → Bool
  pub is_positive : S → Bool
  pub divide : S → S → S

abbrev pub rrf_k : ℕ
rrf_k = 60

module _ {S : Type 0} where
  unfoldable pub chunk_key : SearchResult S → Bytes
  chunk_key r = r.file_path ++ (b'|' ∷ decimal r.start_line)

  -- the ranks of the results from the `i`-th on
  abbrev pub ranks_from : ℕ → List (SearchResult S) → Map Bytes ℕ → Map Bytes ℕ
  ranks_from i [] ranks = ranks
  ranks_from i (r ∷ rs) ranks = ranks_from (suc i) rs (Map.insert (chunk_key r) (i + 1) ranks)

  unfoldable pub build_ranks : List (SearchResult S) → Map Bytes ℕ
  unfolding chunk_key
  build_ranks results = ranks_from 0 results []

  -- `tagResultSource`
  abbrev pub tag_result_source : Bytes → List (SearchResult S) → List (SearchResult S)
  tag_result_source source [] = []
  tag_result_source source (r ∷ rs) =
      (if bytes_beq r.source [] then record r { source = source } else r)
      ∷ tag_result_source source rs

pub record RrfScored (S : Type 0) : Type 0 where
  pub result : SearchResult S
  pub score : S

module _ {S : Type 0} (rrf : RrfScores S) where
  abbrev pub share : ℕ → S
  share rank = rrf.scores.inverse (rrf_k + rank)

  abbrev pub overlap : S → Option ℕ → S
  overlap score none = score
  overlap score (some kr) = rrf.scores.add score (rrf.scores.add (share kr) rrf.bonus)

  -- the first loop of `fuseRRF`
  pub fuse_vector : Map Bytes ℕ → Map Bytes ℕ → List (SearchResult S) → List (RrfScored S)
  unfolding chunk_key
  fuse_vector vec_ranks kw_ranks [] = []
  fuse_vector vec_ranks kw_ranks (r ∷ rs) =
      let ck = chunk_key r in
      record {
        result = r;
        score = overlap (share (or_zero (Map.lookup ck vec_ranks))) (Map.lookup ck kw_ranks);
      }
      ∷ fuse_vector vec_ranks kw_ranks rs

  abbrev pub is_seen : List (SearchResult S) → Bytes → Bool
  is_seen [] ck = false
  is_seen (r ∷ vector) ck = bytes_beq (chunk_key r) ck || is_seen vector ck

  -- the second loop; the chunks that were seen are those of the vector results
  pub fuse_keyword :
      List (SearchResult S) → Map Bytes ℕ → List (SearchResult S) → List (RrfScored S)
  unfolding chunk_key
  fuse_keyword vector kw_ranks [] = []
  fuse_keyword vector kw_ranks (r ∷ rs) =
      let rest = fuse_keyword vector kw_ranks rs in
      if is_seen vector (chunk_key r)
      then rest
      else record { result = r; score = share (or_zero (Map.lookup (chunk_key r) kw_ranks)) } ∷ rest

  unfoldable pub fuse_rrf :
      List (SearchResult S) → List (SearchResult S) → Map Bytes ℕ → Map Bytes ℕ → List (RrfScored S)
  unfolding fuse_vector fuse_keyword
  fuse_rrf vector keyword vec_ranks kw_ranks =
      fuse_vector vec_ranks kw_ranks vector ++ fuse_keyword vector kw_ranks keyword

  abbrev pub compare_scored_desc : RrfScored S → RrfScored S → Comparison
  compare_scored_desc a b =
      if rrf.near a.score b.score
      then equal
      else if rrf.scores.gt a.score b.score
      then less
      else greater

  abbrev pub scaled : S → List (RrfScored S) → List (SearchResult S)
  scaled max_score [] = []
  scaled max_score (s ∷ scored) =
      (if rrf.is_positive max_score
        then record s.result { score = rrf.divide s.score max_score }
        else s.result)
      ∷ scaled max_score scored

  unfoldable pub normalise_rrf : List (RrfScored S) → ℕ → List (SearchResult S)
  normalise_rrf [] top_k = []
  normalise_rrf (s ∷ scored) top_k =
      scaled s.score (take (min (min top_k (length (s ∷ scored))) max_top_k) (s ∷ scored))

  abbrev pub ranked : List (RrfScored S) → ℤ → List (SearchResult S)
  ranked scored top_k =
      normalise_rrf scored (min (positive_or (length scored) top_k) (length scored))

  module _
      (sort : (RrfScored S → RrfScored S → Comparison)
        → List (RrfScored S)
        → List (RrfScored S)) where
    pub rerank_rrf : List (SearchResult S) → List (SearchResult S) → ℤ → List (SearchResult S)
    unfolding build_ranks fuse_rrf normalise_rrf
    rerank_rrf [] keyword top_k = keyword
    rerank_rrf (v ∷ vector) [] top_k = v ∷ vector
    rerank_rrf (v ∷ vector) (k ∷ keyword) top_k =
        ranked
          (sort compare_scored_desc (
            fuse_rrf (v ∷ vector) (k ∷ keyword) (build_ranks (v ∷ vector))
              (build_ranks (k ∷ keyword))))
          top_k
