-- ===== src/Search/Hybrid/Chunks.antt =====
-- The chunks of a fused list (internal/search/hybrid.go).
use semidx.Prelude.{ℕ, ◌+◌, ◌≤◌, ◌≡◌, refl, min, List, [], ◌∷◌, length, take, arith, ◌∙◌}
use semidx.Prelude.Bytes.{Bytes}
use semidx.Prelude.Int.{ℤ, pos, negsuc, positive_or}
use semidx.Search.Diversity.{SearchResult, max_top_k}
use semidx.Search.Fusion.{Comparison}
use semidx.Search.Hybrid.{
  RrfScores, RrfScored, build_ranks, fuse_rrf, normalise_rrf, ranked, compare_scored_desc,
  rerank_rrf,
}
use semidx.Search.Hybrid.Occurrences.{
  occurrences, scored_occurrences, due, occurrences-scaled, occurrences-take, take_all,
  occurrences-unseen, occurrences-fuse_rrf, length-fuse_rrf,
}

module _ {S : Type 0} (rrf : RrfScores S) where
  -- the limit that is in force for the results
  abbrev pub limit : ℤ → ℕ
  limit top_k = min (positive_or max_top_k top_k) max_top_k

  -- No chunk stands in the list more often than it may; none is lost as long as both lists together
  -- are within the limit.
  pub record IsFused (vector keyword : List (SearchResult S)) (top_k : ℤ)
      (out : List (SearchResult S)) : Type 0 where
    pub bounded : (ck : Bytes) → occurrences ck out ≤ due rrf vector keyword ck
    pub complete :
        (ck : Bytes)
        → length vector + length keyword ≤ limit top_k
        → occurrences ck out ≡ due rrf vector keyword ck

  occurrences-ranked :
      (ck : Bytes) (scored : List (RrfScored S)) (top_k : ℤ)
      → (occurrences ck (ranked rrf scored top_k) ≤ scored_occurrences ck scored)
        × (length scored ≤ limit top_k
            → occurrences ck (ranked rrf scored top_k) ≡ scored_occurrences ck scored)
  unfolding normalise_rrf
  occurrences-ranked ck [] top_k = (omega arith, λ le. refl)
  occurrences-ranked ck (s ∷ scored) top_k =
      let all = s ∷ scored in
      let n =
        min (min (min (positive_or (length all) top_k) (length all)) (length all)) max_top_k in
      rw (occurrences-scaled rrf ck s.score (take n all)) (
        occurrences-take ck n all,
        λ le.
            let enough : length all ≤ n = fits (length all) top_k le in
            rw (take_all n all enough) refl,
      )
    where
      fits :
          (n : ℕ) (top_k : ℤ)
          → n ≤ limit top_k
          → n ≤ min (min (min (positive_or n top_k) n) n) max_top_k
      fits n (pos k) le = ground arith
      fits n (negsuc k) le = ground arith

  module _
      (sort : (RrfScored S → RrfScored S → Comparison) → List (RrfScored S) → List (RrfScored S))
      (sort_permutes : (ck : Bytes) (xs : List (RrfScored S))
        → scored_occurrences ck (sort (compare_scored_desc rrf) xs) ≡ scored_occurrences ck xs)
      (sort_length : (xs : List (RrfScored S))
        → length (sort (compare_scored_desc rrf) xs) ≡ length xs) where
    -- The fusion of two ranked lists, with a sort that only moves the results, has each chunk of the
    -- vector results at most as often as they have it, and any other chunk at most as often as the
    -- keyword results have it; and exactly so while both lists together are within `topK` and 1000.
    pub rerank_rrf-IsFused :
        (vector keyword : List (SearchResult S)) (top_k : ℤ)
        → IsFused vector keyword top_k (rerank_rrf rrf sort vector keyword top_k)
    unfolding rerank_rrf
    rerank_rrf-IsFused [] keyword top_k = record {
      bounded = λ ck. omega arith;
      complete = λ ck le. refl;
    }
    rerank_rrf-IsFused (v ∷ vector) [] top_k = record {
      bounded = λ ck. ground (arith, occurrences-unseen rrf ck (v ∷ vector));
      complete = λ ck le. ground (arith, occurrences-unseen rrf ck (v ∷ vector));
    }
    rerank_rrf-IsFused (v ∷ vector) (k ∷ keyword) top_k =
        let vs = v ∷ vector in
        let ks = k ∷ keyword in
        let fused = fuse_rrf rrf vs ks (build_ranks vs) (build_ranks ks) in
        let sorted = sort (compare_scored_desc rrf) fused in
        let small = length-fuse_rrf rrf vs ks (build_ranks vs) (build_ranks ks) in
        record {
          bounded = λ ck.
              let (le, same) = occurrences-ranked ck sorted top_k in
              let e = occurrences-fuse_rrf rrf ck vs ks (build_ranks vs) (build_ranks ks) in
              let p = sort_permutes ck fused in omega arith;
          complete = λ ck le.
              let (below, same) = occurrences-ranked ck sorted top_k in
              let e = occurrences-fuse_rrf rrf ck vs ks (build_ranks vs) (build_ranks ks) in
              let p = sort_permutes ck fused in
              let n = sort_length fused in same (omega arith) ∙ (p ∙ e);
        }
