-- ===== src/Search/Fusion/Candidates.antt =====
-- The candidates of the fusion and the length of its result.
use semidx.Prelude.{
  ℕ, ◌≤◌, ◌<◌, ◌≡◌, Bool, false, ◌||◌, List, [], ◌∷◌, length, ◌==◌, arith, Bool-cases, inl, inr,
  length-take, length-map,
}
use semidx.Prelude.Bytes.{Bytes, bytes_eq, bytes_beq}
use semidx.Prelude.Int.{ℤ, pos, positive_or}
use semidx.Prelude.Map
use semidx.Prelude.Map.{Map, has, Unique, insert-Unique, lookup-insert}
use semidx.Search.Diversity.{RankedResult, clamp_multi_top_k}
use semidx.Search.Diversity.Caps.{apply_ranked_diversity-IsCapped}
use semidx.Search.Fusion.{
  Scores, Comparison, AggFlags, candidate_key, place, by_candidate, selected, share,
  fuse_ranked_results,
}

-- some result of the list has this key
abbrev pub has_candidate : {S : Type 0} → Bytes → List (RankedResult S) → Bool
has_candidate key [] = false
has_candidate key (c ∷ cs) = bytes_beq (candidate_key c) key || has_candidate key cs

module _ {S : Type 0} (scores : Scores S) where
  by_candidate_keys :
      (m : Map Bytes (RankedResult S)) (cs : List (RankedResult S)) (key : Bytes)
      → Unique m
      → Unique (by_candidate scores m cs)
        × (has key (by_candidate scores m cs) ≡ (has key m || has_candidate key cs))
  unfolding by_candidate candidate_key
  by_candidate_keys m [] key u = (u, ground arith)
  by_candidate_keys m (c ∷ cs) key u =
      let k = candidate_key c in
      let v = place scores (Map.lookup k m) (record c { fusion = share scores c.source_rank }) in
      let (unique, keys) = by_candidate_keys (Map.insert k v m) cs key (insert-Unique k v m u) in
      (unique, ground (arith, keys, lookup-insert k key v m))

  -- Before they are sorted, the candidates of the fusion have different keys, and their keys are
  -- those of the results.
  pub by_candidate-Unique :
      (cs : List (RankedResult S))
      → Unique (by_candidate scores [] cs)
        × ((key : Bytes) → has key (by_candidate scores [] cs) ≡ has_candidate key cs)
  unfolding Map.lookup
  by_candidate-Unique cs =
      ((by_candidate_keys [] cs [] tt).0, λ key. (by_candidate_keys [] cs key tt).1)

  module _
      (sort : (RankedResult S → RankedResult S → Comparison)
        → List (RankedResult S)
        → List (RankedResult S)) where
    length-selected :
        (max_per_file max_per_project : ℤ) (k : ℕ) (ranked : List (RankedResult S))
        → 0 < k
        → length (selected scores sort max_per_file max_per_project k ranked) ≤ k
    unfolding selected
    length-selected max_per_file max_per_project k ranked positive =
        let capped =
          (apply_ranked_diversity-IsCapped ranked max_per_file max_per_project (pos k)).total in
        let within : clamp_multi_top_k (pos k) ≤ k = ground arith in
        ground (arith, length-take k ranked, capped)

    -- The fusion returns at most `topK` results, or five where `topK` is not above 0, whatever the
    -- limits and however they are sorted.
    pub length-fuse_ranked_results :
        (all_results : List (RankedResult S)) (max_per_file max_per_project top_k : ℤ)
        (flags : AggFlags)
        → length
            (fuse_ranked_results scores sort all_results max_per_file max_per_project top_k
              flags).results
          ≤ positive_or 5 top_k
    unfolding fuse_ranked_results
    length-fuse_ranked_results all_results max_per_file max_per_project top_k flags =
        elim (Bool-cases (length all_results == 0)) [
          | inl nothing ↦ rw nothing (omega arith)
          | inr something ↦
              rw (something, length-map)
                (length-selected max_per_file max_per_project (positive_or 5 top_k) _ (above top_k))
        ]
      where
        above : (z : ℤ) → 0 < positive_or 5 z
        above z = ground arith
