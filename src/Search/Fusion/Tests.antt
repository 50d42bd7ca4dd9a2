-- ===== src/Search/Fusion/Tests.antt =====
-- The fusion of a result that two searches found.
use semidx.Prelude.{ℕ, ◌+◌, refl, [], ◌∷◌, ltb}
use semidx.Prelude.Bytes.{codes, bytes_eq}
use semidx.Search.Diversity.{RankedResult}
use semidx.Search.Fusion.{Scores, by_candidate}
use semidx.Search.Fusion.Fused.{IsFusion, by_candidate-IsFusion}

abbrev scores : Scores ℕ
scores = record { gt = λ a b. ltb b a; add = λ a b. a + b; inverse = λ n. n }

abbrev hit : ℕ → RankedResult ℕ
hit n = record {
  result = record {
    file_path = codes "a.go";
    score = n;
    start_line = 1;
    end_line = 2;
    source = [];
    rest = [];
  };
  project = codes "p";
  source_rank = n;
  fusion = 0;
}

by_candidate-IsFusion_example :
    IsFusion scores (hit 1 ∷ hit 2 ∷ []) (by_candidate scores [] (hit 1 ∷ hit 2 ∷ []))
by_candidate-IsFusion_example =
    by_candidate-IsFusion scores (hit 1 ∷ hit 2 ∷ []) ((refl, tt), ((refl, tt), tt))
