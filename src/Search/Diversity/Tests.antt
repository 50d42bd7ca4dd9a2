-- ===== src/Search/Diversity/Tests.antt =====
-- Three results of two projects.
use semidx.Prelude.{ℕ, ◌≡◌, refl, arith, List, [], ◌∷◌, length}
use semidx.Prelude.Bytes.{Bytes, codes}
use semidx.Prelude.Int.{pos}
use semidx.Prelude.Map
use semidx.Search.Diversity.{RankedResult, apply_ranked_diversity, split_provenance, tagged}
use semidx.Search.Diversity.Caps.{IsCapped, apply_ranked_diversity-IsCapped}
use semidx.Search.Diversity.Greedy.{Keeps, IsFull, apply_ranked_diversity-Keeps}

abbrev ranked : Bytes → Bytes → ℕ → RankedResult ℕ
ranked project file n = record {
  result = record {
    file_path = tagged project file;
    score = n;
    start_line = n;
    end_line = n;
    source = [];
    rest = [];
  };
  project = project;
  source_rank = n;
  fusion = n;
}

abbrev three_results : List (RankedResult ℕ)
three_results =
    ranked (codes "a") (codes "x") 1
    ∷ ranked (codes "a") (codes "x") 2
    ∷ ranked (codes "b") (codes "x") 3
    ∷ []

apply_ranked_diversity-IsCapped_example :
    IsCapped 1 2 2 (apply_ranked_diversity three_results (pos 1) (pos 2) (pos 2))
apply_ranked_diversity-IsCapped_example =
    apply_ranked_diversity-IsCapped three_results (pos 1) (pos 2) (pos 2)

two_taken : length (apply_ranked_diversity three_results (pos 1) (pos 2) (pos 9)) ≡ 2
unfolding apply_ranked_diversity split_provenance Map.lookup Map.insert
two_taken = refl

apply_ranked_diversity-Keeps_example :
    Keeps
      (IsFull 1 2 (apply_ranked_diversity three_results (pos 1) (pos 2) (pos 9)))
      three_results
      (apply_ranked_diversity three_results (pos 1) (pos 2) (pos 9))
apply_ranked_diversity-Keeps_example =
    apply_ranked_diversity-Keeps three_results (pos 1) (pos 2) (pos 9) (omega (arith, two_taken))
