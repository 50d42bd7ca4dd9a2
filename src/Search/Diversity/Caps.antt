-- ===== src/Search/Diversity/Caps.antt =====
-- The limits hold of what is selected.
use semidx.Prelude.{ℕ, suc, ◌+◌, ◌≤◌, ◌<◌, ◌≡◌, List, [], ◌∷◌, length, if◌then◌else◌, arith}
use semidx.Prelude.Bytes.{Bytes, bytes_eq, bytes_beq, bytes_beq_iff}
use semidx.Prelude.Int.{ℤ, pos, negsuc, positive_or}
use semidx.Prelude.Map
use semidx.Prelude.Map.{Map, or_zero, lookup-insert}
use semidx.Search.Diversity.{
  RankedResult, clamp_multi_top_k, bump, select, ranked_project, ranked_file,
  apply_ranked_diversity,
}

-- how many of the elements have this key
abbrev pub with_key : {A : Type 0} → (A → Bytes) → Bytes → List A → ℕ
with_key key k [] = 0
with_key key k (x ∷ xs) = let n = with_key key k xs in if bytes_beq (key x) k then suc n else n

pub count_bump :
    (k j : Bytes) (m : Map Bytes ℕ)
    → or_zero (Map.lookup j (bump k m))
      ≡ (if bytes_beq k j then suc (or_zero (Map.lookup k m)) else or_zero (Map.lookup j m))
count_bump k j m = ground (arith, lookup-insert k j (suc (or_zero (Map.lookup k m))) m)

module _ {A : Type 0} (project file : A → Bytes) (max_per_file max_per_project top_k : ℕ) where
  length-select :
      (files projects : Map Bytes ℕ) (taken : ℕ) (rs : List A)
      → taken < top_k
      → taken
          + length (select project file max_per_file max_per_project top_k files projects taken rs)
        ≤ top_k
  unfolding select
  length-select files projects taken [] h = omega arith
  length-select files projects taken (r ∷ rs) h = ground (
    arith,
    length-select files projects taken rs,
    length-select (bump (file r) files) (bump (project r) projects) (suc taken) rs,
  )

  projects_of_select :
      (k : Bytes) (files projects : Map Bytes ℕ) (taken : ℕ) (rs : List A)
      → or_zero (Map.lookup k projects) ≤ max_per_project
      → or_zero (Map.lookup k projects)
          + with_key project k
              (select project file max_per_file max_per_project top_k files projects taken rs)
        ≤ max_per_project
  unfolding select
  projects_of_select k files projects taken [] h = omega arith
  projects_of_select k files projects taken (r ∷ rs) h = ground (
    arith,
    count_bump (project r) k projects,
    bytes_beq_iff (project r) k,
    projects_of_select k files projects taken rs,
    projects_of_select k (bump (file r) files) (bump (project r) projects) (suc taken) rs,
  )

  files_of_select :
      (k : Bytes) (files projects : Map Bytes ℕ) (taken : ℕ) (rs : List A)
      → or_zero (Map.lookup k files) ≤ max_per_file
      → or_zero (Map.lookup k files)
          + with_key file k
              (select project file max_per_file max_per_project top_k files projects taken rs)
        ≤ max_per_file
  unfolding select
  files_of_select k files projects taken [] h = omega arith
  files_of_select k files projects taken (r ∷ rs) h = ground (
    arith,
    count_bump (file r) k files,
    bytes_beq_iff (file r) k,
    files_of_select k files projects taken rs,
    files_of_select k (bump (file r) files) (bump (project r) projects) (suc taken) rs,
  )

-- What the limits promise of the selected results: at most `top_k` in all, and at most the limit
-- for each project and for each file of a project.
pub record IsCapped {S : Type 0} (per_file per_project top_k : ℕ) (out : List (RankedResult S))
    : Type 0 where
  pub total : length out ≤ top_k
  pub by_project : (k : Bytes) → with_key ranked_project k out ≤ per_project
  pub by_file : (k : Bytes) → with_key ranked_file k out ≤ per_file

top_k_positive : (top_k : ℤ) → 0 < clamp_multi_top_k top_k
top_k_positive (pos n) = ground arith
top_k_positive (negsuc n) = ground arith

-- `applyRankedDiversity` returns at most the clamped `topK` results, and at most `maxPerProject` of
-- a project and `maxPerFile` of a file in a project, for limits above 0; other limits are `topK + 1`,
-- which does not restrict.
pub apply_ranked_diversity-IsCapped :
    {S : Type 0} (results : List (RankedResult S)) (max_per_file max_per_project top_k : ℤ)
    → IsCapped
        (positive_or (clamp_multi_top_k top_k + 1) max_per_file)
        (positive_or (clamp_multi_top_k top_k + 1) max_per_project)
        (clamp_multi_top_k top_k)
        (apply_ranked_diversity results max_per_file max_per_project top_k)
unfolding apply_ranked_diversity Map.lookup
apply_ranked_diversity-IsCapped results max_per_file max_per_project top_k =
    let k = clamp_multi_top_k top_k in
    let per_file = positive_or (k + 1) max_per_file in
    let per_project = positive_or (k + 1) max_per_project in
    record {
      total = omega (
        arith,
        top_k_positive top_k,
        length-select ranked_project ranked_file per_file per_project k [] [] 0 results,
      );
      by_project = λ p. omega (
        arith,
        projects_of_select ranked_project ranked_file per_file per_project k p [] [] 0 results,
      );
      by_file = λ p. omega (
        arith,
        files_of_select ranked_project ranked_file per_file per_project k p [] [] 0 results,
      );
    }
