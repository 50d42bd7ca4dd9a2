-- ===== src/Search/Diversity.antt =====
-- The limits per project and per file on fused results, and the tags that name a result's project
-- (internal/search/multiscope.go). `S` is the type of scores (`float64`).
pub mod Caps
pub mod Greedy
pub mod Provenance
mod Tests
use semidx.Prelude.{
  ℕ, zero, suc, ◌+◌, Bool, true, false, ◌||◌, ◌&&◌, List, [], ◌∷◌, ◌++◌, leb, ltb, ◌==◌,
  if◌then◌else◌,
}
use semidx.Prelude.Bytes.{Bytes, bytes_eq}
use semidx.Prelude.Int.{ℤ, pos, negsuc, positive_or}
use semidx.Prelude.Map
use semidx.Prelude.Map.{Map, or_zero}

-- The fields of a result that the searches look at; `rest` is the others.
pub record SearchResult (S : Type 0) : Type 0 where
  pub file_path : Bytes
  pub score : S
  pub start_line : ℕ
  pub end_line : ℕ
  pub source : Bytes
  pub rest : Bytes

pub record RankedResult (S : Type 0) : Type 0 where
  pub result : SearchResult S
  pub project : Bytes
  pub source_rank : ℕ
  pub fusion : S

abbrev pub max_top_k : ℕ
max_top_k = 1000

-- the loop of `splitProvenance`, with the bytes that it has passed
pub split_at_nul : Bytes → Bytes → Bytes × Bytes
split_at_nul before [] = ([], before)
split_at_nul before (c ∷ after) =
    let rest = split_at_nul (before ++ (c ∷ [])) after in if c == 0 then (before, after) else rest

-- the project and the file of a path, parted at the first NUL; no project without one
unfoldable pub split_provenance : Bytes → Bytes × Bytes
unfolding split_at_nul
split_provenance fp = split_at_nul [] fp

-- `project + "\x00" + file`
abbrev pub tagged : Bytes → Bytes → Bytes
tagged project file = project ++ (0 ∷ file)

abbrev pub clamp_multi_top_k : ℤ → ℕ
clamp_multi_top_k top_k = let n = positive_or 5 top_k in if ltb max_top_k n then max_top_k else n

abbrev pub bump : Bytes → Map Bytes ℕ → Map Bytes ℕ
bump k m = Map.insert k (suc (or_zero (Map.lookup k m))) m

-- The loop over the results from a state on: the counts by file and by project, and the number of
-- results that are taken already. `project` and `file` are the keys of a result's counts.
module _ {A : Type 0} (project file : A → Bytes) (max_per_file max_per_project top_k : ℕ) where
  abbrev pub count : Bytes → Map Bytes ℕ → ℕ
  count k m = or_zero (Map.lookup k m)

  pub select : Map Bytes ℕ → Map Bytes ℕ → ℕ → List A → List A
  select files projects taken [] = []
  select files projects taken (r ∷ rs) =
      let full =
        leb max_per_project (count (project r) projects)
        || leb max_per_file (count (file r) files) in
      let rest =
        select (if full then files else bump (file r) files)
          (if full then projects else bump (project r) projects) (if full then taken else suc taken)
          rs in
      if full then rest else if leb top_k (suc taken) then r ∷ [] else r ∷ rest

module _ {S : Type 0} where
  abbrev pub ranked_project : RankedResult S → Bytes
  ranked_project r = (split_provenance r.result.file_path).0

  abbrev pub ranked_file : RankedResult S → Bytes
  ranked_file r = let (project, file) = split_provenance r.result.file_path in tagged project file

  unfoldable pub apply_ranked_diversity : List (RankedResult S) → ℤ → ℤ → ℤ → List (RankedResult S)
  unfolding select
  apply_ranked_diversity results max_per_file max_per_project top_k =
      let k = clamp_multi_top_k top_k in
      select ranked_project ranked_file (positive_or (k + 1) max_per_file)
        (positive_or (k + 1) max_per_project) k [] [] 0 results
