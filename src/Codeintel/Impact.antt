-- ===== src/Codeintel/Impact.antt =====
-- The files that a change may affect (internal/codeintel/impact.go). Reading the symbol and the graph
-- is input; the graph is an argument.
pub mod Reached
pub mod Levels
pub mod Order
pub mod Affected
use semidx.Prelude.{
  ℕ, zero, suc, ◌+◌, min, Bool, true, false, ◌&&◌, ◌||◌, List, [], ◌∷◌, ◌++◌, ◌==◌, length, ltb,
  if◌then◌else◌,
}
use semidx.Prelude.Eq.{contains}
use semidx.Prelude.Bytes.{Bytes, bytes_beq, bytes_eq, bytes_lt}
use semidx.Prelude.Int.{ℤ, positive_or}
use semidx.Prelude.Map
use semidx.Prelude.Map.{Map, has}
use semidx.Codeintel.Dependencies.{
  ImportGraph, find_direct_callers_for_dirs, dependency_dirs_for_file,
}

abbrev pub default_impact_depth : ℕ
default_impact_depth = 5

abbrev pub max_impact_depth : ℕ
max_impact_depth = 10

abbrev pub clamp_impact_depth : ℤ → ℕ
clamp_impact_depth d = min (positive_or default_impact_depth d) max_impact_depth

-- the directories of one caller that are not among the next ones
abbrev pub add_next_dirs : List Bytes → List Bytes → List Bytes
add_next_dirs next_dirs [] = next_dirs
add_next_dirs next_dirs (d ∷ dirs) =
    add_next_dirs (if contains next_dirs d then next_dirs else next_dirs ++ (d ∷ [])) dirs

-- the loop of `expandImpactLevel`: the files with their depths, and the next directories
pub expand_callers : List Bytes → Bytes → ℕ → Map Bytes ℕ → List Bytes → Map Bytes ℕ × List Bytes
expand_callers [] seed_file depth visited next_dirs = (visited, next_dirs)
expand_callers (caller ∷ callers) seed_file depth visited next_dirs =
    let skipped = bytes_beq caller seed_file || has caller visited in
    expand_callers callers seed_file depth
      (if skipped then visited else Map.insert caller depth visited)
      (if skipped then next_dirs else add_next_dirs next_dirs (dependency_dirs_for_file caller))

module _ (graph : ImportGraph) (seed_file : Bytes) where
  pub expand_impact_level : List Bytes → ℕ → Map Bytes ℕ → Map Bytes ℕ × List Bytes
  unfolding expand_callers
  expand_impact_level current_dirs depth visited =
      expand_callers (find_direct_callers_for_dirs graph current_dirs) seed_file depth visited []

  -- the loop of `reverseDependencyClosureForDirs` from a depth on
  pub closure_from : ℕ → ℕ → Map Bytes ℕ → List Bytes → Map Bytes ℕ
  unfolding expand_impact_level
  closure_from zero depth visited current_dirs = visited
  closure_from (suc left) depth visited current_dirs =
      let level = expand_impact_level current_dirs depth visited in
      elim level.1 [ [] ↦ level.0 | d ∷ dirs ↦ closure_from left (suc depth) level.0 (d ∷ dirs) ]

pub record ImpactNode : Type 0 where
  pub file : Bytes
  pub depth : ℕ

abbrev pub less_impact_node : ImpactNode → ImpactNode → Bool
less_impact_node a b = if a.depth == b.depth then bytes_lt a.file b.file else ltb a.depth b.depth

-- `sort.Slice`
pub insert_node : ImpactNode → List ImpactNode → List ImpactNode
insert_node a [] = a ∷ []
insert_node a (b ∷ nodes) =
    let rest = insert_node a nodes in if less_impact_node b a then b ∷ rest else a ∷ b ∷ nodes

pub collect_impact_nodes : Map Bytes ℕ → List ImpactNode
unfolding insert_node
collect_impact_nodes [] = []
collect_impact_nodes ((file, depth) ∷ visited) =
    insert_node (record { file = file; depth = depth }) (collect_impact_nodes visited)

unfoldable pub reverse_dependency_closure_for_dirs :
    ImportGraph → List Bytes → Bytes → ℕ → List ImpactNode
unfolding closure_from collect_impact_nodes
reverse_dependency_closure_for_dirs graph seed_dirs seed_file max_depth =
    collect_impact_nodes (closure_from graph seed_file max_depth 1 [] seed_dirs)

-- the files that `Impact` reports for a change in a file
unfoldable pub impact : ImportGraph → Bytes → ℤ → List ImpactNode
unfolding reverse_dependency_closure_for_dirs dependency_dirs_for_file
impact graph file max_depth =
    reverse_dependency_closure_for_dirs graph (dependency_dirs_for_file file) file
      (clamp_impact_depth max_depth)
