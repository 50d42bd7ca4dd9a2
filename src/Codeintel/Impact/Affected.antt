-- ===== src/Codeintel/Impact/Affected.antt =====
-- The list of the affected files that internal/codeintel/impact.go returns.
use semidx.Prelude.{
  ℕ, zero, suc, ◌≤◌, ◌≡◌, true, ◌||◌, List, [], ◌∷◌, map, arith, inl, inr, Bool-cases, All,
}
use semidx.Prelude.Eq.{contains, Distinct}
use semidx.Prelude.Int.{ℤ}
use semidx.Prelude.Bytes.{Bytes, bytes_beq, bytes_eq}
use semidx.Prelude.Map
use semidx.Prelude.Map.{Map, has, Unique, insert-Unique}
use semidx.Codeintel.Dependencies.{
  ImportGraph, find_direct_callers_for_dirs, dependency_dirs_for_file,
}
use semidx.Codeintel.Impact.{
  ImpactNode, expand_callers, expand_impact_level, closure_from, add_next_dirs,
  reverse_dependency_closure_for_dirs, impact, clamp_impact_depth,
}
use semidx.Codeintel.Impact.Reached.{Reaches}
use semidx.Codeintel.Impact.Levels.{visited-IsClosure}
use semidx.Codeintel.Impact.Order.{
  file_of, Sorted, contains-collect_impact_nodes, collect_impact_nodes-Distinct,
  collect_impact_nodes-Sorted, collect_impact_nodes-All,
}

-- The affected files: the files that reach one of the directories in at most `limit` imports, each
-- once and with the least number of imports, in the order of the numbers and then of the names.
pub record IsAffected (graph : ImportGraph) (seed_file : Bytes) (seed_dirs : List Bytes) (limit : ℕ)
    (nodes : List ImpactNode) : Type 0 where
  pub sound :
      All
        (λ n.
          (n.depth ≤ limit)
          × Reaches graph seed_file seed_dirs n.depth n.file
          × ((m : ℕ) → Reaches graph seed_file seed_dirs m n.file → n.depth ≤ m))
        nodes
  pub complete :
      (f : Bytes) (m : ℕ)
      → Reaches graph seed_file seed_dirs m f
      → m ≤ limit
      → contains (map file_of nodes) f ≡ true
  pub once : Distinct (map file_of nodes)
  pub sorted : Sorted nodes

expand_callers-Unique :
    (callers : List Bytes) (seed_file : Bytes) (depth : ℕ) (v : Map Bytes ℕ) (next : List Bytes)
    → Unique v
    → Unique (expand_callers callers seed_file depth v next).0
unfolding expand_callers
expand_callers-Unique [] seed_file depth v next u = u
expand_callers-Unique (c ∷ callers) seed_file depth v next u =
    elim (Bool-cases (bytes_beq c seed_file || has c v)) [
      | inl skipped ↦
          rw (skipped, expand_callers) (expand_callers-Unique callers seed_file depth v next u)
      | inr fresh ↦
          rw (fresh, expand_callers)
            (expand_callers-Unique callers seed_file depth (Map.insert c depth v)
              (add_next_dirs next (dependency_dirs_for_file c)) (insert-Unique c depth v u))
    ]

closure_from-Unique :
    (graph : ImportGraph) (seed_file : Bytes) (left depth : ℕ) (v : Map Bytes ℕ) (dirs : List Bytes)
    → Unique v
    → Unique (closure_from graph seed_file left depth v dirs)
unfolding closure_from expand_impact_level
closure_from-Unique graph seed_file zero depth v dirs u = u
closure_from-Unique graph seed_file (suc left) depth v dirs u =
    let callers = find_direct_callers_for_dirs graph dirs in
    go (expand_callers callers seed_file depth v []).0
      (expand_callers callers seed_file depth v []).1
      (expand_callers-Unique callers seed_file depth v [] u)
      (λ after dirs'. closure_from-Unique graph seed_file left (suc depth) after dirs')
  where
    go :
        (after : Map Bytes ℕ) (dirs' : List Bytes)
        → Unique after
        → ((after : Map Bytes ℕ) (dirs' : List Bytes)
            → Unique after
            → Unique (closure_from graph seed_file left (suc depth) after dirs'))
        → Unique (elim dirs' [
          | [] ↦ after
          | d ∷ ds ↦ closure_from graph seed_file left (suc depth) after (d ∷ ds)
        ])
    go after [] a later = a
    go after (d ∷ ds) a later = later after (d ∷ ds) a

-- For every graph of imports, the files that `Impact` reports are exactly the other files that reach
-- a directory of the changed file in at most the clamped number of imports, over files other than
-- it; each is reported once, with the least number of imports, sorted by that number and the name.
pub impact-IsAffected :
    (graph : ImportGraph) (file : Bytes) (max_depth : ℤ)
    → IsAffected graph file
        (dependency_dirs_for_file file)
        (clamp_impact_depth max_depth)
        (impact graph file max_depth)
unfolding impact reverse_dependency_closure_for_dirs
impact-IsAffected graph file max_depth =
    let dirs = dependency_dirs_for_file file in
    let limit = clamp_impact_depth max_depth in
    let v = closure_from graph file limit 1 [] dirs in
    let c = visited-IsClosure graph file dirs limit in
    let u : Unique v = closure_from-Unique graph file limit 1 [] dirs tt in
    record {
      sound =
          collect_impact_nodes-All
            (λ n.
              (n.depth ≤ limit)
              × Reaches graph file dirs n.depth n.file
              × ((m : ℕ) → Reaches graph file dirs m n.file → n.depth ≤ m))
            v u (λ f n e. let (lt, reach, least) = c.sound f n e in (omega arith, reach, least));
      complete = λ f m r le.
          let h = c.complete f m r (omega arith) in
          ground (arith, contains-collect_impact_nodes v f);
      once = collect_impact_nodes-Distinct v u;
      sorted = collect_impact_nodes-Sorted v;
    }
