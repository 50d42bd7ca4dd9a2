-- ===== src/Graph/Walk/Tests.antt =====
-- A file that imports a package with another file.
use semidx.Prelude.{◌≡◌, refl, true, false, some, [], ◌∷◌, if◌then◌else◌}
use semidx.Prelude.Bytes.{Bytes, codes, bytes_beq}
use semidx.Prelude.Int.{pos}
use semidx.Prelude.Map
use semidx.Graph.Walk.{Edge, Graph, Budget, PathResult, shortest_path}
use semidx.Graph.Walk.Optimal.{IsOptimal, shortest_path-IsOptimal}
use semidx.Graph.Walk.Found.{IsPath, shortest_path-IsPath}

abbrev edge : Bytes → Bytes → Bytes → Edge
edge source target kind = record { source = source; target = target; kind = kind; reverse = false }

abbrev imports : Graph
imports = record {
  sorted_neighbors = λ undirected node.
      if bytes_beq node (codes "a.go")
      then edge (codes "a.go") (codes "lib/") (codes "imports") ∷ []
      else if bytes_beq node (codes "lib/")
      then edge (codes "lib/") (codes "lib/b.go") (codes "contains") ∷ []
      else [];
  normalize = λ p. p;
}

abbrev three_hops : Budget
three_hops = record { max_depth = pos 3; max_visit_nodes = pos 0 }

shortest_path-IsPath_example :
    (r : PathResult) × (shortest_path imports (codes "a.go") (codes "lib/b.go") three_hops false
      ≡ some r)
    × IsPath imports (codes "a.go") (codes "lib/b.go") 3 r
shortest_path-IsPath_example =
    shortest_path-IsPath imports (codes "a.go") (codes "lib/b.go") three_hops false

shortest_path-IsOptimal_example :
    (r : PathResult) × (shortest_path imports (codes "a.go") (codes "lib/b.go") three_hops true
      ≡ some r)
    × IsOptimal imports (codes "a.go") (codes "lib/b.go") 3 true r
shortest_path-IsOptimal_example =
    shortest_path-IsOptimal imports (codes "a.go") (codes "lib/b.go") three_hops true

two_edges :
    shortest_path imports (codes "a.go") (codes "lib/b.go") three_hops false
    ≡ some (record {
      from = codes "a.go";
      to = codes "lib/b.go";
      found = true;
      directed = true;
      hops = codes "a.go" ∷ codes "lib/" ∷ codes "lib/b.go" ∷ [];
      edges =
          edge (codes "a.go") (codes "lib/") (codes "imports")
          ∷ edge (codes "lib/") (codes "lib/b.go") (codes "contains")
          ∷ [];
      length = 2;
      truncated = false;
    })
unfolding shortest_path Map.lookup Map.insert
two_edges = refl
