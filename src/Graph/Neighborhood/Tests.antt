-- ===== src/Graph/Neighborhood/Tests.antt =====
-- The walk around a seed in an index of internal/graph/graph.go, with room for one edge.
use semidx.Prelude.{◌≡◌, refl, true, false, [], ◌∷◌}
use semidx.Prelude.Bytes.{codes}
use semidx.Graph.Walk.{Graph}
use semidx.Graph.Index.{build, graph_of}
use semidx.Graph.Neighborhood.{Limits, bfs_walk, walk_loop}
use semidx.Graph.Neighborhood.Bounds.{IsBounded, bfs_walk-IsBounded}

abbrev imports : Graph
imports =
    graph_of (λ edges. edges)
      (build ((codes "a.go", codes "lib" ∷ codes "os" ∷ []) ∷ []) (codes "lib/b.go" ∷ []))

abbrev one_edge : Limits
one_edge = record { max_depth = 2; max_visit_nodes = 10; max_edges_out = 1 }

bfs_walk-IsBounded_example :
    IsBounded imports one_edge false
      (codes "a.go" ∷ [])
      (bfs_walk imports one_edge false (codes "a.go" ∷ []))
bfs_walk-IsBounded_example = bfs_walk-IsBounded imports one_edge false (codes "a.go" ∷ [])

no_visits_left :
    (walk_loop imports one_edge false 0 (record {
      depths = [];
      edges = [];
      edge_seen = [];
      seen = codes "a.go" ∷ [];
      queue = (codes "a.go", 0) ∷ [];
      truncated = false;
    })).truncated
    ≡ true
unfolding walk_loop
no_visits_left = refl
