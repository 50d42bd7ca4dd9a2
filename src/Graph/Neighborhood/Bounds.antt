-- ===== src/Graph/Neighborhood/Bounds.antt =====
-- The bounds of `bfsWalk` in internal/graph/graph.go, and where the nodes that it places stand.
use mathlib.Core.List.{Mem, mem-cons_self, mem-cons_of_mem}
use semidx.Prelude.{
  ℕ, zero, suc, ◌≤◌, ◌≡◌, Bool, false, ◌&&◌, ◌||◌, List, [], ◌∷◌, ◌++◌, map, length, leb, arith,
  inl, inr, Bool-cases, if◌then◌else◌,
}
use semidx.Prelude.Eq.{contains}
use semidx.Prelude.Bytes.{Bytes, bytes_eq}
use semidx.Prelude.Map.{Map}
use semidx.Graph.Walk.{Edge, Graph}
use semidx.Graph.Neighborhood.Placed.{
  Hops, hop, Placed, Joined, IsKeyed, keep-IsKeyed, choose-P, length-keep_edges, append-Placed,
  seeds-Placed, set_depth-Placed, set_depth-Joined, keep-Joined,
}
use semidx.Graph.Neighborhood.{
  Limits, Walked, edge_key, set_depth, record_edge, enqueue_target, follow_edge, follow_edges,
  expand_node, walk_loop, bfs_walk,
}

module _ (g : Graph) (limits : Limits) (inbound : Bool) (seeds : List Bytes) where
  pub record IsBounded (s : Walked) : Type 0 where
    pub bounded : length s.edges ≤ limits.max_edges_out
    pub placed : Placed g limits inbound seeds s.depths
    pub waiting : Placed g limits inbound seeds s.queue
    pub joined : Joined g limits inbound seeds s.depths s.edges
    pub keyed : IsKeyed s.edges s.edge_seen

  module _ (node : Bytes) (depth : ℕ) (reached : Hops g limits inbound seeds node depth) where
    module _ (le : suc depth ≤ limits.max_depth) where
      record_edge-IsBounded :
          (e : Edge) (s : Walked)
          → Mem e (g.sorted_neighbors inbound node)
          → contains s.edge_seen (edge_key e) ≡ false
          → IsBounded s
          → IsBounded (record_edge g limits depth e s)
      unfolding record_edge
      record_edge-IsBounded e s near new b =
          let id = g.normalize e.target in
          let full = leb limits.max_edges_out (length s.edges) in
          record {
            bounded = length-keep_edges limits.max_edges_out s.edges e b.bounded;
            placed =
                choose-P (Placed g limits inbound seeds) s.depths
                  (set_depth id (suc depth) s.depths) full b.placed
                  (λ room.
                    set_depth-Placed g limits inbound seeds id (suc depth) s.depths le
                      (hop node e reached near) b.placed);
            waiting = b.waiting;
            joined =
                keep-Joined g limits inbound seeds full (suc depth) s.depths s.edges e b.joined;
            keyed = keep-IsKeyed full s.edges s.edge_seen e new b.keyed;
          }

      enqueue_target-IsBounded :
          (e : Edge) (s : Walked)
          → Mem e (g.sorted_neighbors inbound node)
          → IsBounded s
          → IsBounded (enqueue_target g limits depth e s)
      unfolding enqueue_target
      enqueue_target-IsBounded e s near b =
          let id = g.normalize e.target in
          choose-P IsBounded s
            (record s { seen = id ∷ s.seen; queue = s.queue ++ ((id, suc depth) ∷ []) })
            (contains s.seen id || s.truncated && leb limits.max_edges_out (length s.edges)) b
            (λ free. record {
              bounded = b.bounded;
              placed = b.placed;
              waiting =
                  append-Placed g limits inbound seeds s.queue id (suc depth) le
                    (hop node e reached near) b.waiting;
              joined = b.joined;
              keyed = b.keyed;
            })

      follow_edges-IsBounded :
          (edges : List Edge) (s : Walked)
          → ((e : Edge) → Mem e edges → Mem e (g.sorted_neighbors inbound node))
          → IsBounded s
          → IsBounded (follow_edges g limits depth edges s)
      unfolding follow_edges follow_edge
      follow_edges-IsBounded [] s near b = b
      follow_edges-IsBounded (e ∷ edges) s near b =
          let here = near e mem-cons_self in
          let recorded = record_edge g limits depth e s in
          let next = if contains s.edge_seen (edge_key e) then s else recorded in
          follow_edges-IsBounded edges (enqueue_target g limits depth e next)
            (λ f h. near f (mem-cons_of_mem e h))
            (enqueue_target-IsBounded e next here (
              choose-P IsBounded s recorded (contains s.edge_seen (edge_key e)) b
                (λ new. record_edge-IsBounded e s here new b)))

    expand_node-IsBounded :
        (s : Walked)
        → depth ≤ limits.max_depth
        → IsBounded s
        → IsBounded (expand_node g limits inbound node depth s)
    unfolding expand_node
    expand_node-IsBounded s le b =
        let t : Walked = record s { depths = set_depth node depth s.depths } in
        let bt : IsBounded t = record {
          bounded = b.bounded;
          placed = set_depth-Placed g limits inbound seeds node depth s.depths le reached b.placed;
          waiting = b.waiting;
          joined = set_depth-Joined g limits inbound seeds node depth s.depths s.edges b.joined;
          keyed = b.keyed;
        } in
        elim (Bool-cases (leb limits.max_depth depth)) [
          | inl deep ↦ rw deep bt
          | inr shallow ↦ rw shallow (
              follow_edges-IsBounded (ground arith) (g.sorted_neighbors inbound node) t (λ e h. h)
                bt)
        ]

  walk_loop-IsBounded :
      (left : ℕ) (depths : Map Bytes ℕ) (edges : List Edge) (edge_seen seen : List Bytes)
      (queue : List (Bytes × ℕ)) (truncated : Bool)
      → IsBounded (record {
        depths = depths;
        edges = edges;
        edge_seen = edge_seen;
        seen = seen;
        queue = queue;
        truncated = truncated;
      })
      → IsBounded (
          walk_loop g limits inbound left (record {
            depths = depths;
            edges = edges;
            edge_seen = edge_seen;
            seen = seen;
            queue = queue;
            truncated = truncated;
          }))
  unfolding walk_loop
  walk_loop-IsBounded zero depths edges edge_seen seen [] truncated b = b
  walk_loop-IsBounded zero depths edges edge_seen seen (item ∷ queue) truncated b = record {
    bounded = b.bounded;
    placed = b.placed;
    waiting = b.waiting.1;
    joined = b.joined;
    keyed = b.keyed;
  }
  walk_loop-IsBounded (suc left) depths edges edge_seen seen [] truncated b = b
  walk_loop-IsBounded (suc left) depths edges edge_seen seen (item ∷ queue) truncated b =
      let s : Walked = record {
        depths = depths;
        edges = edges;
        edge_seen = edge_seen;
        seen = seen;
        queue = queue;
        truncated = truncated;
      } in
      let t = expand_node g limits inbound item.0 item.1 s in
      walk_loop-IsBounded left t.depths t.edges t.edge_seen t.seen t.queue t.truncated (
        expand_node-IsBounded item.0 item.1 b.waiting.0.1 s b.waiting.0.0 (record {
          bounded = b.bounded;
          placed = b.placed;
          waiting = b.waiting.1;
          joined = b.joined;
          keyed = b.keyed;
        }))

  -- For every graph, limits and seeds, and in both modes, the walk around the seeds keeps at most
  -- as many edges as the limit says, no two with the same key, and the target of every kept edge has a depth. Every node
  -- with a depth is within the depth limit, and a walk of as many edges as its depth leads to it
  -- from a seed.
  pub bfs_walk-IsBounded : IsBounded (bfs_walk g limits inbound seeds)
  unfolding bfs_walk
  bfs_walk-IsBounded =
      walk_loop-IsBounded limits.max_visit_nodes [] [] [] seeds (map (λ a. (a, 0)) seeds) false
        (record {
          bounded = omega arith;
          placed = tt;
          waiting = seeds-Placed g limits inbound seeds seeds (λ a h. h);
          joined = tt;
          keyed = record { distinct = tt; known = λ k h. absurd (ground (arith, h)) };
        })
