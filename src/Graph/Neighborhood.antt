-- ===== src/Graph/Neighborhood.antt =====
-- `Subgraph` and `Neighborhood` of internal/graph/graph.go: the breadth-first walk around seeds. The
-- graph is a parameter, as for the path search: its neighbors may stand in any order.
pub mod Placed
pub mod Bounds
mod Tests
use semidx.Prelude.{
  ℕ, zero, suc, ◌+◌, Bool, true, false, not, ◌&&◌, ◌||◌, Option, none, some, List, [], ◌∷◌, ◌++◌,
  map, length, leb, ltb, take, ◌==◌, if◌then◌else◌,
}
use semidx.Prelude.Eq.{contains}
use semidx.Prelude.Bytes.{Bytes, codes, bytes_beq, bytes_eq, bytes_lt}
use semidx.Prelude.Int.{ℤ, positive_or}
use semidx.Prelude.Map
use semidx.Prelude.Map.{Map, has, or_zero}
use semidx.Prelude.Paths.{base, trim_suffix}
use semidx.Graph.Walk.{Edge, Graph, Budget, default_max_visit_nodes}
use semidx.Graph.Index.{Index, is_package_dir}

abbrev pub default_subgraph_depth : ℕ
default_subgraph_depth = 2

abbrev pub default_max_edges_out : ℕ
default_max_edges_out = 500

-- the limits that `withSubgraphDefaults` leaves in force
pub record Limits : Type 0 where
  pub max_depth : ℕ
  pub max_visit_nodes : ℕ
  pub max_edges_out : ℕ

pub record Node : Type 0 where
  pub id : Bytes
  pub label : Bytes
  pub is_package : Bool
  pub seed : Bool
  pub depth : ℕ
  pub degree_in : ℕ
  pub degree_out : ℕ

-- what `bfsWalk` changes
pub record Walked : Type 0 where
  pub depths : Map Bytes ℕ
  pub edges : List Edge
  pub edge_seen : List Bytes
  pub seen : List Bytes
  pub queue : List (Bytes × ℕ)
  pub truncated : Bool

unfoldable pub edge_key : Edge → Bytes
edge_key e = e.source ++ (0 ∷ (e.target ++ (0 ∷ e.kind)))

-- `if _, known := depths[id]; !known { depths[id] = depth }`
unfoldable pub set_depth : Bytes → ℕ → Map Bytes ℕ → Map Bytes ℕ
set_depth id depth depths = if has id depths then depths else Map.insert id depth depths

module _ (g : Graph) (limits : Limits) where
  -- an edge whose key was not seen
  pub record_edge : ℕ → Edge → Walked → Walked
  unfolding set_depth edge_key
  record_edge depth edge s =
      let full = leb limits.max_edges_out (length s.edges) in
      record s {
        edge_seen = edge_key edge ∷ s.edge_seen;
        truncated = s.truncated || full;
        edges = if full then s.edges else s.edges ++ (edge ∷ []);
        depths =
            if full then s.depths else set_depth (g.normalize edge.target) (suc depth) s.depths;
      }

  pub enqueue_target : ℕ → Edge → Walked → Walked
  enqueue_target depth edge s =
      let target = g.normalize edge.target in
      if contains s.seen target || s.truncated && leb limits.max_edges_out (length s.edges)
      then s
      else record s { seen = target ∷ s.seen; queue = s.queue ++ ((target, suc depth) ∷ []) }

  pub follow_edge : ℕ → Edge → Walked → Walked
  unfolding record_edge enqueue_target edge_key
  follow_edge depth edge s =
      enqueue_target depth edge
        (if contains s.edge_seen (edge_key edge) then s else record_edge depth edge s)

  pub follow_edges : ℕ → List Edge → Walked → Walked
  unfolding follow_edge
  follow_edges depth [] s = s
  follow_edges depth (edge ∷ edges) s = follow_edges depth edges (follow_edge depth edge s)

  module _ (inbound : Bool) where
    -- a node off the queue
    pub expand_node : Bytes → ℕ → Walked → Walked
    unfolding follow_edges set_depth
    expand_node node depth s =
        let t : Walked = record s { depths = set_depth node depth s.depths } in
        if leb limits.max_depth depth
        then t
        else follow_edges depth (g.sorted_neighbors inbound node) t

    -- the loop, with the number of visits that are left
    pub walk_loop : ℕ → Walked → Walked
    unfolding expand_node
    walk_loop zero s = elim s.queue [
      | [] ↦ s
      | item ∷ queue ↦ record s { queue = queue; truncated = true }
    ]
    walk_loop (suc left) s = elim s.queue [
      | [] ↦ s
      | item ∷ queue ↦ walk_loop left (expand_node item.0 item.1 (record s { queue = queue }))
    ]

    unfoldable pub bfs_walk : List Bytes → Walked
    unfolding walk_loop
    bfs_walk seeds = walk_loop limits.max_visit_nodes (record {
      depths = [];
      edges = [];
      edge_seen = [];
      seen = seeds;
      queue = map (λ seed. (seed, 0)) seeds;
      truncated = false;
    })

abbrev pub with_subgraph_defaults : Budget → ℤ → Limits
with_subgraph_defaults b max_edges_out = record {
  max_depth = positive_or default_subgraph_depth b.max_depth;
  max_visit_nodes = positive_or default_max_visit_nodes b.max_visit_nodes;
  max_edges_out = positive_or default_max_edges_out max_edges_out;
}

-- `++` on the values of a map
abbrev pub add_degree : Bytes → ℕ → Map Bytes ℕ → Map Bytes ℕ
add_degree id n degrees = Map.insert id (or_zero (Map.lookup id degrees) + n) degrees

abbrev pub count_each : List Bytes → Map Bytes ℕ → Map Bytes ℕ
count_each [] degrees = degrees
count_each (id ∷ ids) degrees = count_each ids (add_degree id 1 degrees)

abbrev pub degrees_in : Map Bytes (List Bytes) → Map Bytes ℕ → Map Bytes ℕ
degrees_in [] degrees = degrees
degrees_in ((id, ids) ∷ m) degrees = degrees_in m (count_each ids degrees)

-- `outDeg[file] = len(targets)` for the files, and `+=` for the packages
abbrev pub degrees_out : Bool → Map Bytes (List Bytes) → Map Bytes ℕ → Map Bytes ℕ
degrees_out adds [] degrees = degrees
degrees_out adds ((id, ids) ∷ m) degrees =
    degrees_out adds m
      (if adds then add_degree id (length ids) degrees else Map.insert id (length ids) degrees)

abbrev pub degree_maps : Index → Map Bytes ℕ × Map Bytes ℕ
degree_maps idx = (
  degrees_in idx.files_in_pkg (degrees_in idx.out []),
  degrees_out true idx.files_in_pkg (degrees_out false idx.out []),
)

-- the file with the more targets first, then by name
abbrev pub hub_before : Bytes × List Bytes → Bytes × List Bytes → Bool
hub_before a b =
    if length a.1 == length b.1 then bytes_lt a.0 b.0 else ltb (length b.1) (length a.1)

abbrev pub insert_hub : Bytes × List Bytes → Map Bytes (List Bytes) → Map Bytes (List Bytes)
insert_hub a [] = a ∷ []
insert_hub a (b ∷ hubs) = if hub_before b a then b ∷ insert_hub a hubs else a ∷ b ∷ hubs

abbrev pub sort_hubs : Map Bytes (List Bytes) → Map Bytes (List Bytes)
sort_hubs [] = []
sort_hubs (a ∷ hubs) = insert_hub a (sort_hubs hubs)

abbrev pub hub_seeds : ℕ → Index → List Bytes
hub_seeds n idx = map (λ a. a.0) (take n (sort_hubs idx.out))

-- `resolveSeeds`
abbrev pub resolve_seeds : Graph → Index → Bytes → List Bytes
resolve_seeds g idx seed =
    if bytes_beq (g.normalize seed) [] then hub_seeds 16 idx else g.normalize seed ∷ []

-- the nodes of the result, before they are sorted
abbrev pub nodes_of : Index → List Bytes → Map Bytes ℕ → List Node
nodes_of idx seeds [] = []
nodes_of idx seeds ((id, depth) ∷ depths) =
    record {
      id = id;
      label = base (trim_suffix id (codes "/"));
      is_package = is_package_dir id;
      seed = contains seeds id;
      depth = depth;
      degree_in = or_zero (Map.lookup id (degree_maps idx).0);
      degree_out = or_zero (Map.lookup id (degree_maps idx).1);
    }
    ∷ nodes_of idx seeds depths

pub record SubgraphResult : Type 0 where
  pub nodes : List Node
  pub edges : List Edge
  pub truncated : Bool

-- `neighborhood`, before the nodes and the edges are sorted; `MaxEdgesOut` of the budget stands by
-- itself
unfoldable pub neighborhood : Graph → Index → Budget → ℤ → Bytes → Bool → SubgraphResult
unfolding bfs_walk base trim_suffix is_package_dir
neighborhood g idx budget max_edges_out seed inbound =
    let limits = with_subgraph_defaults budget max_edges_out in
    let seeds = resolve_seeds g idx seed in
    let walked = bfs_walk g limits inbound seeds in
    record {
      nodes = nodes_of idx seeds walked.depths;
      edges = walked.edges;
      truncated = walked.truncated;
    }
