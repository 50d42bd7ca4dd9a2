-- ===== src/Graph/Walk.antt =====
-- The search of a shortest path in internal/graph/graph.go. The index is a parameter: a `Graph` has
-- `sortedNeighbors` by its Boolean `undirected`, and `Normalize`.
pub mod Parents
pub mod Visits
pub mod Found
pub mod Frontier
pub mod Expand
pub mod Shortest
pub mod Distance
pub mod Optimal
mod Tests
use semidx.Prelude.{
  ℕ, zero, suc, ◌+◌, Bool, true, false, not, ◌||◌, Option, none, some, List, [], ◌∷◌, ◌++◌, length,
  leb, if◌then◌else◌,
}
use semidx.Prelude.Eq.{contains}
use semidx.Prelude.Bytes.{Bytes, bytes_beq, bytes_eq}
use semidx.Prelude.Int.{ℤ, positive_or}
use semidx.Prelude.Map
use semidx.Prelude.Map.{Map}

pub record Edge : Type 0 where
  pub source : Bytes
  pub target : Bytes
  pub kind : Bytes
  pub reverse : Bool

pub record Graph : Type 0 where
  pub sorted_neighbors : Bool → Bytes → List Edge
  pub normalize : Bytes → Bytes

pub record Budget : Type 0 where
  pub max_depth : ℤ
  pub max_visit_nodes : ℤ

abbrev pub default_path_max_depth : ℕ
default_path_max_depth = 8

abbrev pub default_max_visit_nodes : ℕ
default_max_visit_nodes = 10_000

-- the limits that `withPathDefaults` leaves in force for a path
abbrev pub path_depth : Budget → ℕ
path_depth b = positive_or default_path_max_depth b.max_depth

abbrev pub path_visits : Budget → ℕ
path_visits b = positive_or default_max_visit_nodes b.max_visit_nodes

pub record PathResult : Type 0 where
  pub from : Bytes
  pub to : Bytes
  pub found : Bool
  pub directed : Bool
  pub hops : List Bytes
  pub edges : List Edge
  pub length : ℕ
  pub truncated : Bool

-- `bfsParent`: the node before and the edge
abbrev pub Parents : Type 0
Parents = Map Bytes (Bytes × Edge)

-- what `bfs` changes
pub record Search : Type 0 where
  pub seen : List Bytes
  pub parent : Parents
  pub queue : List (Bytes × ℕ)

-- what `bfs` returns: the hops and the edges if it found the node, or whether it was truncated
pub data Outcome : Type 0 where
  walked : List Bytes → List Edge → Outcome
  missed : Bool → Outcome

module _ (g : Graph) (from to : Bytes) where
  -- the state after the node is seen, without the queue
  abbrev pub see : Bytes → Edge → Bytes → Search → Search
  see next edge node s = record s {
    seen = next ∷ s.seen;
    parent = Map.insert next (node, edge) s.parent;
  }

  abbrev pub push : Bytes → ℕ → Search → Search
  push next depth s = record s { queue = s.queue ++ ((next, depth) ∷ []) }

  -- `enqueueBFSNeighbors`: whether the node was found, and the state
  pub enqueue_bfs_neighbors : Bytes → ℕ → List Edge → Search → Bool × Search
  enqueue_bfs_neighbors node depth [] s = (false, s)
  enqueue_bfs_neighbors node depth (edge ∷ edges) s =
      let next = g.normalize edge.target in
      let skipped = bytes_beq next [] || contains s.seen next in
      let t = see next edge node s in
      let rest =
        enqueue_bfs_neighbors node depth edges (if skipped then s else push next (suc depth) t) in
      if skipped then rest else if bytes_beq next to then (true, t) else rest

  -- the loop of `reconstruct` from a node on, with the hops and the edges behind it; `none` is fuel
  -- that ran out
  pub reconstruct_from : ℕ → Parents → Bytes → List Bytes → List Edge → Option Outcome
  reconstruct_from zero parent node hops edges =
      if bytes_beq node from then some (walked (from ∷ hops) edges) else none
  reconstruct_from (suc fuel) parent node hops edges =
      if bytes_beq node from
      then some (walked (from ∷ hops) edges)
      else elim (Map.lookup node parent) [
        | none ↦ some (missed false)
        | some p ↦ reconstruct_from fuel parent p.0 (node ∷ hops) (p.1 ∷ edges)
      ]

  module _ (undirected : Bool) (max_depth : ℕ) where
    -- a node off the queue: whether `to` was found, and the state
    pub visit : Bytes → ℕ → Search → Bool × Search
    unfolding enqueue_bfs_neighbors
    visit node depth s =
        if leb max_depth depth
        then (false, s)
        else enqueue_bfs_neighbors node depth (g.sorted_neighbors undirected node) s

    pub after_visit : (Search → Option Outcome) → Bool × Search → Option Outcome
    unfolding reconstruct_from
    after_visit next (true, s) = reconstruct_from max_depth s.parent to [] []
    after_visit next (false, s) = next s

    -- the loop of `bfs`, with the number of visits that are left
    pub bfs_loop : ℕ → Search → Option Outcome
    unfolding visit after_visit
    bfs_loop zero s = elim s.queue [ [] ↦ some (missed false) | item ∷ queue ↦ some (missed true) ]
    bfs_loop (suc left) s = elim s.queue [
      | [] ↦ some (missed false)
      | item ∷ queue ↦
          after_visit (bfs_loop left) (visit item.0 item.1 (record s { queue = queue }))
    ]

  pub bfs : Budget → Bool → Option Outcome
  unfolding bfs_loop
  bfs budget undirected =
      bfs_loop undirected (path_depth budget) (path_visits budget)
        (record { seen = from ∷ []; parent = []; queue = (from, 0) ∷ [] })

  abbrev pub result : Bool → Bool → List Bytes → List Edge → Bool → PathResult
  result found directed hops edges truncated = record {
    from = from;
    to = to;
    found = found;
    directed = directed;
    hops = hops;
    edges = edges;
    length = length edges;
    truncated = truncated;
  }

  pub after_undirected : Bool → Option Outcome → Option PathResult
  after_undirected truncated none = none
  after_undirected truncated (some (walked hops edges)) =
      some (result true false hops edges truncated)
  after_undirected truncated (some (missed more)) =
      some (result false true [] [] (truncated || more))

  pub after_directed : Budget → Bool → Option Outcome → Option PathResult
  unfolding after_undirected bfs
  after_directed budget allow_undirected none = none
  after_directed budget allow_undirected (some (walked hops edges)) =
      some (result true true hops edges false)
  after_directed budget allow_undirected (some (missed truncated)) =
      if allow_undirected
      then after_undirected truncated (bfs budget true)
      else some (result false true [] [] truncated)

  -- `ShortestPath` for normalized ends
  pub find_path : Budget → Bool → Option PathResult
  unfolding after_directed bfs
  find_path budget allow_undirected =
      if bytes_beq from [] || bytes_beq to []
      then some (result false true [] [] false)
      else if bytes_beq from to
      then some (result true true (from ∷ []) [] false)
      else after_directed budget allow_undirected (bfs budget false)

unfoldable pub shortest_path : Graph → Bytes → Bytes → Budget → Bool → Option PathResult
unfolding find_path
shortest_path g from to budget allow_undirected =
    find_path g (g.normalize from) (g.normalize to) budget allow_undirected
