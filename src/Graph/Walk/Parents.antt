-- ===== src/Graph/Walk/Parents.antt =====
-- The nodes that a parent map links to the begin of a search, and the walk that it holds.
use mathlib.Core.List.{Mem}
use semidx.Prelude.{
  ℕ, zero, suc, ◌+◌, ◌≤◌, ◌≡◌, refl, Bool, true, false, none, some, List, [], ◌∷◌, length, arith,
}
use semidx.Prelude.Bytes.{Bytes, bytes_beq, bytes_beq_iff, bytes_eq}
use semidx.Prelude.Map
use semidx.Prelude.Map.{Map, lookup-insert}
use semidx.Graph.Walk.{Edge, Graph, Parents, walked, reconstruct_from}

-- The hops go from `a` to `b`; each edge is one of a hop's neighbors and leads to the next hop.
pub data IsWalk (g : Graph) (undirected : Bool)
    : Bytes → List Bytes → List Edge → Bytes → Type 0 where
  arrived : (a : Bytes) → IsWalk g undirected a (a ∷ []) [] a
  walk :
      (a : Bytes) (e : Edge) {c b : Bytes} {hops : List Bytes} {edges : List Edge}
      → Mem e (g.sorted_neighbors undirected a)
      → g.normalize e.target ≡ c
      → IsWalk g undirected c hops edges b
      → IsWalk g undirected a (a ∷ hops) (e ∷ edges) b

module _ (g : Graph) (undirected : Bool) (from : Bytes) where
  -- the parent map leads from the node back to `from` in `n` steps
  pub data Links (parent : Parents) : Bytes → ℕ → Type 0 where
    origin : Links parent from 0
    link :
        (node prev : Bytes) (e : Edge) {n : ℕ}
        → bytes_beq node from ≡ false
        → Map.lookup node parent ≡ some (prev, e)
        → Mem e (g.sorted_neighbors undirected prev)
        → g.normalize e.target ≡ node
        → Links parent prev n
        → Links parent node (suc n)

  -- a link to a new node leaves the others
  pub Links-insert :
      (parent : Parents) (next : Bytes) (p : Bytes × Edge) {node : Bytes} {n : ℕ}
      → Map.lookup next parent ≡ none
      → Links parent node n
      → Links (Map.insert next p parent) node n
  Links-insert parent next p new origin = origin
  Links-insert parent next p new (link node prev e apart there near leads l) =
      link node prev e apart kept near leads (Links-insert parent next p new l)
    where
      kept : Map.lookup node (Map.insert next p parent) ≡ some (prev, e)
      kept = ground (arith, lookup-insert next node p parent, bytes_beq_iff next node)

  -- `reconstruct` ends with a walk from `from`, as long as the links and what is behind the node
  pub reconstruct_from-IsWalk :
      (fuel : ℕ) (parent : Parents) {node to : Bytes} {n : ℕ} (hops : List Bytes)
      (edges : List Edge)
      → Links parent node n
      → n ≤ fuel
      → IsWalk g undirected node (node ∷ hops) edges to
      → (hs : List Bytes) × (es : List Edge) × (reconstruct_from g from to fuel parent node hops
            edges
          ≡ some (walked hs es))
        × IsWalk g undirected from hs es to
        × (length es ≡ n + length edges)
  unfolding reconstruct_from
  reconstruct_from-IsWalk zero parent hops edges origin le w =
      let here : bytes_beq from from ≡ true = (bytes_beq_iff from from).1 refl in
      (from ∷ hops, edges, rw here refl, w, omega arith)
  reconstruct_from-IsWalk (suc fuel) parent hops edges origin le w =
      let here : bytes_beq from from ≡ true = (bytes_beq_iff from from).1 refl in
      (from ∷ hops, edges, rw here refl, w, omega arith)
  reconstruct_from-IsWalk zero parent hops edges (link node prev e apart there near leads l) le w =
      absurd (omega arith)
  reconstruct_from-IsWalk (suc fuel) parent hops edges (link node prev e apart there near leads l)
        le w =
      let (hs, es, run, whole, count) =
        reconstruct_from-IsWalk fuel parent (node ∷ hops) (e ∷ edges) l (omega arith)
          (walk prev e near leads w) in
      (hs, es, rw (apart, there) run, whole, omega arith)
