-- ===== src/Graph/Walk/Found.antt =====
-- A path that is found is a walk in the graph, within the depth limit.
use semidx.Prelude.{
  ℕ, ◌≤◌, ◌≡◌, refl, subst, Bool, true, false, not, ◌||◌, some, [], ◌∷◌, length, arith, inl, inr,
  Bool-cases,
}
use semidx.Prelude.Bytes.{Bytes, bytes_beq, bytes_beq_iff, bytes_eq}
use semidx.Graph.Walk.{
  Graph, Budget, path_depth, Outcome, walked, missed, PathResult, result, after_undirected,
  after_directed, find_path, shortest_path,
}
use semidx.Graph.Walk.Parents.{IsWalk, arrived}
use semidx.Graph.Walk.Visits.{IsOutcome, bfs-IsOutcome}

-- The result of a search from `from` to `to`: if it is found, the hops are a walk from the one to
-- the other, along the edges or, where the result says that it is not directed, along the edges in
-- both directions, within the depth limit.
pub record IsPath (g : Graph) (from to : Bytes) (max_depth : ℕ) (r : PathResult) : Type 0 where
  pub walks : r.found ≡ true → IsWalk g (not r.directed) from r.hops r.edges to
  pub within : r.length ≤ max_depth
  pub counted : r.length ≡ length r.edges

module _ (g : Graph) (from to : Bytes) (budget : Budget) where
  missed-IsPath :
      (truncated : Bool)
      → IsPath g from to (path_depth budget) (result g from to false true [] [] truncated)
  missed-IsPath truncated = record { walks = λ h. cc; within = omega arith; counted = refl }

  after_undirected-IsPath :
      (truncated : Bool) (o : Outcome)
      → IsOutcome g from to true (path_depth budget) o
      → (r : PathResult) × (after_undirected g from to truncated (some o) ≡ some r)
        × IsPath g from to (path_depth budget) r
  unfolding after_undirected
  after_undirected-IsPath truncated (walked hops edges) (w, le) =
      (_, refl, record { walks = λ h. w; within = le; counted = refl })
  after_undirected-IsPath truncated (missed more) h = (_, refl, missed-IsPath (truncated || more))

  after_directed-IsPath :
      (allow_undirected : Bool) (o : Outcome)
      → IsOutcome g from to false (path_depth budget) o
      → (r : PathResult) × (after_directed g from to budget allow_undirected (some o) ≡ some r)
        × IsPath g from to (path_depth budget) r
  unfolding after_directed
  after_directed-IsPath allow_undirected (walked hops edges) (w, le) =
      (_, refl, record { walks = λ h. w; within = le; counted = refl })
  after_directed-IsPath true (missed truncated) h =
      let (o, run, good) = bfs-IsOutcome g from to true budget in
      rw run (after_undirected-IsPath truncated o good)
  after_directed-IsPath false (missed truncated) h = (_, refl, missed-IsPath truncated)

  find_path-IsPath :
      (allow_undirected : Bool)
      → (r : PathResult) × (find_path g from to budget allow_undirected ≡ some r)
        × IsPath g from to (path_depth budget) r
  unfolding find_path
  find_path-IsPath allow_undirected = elim (Bool-cases (bytes_beq from [] || bytes_beq to [])) [
    | inl empty ↦ (result g from to false true [] [] false, rw empty refl, missed-IsPath false)
    | inr given ↦ elim (Bool-cases (bytes_beq from to)) [
      | inl same ↦ (
        result g from to true true (from ∷ []) [] false,
        rw (given, same) refl,
        record {
          walks = λ h.
              subst (IsWalk g false from (from ∷ []) []) ((bytes_beq_iff from to).0 same)
                (arrived from);
          within = omega arith;
          counted = refl;
        },
      )
      | inr apart ↦
          let (o, run, good) = bfs-IsOutcome g from to false budget in
          rw (given, apart, run) (after_directed-IsPath allow_undirected o good)
    ]
  ]

-- `ShortestPath` ends on every graph and for every budget, and a path that it finds is a walk
-- between the normalized ends within the depth limit of the budget, or of its default: each hop is
-- reached by an edge among the neighbors of the hop before.
pub shortest_path-IsPath :
    (g : Graph) (from to : Bytes) (budget : Budget) (allow_undirected : Bool)
    → (r : PathResult) × (shortest_path g from to budget allow_undirected ≡ some r)
      × IsPath g (g.normalize from) (g.normalize to) (path_depth budget) r
unfolding shortest_path
shortest_path-IsPath g from to budget allow_undirected =
    find_path-IsPath g (g.normalize from) (g.normalize to) budget allow_undirected
