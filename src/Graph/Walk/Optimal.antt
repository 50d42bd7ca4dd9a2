-- ===== src/Graph/Walk/Optimal.antt =====
-- The result of `ShortestPath` in internal/graph/graph.go against every walk.
use semidx.Prelude.{
  ℕ, suc, ◌≡◌, refl, Bool, true, false, not, ◌||◌, some, [], ◌∷◌, arith, inl, inr, Bool-cases,
}
use semidx.Prelude.Bytes.{Bytes, bytes_beq, bytes_eq}
use semidx.Graph.Walk.{
  Graph, Budget, path_depth, Outcome, walked, missed, PathResult, result, after_undirected,
  after_directed, find_path, shortest_path,
}
use semidx.Graph.Walk.Frontier.{walk-All, walk_last-All}
use semidx.Graph.Walk.Distance.{Beyond, IsShortest, bfs-IsShortest}

-- How far the result of a search is from the best: a path is no longer than any walk of its kind;
-- without a path there is none within the depth limit, unless the search was cut short; and edges
-- are followed backwards only if there is no walk along them.
pub record IsOptimal (g : Graph) (from to : Bytes) (max_depth : ℕ) (allow_undirected : Bool)
    (r : PathResult) : Type 0 where
  pub least : r.found ≡ true → Beyond g (not r.directed) from to r.length
  pub none_within :
      r.found ≡ false
      → r.truncated ≡ false
      → Beyond g false from to (suc max_depth)
        × (allow_undirected ≡ true → Beyond g true from to (suc max_depth))
  pub directed_first :
      r.found ≡ true
      → r.directed ≡ false
      → r.truncated ≡ false
      → Beyond g false from to (suc max_depth)

module _ (g : Graph) (from to : Bytes) (budget : Budget) where
  after_undirected-IsOptimal :
      (truncated : Bool) (o : Outcome)
      → (truncated ≡ false → Beyond g false from to (suc (path_depth budget)))
      → IsShortest g from to true (path_depth budget) o
      → (r : PathResult) × (after_undirected g from to truncated (some o) ≡ some r)
        × IsOptimal g from to (path_depth budget) true r
  unfolding after_undirected
  after_undirected-IsOptimal truncated (walked hops edges) first w =
      (_, refl, record { least = λ h. w; none_within = λ h. cc; directed_first = λ h k. first })
  after_undirected-IsOptimal false (missed false) first w = (
    _,
    refl,
    record { least = λ h. cc; none_within = λ h k. (first refl, λ a. w); directed_first = λ h. cc },
  )
  after_undirected-IsOptimal false (missed true) first w =
      (_, refl, record { least = λ h. cc; none_within = λ h k. cc; directed_first = λ h. cc })
  after_undirected-IsOptimal true (missed more) first w =
      (_, refl, record { least = λ h. cc; none_within = λ h k. cc; directed_first = λ h. cc })

  missed_first :
      (truncated : Bool)
      → IsShortest g from to false (path_depth budget) (missed truncated)
      → truncated ≡ false
      → Beyond g false from to (suc (path_depth budget))
  missed_first false w h = w
  missed_first true w h = cc

  after_directed-IsOptimal :
      (allow_undirected : Bool) (o : Outcome)
      → bytes_beq from to ≡ false
      → IsShortest g from to false (path_depth budget) o
      → (r : PathResult) × (after_directed g from to budget allow_undirected (some o) ≡ some r)
        × IsOptimal g from to (path_depth budget) allow_undirected r
  unfolding after_directed
  after_directed-IsOptimal allow_undirected (walked hops edges) apart w =
      (_, refl, record { least = λ h. w; none_within = λ h. cc; directed_first = λ h. cc })
  after_directed-IsOptimal true (missed truncated) apart w =
      let (o, run, good) = bfs-IsShortest g from to true budget apart in
      rw run (after_undirected-IsOptimal truncated o (missed_first truncated w) good)
  after_directed-IsOptimal false (missed truncated) apart w = (
    _,
    refl,
    record {
      least = λ h. cc;
      none_within = λ h k. (missed_first truncated w k, λ a. cc);
      directed_first = λ h. cc;
    },
  )

  -- a walk has two ends, which are among its nodes
  empty_end-Beyond :
      (undirected : Bool) (n : ℕ)
      → (bytes_beq from [] || bytes_beq to []) ≡ true
      → Beyond g undirected from to n
  empty_end-Beyond undirected n empty hops edges w given =
      let first = walk-All g undirected from (λ h. bytes_beq h [] ≡ false) w given in
      let last = walk_last-All g undirected from (λ h. bytes_beq h [] ≡ false) w given in
      ground arith

  find_path-IsOptimal :
      (allow_undirected : Bool)
      → (r : PathResult) × (find_path g from to budget allow_undirected ≡ some r)
        × IsOptimal g from to (path_depth budget) allow_undirected r
  unfolding find_path
  find_path-IsOptimal allow_undirected = elim (Bool-cases (bytes_beq from [] || bytes_beq to [])) [
    | inl empty ↦ (
      result g from to false true [] [] false,
      rw empty refl,
      record {
        least = λ h. cc;
        none_within = λ h k. (
          empty_end-Beyond false (suc (path_depth budget)) empty,
          λ a. empty_end-Beyond true (suc (path_depth budget)) empty,
        );
        directed_first = λ h. cc;
      },
    )
    | inr given ↦ elim (Bool-cases (bytes_beq from to)) [
      | inl same ↦ (
        result g from to true true (from ∷ []) [] false,
        rw (given, same) refl,
        record {
          least = λ h hops edges w all. omega arith;
          none_within = λ h. cc;
          directed_first = λ h. cc;
        },
      )
      | inr apart ↦
          let (o, run, good) = bfs-IsShortest g from to false budget apart in
          rw (given, apart, run) (after_directed-IsOptimal allow_undirected o apart good)
    ]
  ]

-- On every graph and for every budget `ShortestPath` ends with a path that is no longer than any
-- walk of its kind (along the edges, or in both directions) between the normalized ends on which no
-- node is empty. A result that was not truncated and found no path means that each such walk is
-- longer than the depth limit, in both directions too if they are allowed. A path that goes against
-- edges, with a search that was not truncated, means the same of the walks along the edges.
pub shortest_path-IsOptimal :
    (g : Graph) (from to : Bytes) (budget : Budget) (allow_undirected : Bool)
    → (r : PathResult) × (shortest_path g from to budget allow_undirected ≡ some r)
      × IsOptimal g (g.normalize from) (g.normalize to) (path_depth budget) allow_undirected r
unfolding shortest_path
shortest_path-IsOptimal g from to budget allow_undirected =
    find_path-IsOptimal g (g.normalize from) (g.normalize to) budget allow_undirected
