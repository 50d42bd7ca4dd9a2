-- ===== src/Graph/Walk/Distance.antt =====
-- The breadth-first search in internal/graph/graph.go, by the length of every walk.
use semidx.Prelude.{
  ℕ, zero, suc, ◌+◌, ◌≤◌, ◌≡◌, refl, Bool, true, false, Option, some, List, [], ◌∷◌, length, leb,
  arith, All, inl, inr, Bool-cases,
}
use semidx.Prelude.Bytes.{Bytes, bytes_beq, bytes_beq_iff, bytes_eq}
use semidx.Prelude.Map
use semidx.Graph.Walk.{
  Edge, Graph, Budget, path_depth, path_visits, Search, Outcome, walked, missed, Parents,
  after_visit, bfs_loop, bfs, visit,
}
use semidx.Graph.Walk.Parents.{IsWalk, arrived, origin, reconstruct_from-IsWalk}
use semidx.Graph.Walk.Frontier.{Reach, start, IsWalk-Reach, walk-All, seen_within, IsFrontier}
use semidx.Graph.Walk.Shortest.{IsState, Step, visit-Step}

-- Every walk between the ends that meets no empty node has at least `n` edges.
abbrev pub Beyond : Graph → Bool → Bytes → Bytes → ℕ → Type 0
Beyond g undirected from to n =
    (hops : List Bytes) (edges : List Edge)
    → IsWalk g undirected from hops edges to
    → All (λ h. bytes_beq h [] ≡ false) hops
    → n ≤ length edges

module _ (g : Graph) (from to : Bytes) (undirected : Bool) where
  Reach-Beyond :
      (n : ℕ) → ((m : ℕ) → Reach g undirected from to m → n ≤ m) → Beyond g undirected from to n
  Reach-Beyond n least hops edges w given =
      let first = walk-All g undirected from (λ h. bytes_beq h [] ≡ false) w given in
      let le : n ≤ 0 + length edges =
        least (0 + length edges) (IsWalk-Reach g undirected from 0 (start first) given w) in
      omega arith

  module _ (max_depth : ℕ) where
    -- a walk as short as any, or none within the depth limit unless the search was cut short
    abbrev pub IsShortest : Outcome → Type 0
    IsShortest (walked hops edges) = Beyond g undirected from to (length edges)
    IsShortest (missed true) = Unit
    IsShortest (missed false) = Beyond g undirected from to (suc max_depth)

    empty-IsShortest :
        (lo : ℕ) (seen : List Bytes) (parent : Parents)
        → IsState g undirected from to max_depth lo
            (record { seen = seen; parent = parent; queue = [] })
        → IsShortest (missed false)
    empty-IsShortest lo seen parent v =
        let s : Search = record { seen = seen; parent = parent; queue = [] } in
        let f : IsFrontier g undirected from to max_depth max_depth s = record {
          begun = v.frontier.begun;
          apart = v.frontier.apart;
          rising = tt;
          least = tt;
          settled = v.frontier.settled;
        } in
        Reach-Beyond (suc max_depth) (λ m r. elim (Bool-cases (leb m max_depth)) [
          | inl near ↦
              let le : m ≤ max_depth = ground arith in
              let h = seen_within g undirected from to max_depth max_depth s f to m r le le in
              let no = f.apart in ground arith
          | inr far ↦ ground arith
        ])

    after_visit-IsShortest :
        (depth : ℕ) (next : Search → Option Outcome) (r : Bool × Search)
        → Step g undirected from to max_depth depth r
        → ((s : Search)
            → IsState g undirected from to max_depth depth s
            → (o : Outcome) × (next s ≡ some o) × IsShortest o)
        → (o : Outcome) × (after_visit g from to undirected max_depth next r ≡ some o)
          × IsShortest o
    unfolding after_visit
    after_visit-IsShortest depth next (true, s) (n, small, linked, least, le) later =
        let (hs, es, run, whole, count) =
          reconstruct_from-IsWalk g undirected from max_depth s.parent [] [] linked (omega arith)
            (arrived to) in
        let count : length es ≡ n = omega arith in
        (
          walked hs es,
          run,
          Reach-Beyond (length es) (λ m r. let h : suc depth ≤ m = least m r in omega arith),
        )
    after_visit-IsShortest depth next (false, s) v later = later s v

    bfs_loop-IsShortest :
        (left lo : ℕ) (seen : List Bytes) (parent : Parents) (queue : List (Bytes × ℕ))
        → IsState g undirected from to max_depth lo
            (record { seen = seen; parent = parent; queue = queue })
        → (o : Outcome) × (bfs_loop g from to undirected max_depth left
              (record { seen = seen; parent = parent; queue = queue })
            ≡ some o)
          × IsShortest o
    unfolding bfs_loop
    bfs_loop-IsShortest zero lo seen parent [] v =
        (missed false, refl, empty-IsShortest lo seen parent v)
    bfs_loop-IsShortest zero lo seen parent (item ∷ queue) v = (missed true, refl, tt)
    bfs_loop-IsShortest (suc left) lo seen parent [] v =
        (missed false, refl, empty-IsShortest lo seen parent v)
    bfs_loop-IsShortest (suc left) lo seen parent (item ∷ queue) v =
        let s : Search = record { seen = seen; parent = parent; queue = queue } in
        after_visit-IsShortest item.1 (bfs_loop g from to undirected max_depth left)
          (visit g from to undirected max_depth item.0 item.1 s)
          (visit-Step g undirected from to max_depth lo item.0 item.1 seen parent queue v)
          (λ t u. bfs_loop-IsShortest left item.1 t.seen t.parent t.queue u)

  pub bfs-IsShortest :
      (budget : Budget)
      → bytes_beq from to ≡ false
      → (o : Outcome) × (bfs g from to budget undirected ≡ some o)
        × IsShortest (path_depth budget) o
  unfolding bfs Map.lookup
  bfs-IsShortest budget apart =
      bfs_loop-IsShortest (path_depth budget) (path_visits budget) 0 (from ∷ []) [] ((from, 0) ∷ [])
        (record {
          search = record {
            unseen = λ k h. (ground (arith, bytes_beq_iff from k, bytes_beq_iff k from), refl);
            queued = (origin, tt);
          };
          frontier = record {
            begun = ground (arith, bytes_beq_iff from from);
            apart = ground arith;
            rising = (omega arith, omega arith, tt);
            least = (λ m r. omega arith, tt);
            settled = λ k h. inl (ground arith);
          };
        })
