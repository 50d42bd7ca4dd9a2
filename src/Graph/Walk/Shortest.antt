-- ===== src/Graph/Walk/Shortest.antt =====
-- The distance of a path that the breadth-first search in internal/graph/graph.go finds.
use mathlib.Core.List.{Mem, not-mem-nil, forall_mem-cons}
use semidx.Prelude.{
  ℕ, suc, ◌≤◌, ◌≡◌, ◌⊎◌, sym, subst, Bool, true, false, ◌||◌, List, [], ◌∷◌, leb, arith, inl, inr,
  Bool-cases,
}
use semidx.Prelude.Eq.{contains}
use semidx.Prelude.Bytes.{Bytes, bytes_beq, bytes_beq_iff, bytes_eq}
use semidx.Graph.Walk.{Edge, Graph, Search, Parents, enqueue_bfs_neighbors, visit}
use semidx.Graph.Walk.Parents.{Links}
use semidx.Graph.Walk.Visits.{IsSearch, Visited, enqueue-Visited}
use semidx.Graph.Walk.Frontier.{
  Reach, Covered, Rising-widen, Least, Settled, IsFrontier, seen_within,
}
use semidx.Graph.Walk.Expand.{IsExpansion, Expanded, enqueue-Expanded}

module _ (g : Graph) (undirected : Bool) (from to : Bytes) where
  Covered-Mem :
      (seen : List Bytes) (edges : List Edge)
      → Covered g undirected from seen edges
      → (e : Edge) → Mem e edges
      → (bytes_beq (g.normalize e.target) [] || contains seen (g.normalize e.target)) ≡ true
  Covered-Mem seen [] c e h = absurd (not-mem-nil h)
  Covered-Mem seen (f ∷ edges) c e h =
      (forall_mem-cons (λ e. hlevel)).1 (c.0, Covered-Mem seen edges c.1) e h

  module _ (max_depth : ℕ) where
    -- between two visits
    pub record IsState (lo : ℕ) (s : Search) : Type 0 where
      pub search : IsSearch g from to undirected s
      pub frontier : IsFrontier g undirected from to max_depth lo s

    -- after a visit at `depth`
    abbrev pub Step : ℕ → Bool × Search → Type 0
    Step depth (true, t) =
        (n : ℕ) × (n ≤ suc depth)
        × Links g undirected from t.parent to n
        × Least g undirected from (to, suc depth)
        × (suc depth ≤ max_depth)
    Step depth (false, t) = IsState depth t

    -- the node was followed: with its edges covered it is settled like the others
    close_expansion :
        (node : Bytes) (depth : ℕ) (t : Search)
        → IsExpansion g undirected from to max_depth node depth t
        → Covered g undirected from t.seen (g.sorted_neighbors undirected node)
        → IsFrontier g undirected from to max_depth depth t
    close_expansion node depth t x c = record {
      begun = x.begun;
      apart = x.apart;
      rising = x.rising;
      least = x.least;
      settled = λ k h. elim (x.settled k h) [
        | inl here ↦
            subst (Settled g undirected from to max_depth t) ((bytes_beq_iff node k).0 here)
              (inr (inl (Covered-Mem t.seen (g.sorted_neighbors undirected node) c)))
        | inr old ↦ old
      ];
    }

    enqueued-Step :
        (node : Bytes) (depth : ℕ) (s : Search) (r : Bool × Search)
        → suc depth ≤ max_depth
        → Visited g from to undirected (suc depth) r
        → Expanded g undirected from to max_depth node depth
            (g.sorted_neighbors undirected node)
            s
            r
        → Step depth r
    enqueued-Step node depth s (true, t) le (n, small, linked) least = (n, small, linked, least, le)
    enqueued-Step node depth s (false, t) le v (x, c, keeps) = record {
      search = v;
      frontier = close_expansion node depth t x c;
    }

    popped-Settled :
        (node : Bytes) (depth : ℕ) (seen : List Bytes) (parent : Parents) (queue : List (Bytes × ℕ))
        (k : Bytes)
        → Settled g undirected from to max_depth
            (record { seen = seen; parent = parent; queue = (node, depth) ∷ queue })
            k
        → (bytes_beq node k ≡ true)
          ⊎ Settled g undirected from to max_depth
              (record { seen = seen; parent = parent; queue = queue })
              k
    popped-Settled node depth seen parent queue k (inl waits) =
        elim (Bool-cases (bytes_beq node k)) [
          | inl same ↦ inl same
          | inr other ↦ inr (inl (ground arith))
        ]
    popped-Settled node depth seen parent queue k (inr other) = inr (inr other)

    pub visit-Step :
        (lo : ℕ) (node : Bytes) (depth : ℕ) (seen : List Bytes) (parent : Parents)
        (queue : List (Bytes × ℕ))
        → IsState lo (record { seen = seen; parent = parent; queue = (node, depth) ∷ queue })
        → Step depth (
            visit g from to undirected max_depth node depth
              (record { seen = seen; parent = parent; queue = queue }))
    unfolding visit
    visit-Step lo node depth seen parent queue v =
        let s : Search = record { seen = seen; parent = parent; queue = queue } in
        let f = v.frontier in
        let rising =
          Rising-widen g undirected from depth depth (suc lo) (suc depth) queue (omega arith)
            (omega arith) f.rising.2 in
        let popped = λ (k : Bytes) (h : contains seen k ≡ true).
          popped-Settled node depth seen parent queue k (f.settled k h) in
        let whole : Search = record {
          seen = seen;
          parent = parent;
          queue = (node, depth) ∷ queue;
        } in
        let again : IsFrontier g undirected from to max_depth depth whole = record {
          begun = f.begun;
          apart = f.apart;
          rising = (omega arith, omega arith, rising);
          least = f.least;
          settled = f.settled;
        } in
        let search : IsSearch g from to undirected s = record {
          unseen = v.search.unseen;
          queued = v.search.queued.1;
        } in
        elim (Bool-cases (leb max_depth depth)) [
          | inl deep ↦ rw deep (record {
            search = search;
            frontier = record {
              begun = f.begun;
              apart = f.apart;
              rising = rising;
              least = f.least.1;
              settled = λ k h. elim (popped k h) [
                | inl here ↦ inr (
                    inr (λ m r.
                      let le : depth ≤ m = f.least.0 m (
                        subst (λ j. Reach g undirected from j m)
                          (sym ((bytes_beq_iff node k).0 here)) r) in
                      ground arith))
                | inr old ↦ old
              ];
            };
          })
          | inr shallow ↦ rw shallow (
              enqueued-Step node depth s
                (enqueue_bfs_neighbors g from to node depth (g.sorted_neighbors undirected node) s)
                (ground arith)
                (enqueue-Visited g from to undirected node depth
                  (g.sorted_neighbors undirected node) s (λ e h. h) v.search.queued.0 search)
                (enqueue-Expanded g undirected from to max_depth node depth
                  (g.sorted_neighbors undirected node) s
                  (record {
                    begun = f.begun;
                    apart = f.apart;
                    level = λ k m r le.
                        seen_within g undirected from to max_depth depth whole again k m r le
                          (ground arith);
                    rising = rising;
                    least = f.least.1;
                    settled = popped;
                  })))
        ]
