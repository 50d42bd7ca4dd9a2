-- ===== src/Graph/Walk/Visits.antt =====
-- What the breadth-first search keeps from visit to visit.
use mathlib.Core.List.{Mem, mem-cons_self, mem-cons_of_mem}
use semidx.Prelude.{
  ℕ, zero, suc, ◌≤◌, ◌≡◌, refl, subst, Bool, true, false, ◌||◌, Option, none, some, List, [], ◌∷◌,
  length, leb, arith, All, All-append, inl, inr, Bool-cases,
}
use semidx.Prelude.Eq.{contains}
use semidx.Prelude.Bytes.{Bytes, bytes_beq, bytes_beq_iff, bytes_eq}
use semidx.Prelude.Map
use semidx.Prelude.Map.{Map, lookup-insert}
use semidx.Graph.Walk.{
  Edge, Graph, Budget, path_depth, path_visits, Parents, Search, Outcome, walked, missed, see, push,
  enqueue_bfs_neighbors, visit, after_visit, bfs_loop, bfs,
}
use semidx.Graph.Walk.Parents.{
  IsWalk, arrived, Links, origin, link, Links-insert, reconstruct_from-IsWalk,
}

module _ (g : Graph) (from to : Bytes) (undirected : Bool) where
  -- between two visits: a node that was not seen has no parent, and each node of the queue is linked
  -- back to `from` in as many steps as its depth
  pub record IsSearch (s : Search) : Type 0 where
    pub unseen :
        (k : Bytes)
        → contains s.seen k ≡ false
        → (bytes_beq k from ≡ false) × (Map.lookup k s.parent ≡ none)
    pub queued : All (λ item. Links g undirected from s.parent item.0 item.1) s.queue

  queued-insert :
      (parent : Parents) (next : Bytes) (p : Bytes × Edge) (queue : List (Bytes × ℕ))
      → Map.lookup next parent ≡ none
      → All (λ item. Links g undirected from parent item.0 item.1) queue
      → All (λ item. Links g undirected from (Map.insert next p parent) item.0 item.1) queue
  queued-insert parent next p [] new q = tt
  queued-insert parent next p (item ∷ queue) new q = (
    Links-insert g undirected from parent next p new q.0,
    queued-insert parent next p queue new q.1,
  )

  -- `to` was found and is linked in at most `depth` steps, or the search goes on
  abbrev pub Visited : ℕ → Bool × Search → Type 0
  Visited depth (true, s) = (n : ℕ) × (n ≤ depth) × Links g undirected from s.parent to n
  Visited depth (false, s) = IsSearch s

  see-Links :
      (node : Bytes) (depth : ℕ) (e : Edge) (s : Search)
      → Mem e (g.sorted_neighbors undirected node)
      → Links g undirected from s.parent node depth
      → (bytes_beq (g.normalize e.target) from ≡ false)
        × (Map.lookup (g.normalize e.target) s.parent ≡ none)
      → Links g undirected from
          (see g from to (g.normalize e.target) e node s).parent
          (g.normalize e.target)
          (suc depth)
  see-Links node depth e s near l (apart, new) =
      let next = g.normalize e.target in
      link next node e apart
        (ground (arith, lookup-insert next next (node, e) s.parent, bytes_beq_iff next next)) near
        refl (Links-insert g undirected from s.parent next (node, e) new l)

  push-IsSearch :
      (node next : Bytes) (depth : ℕ) (e : Edge) (s : Search)
      → IsSearch s
      → Map.lookup next s.parent ≡ none
      → Links g undirected from (see g from to next e node s).parent next depth
      → IsSearch (push g from to next depth (see g from to next e node s))
  push-IsSearch node next depth e s v new l = record {
    unseen = λ k h.
        let apart : bytes_beq next k ≡ false = ground arith in
        let old : contains s.seen k ≡ false = ground arith in
        let (a, b) = v.unseen k old in (a, ground (arith, lookup-insert next k (node, e) s.parent));
    queued =
        All-append
          (λ (item : Bytes × ℕ).
            Links g undirected from (Map.insert next (node, e) s.parent) item.0 item.1)
          s.queue ((next, depth) ∷ []) (queued-insert s.parent next (node, e) s.queue new v.queued)
          (l, tt);
  }

  pub enqueue-Visited :
      (node : Bytes) (depth : ℕ) (edges : List Edge) (s : Search)
      → ((e : Edge) → Mem e edges → Mem e (g.sorted_neighbors undirected node))
      → Links g undirected from s.parent node depth
      → IsSearch s
      → Visited (suc depth) (enqueue_bfs_neighbors g from to node depth edges s)
  unfolding enqueue_bfs_neighbors
  enqueue-Visited node depth [] s near l v = v
  enqueue-Visited node depth (e ∷ edges) s near l v =
      let next = g.normalize e.target in
      elim (Bool-cases (bytes_beq next [] || contains s.seen next)) [
        | inl skipped ↦
            rw skipped
              (enqueue-Visited node depth edges s (λ f h. near f (mem-cons_of_mem e h)) l v)
        | inr new ↦
            let fresh : contains s.seen next ≡ false = ground arith in
            let unseen = v.unseen next fresh in
            let linked = see-Links node depth e s (near e mem-cons_self) l unseen in
            elim (Bool-cases (bytes_beq next to)) [
              | inl found ↦
                  rw (new, found)
                    (
                      suc depth,
                      omega arith,
                      subst
                          (λ k.
                            Links g undirected from (see g from to next e node s).parent k
                              (suc depth))
                          ((bytes_beq_iff next to).0 found) linked,
                    )
              | inr on ↦
                  rw (new, on)
                    (enqueue-Visited node depth edges
                      (push g from to next (suc depth) (see g from to next e node s))
                      (λ f h. near f (mem-cons_of_mem e h))
                      (Links-insert g undirected from s.parent next (node, e) unseen.1 l)
                      (push-IsSearch node next (suc depth) e s v unseen.1 linked))
            ]
      ]

  module _ (max_depth : ℕ) where
    visit-Visited :
        (node : Bytes) (depth : ℕ) (s : Search)
        → Links g undirected from s.parent node depth
        → IsSearch s
        → Visited max_depth (visit g from to undirected max_depth node depth s)
    unfolding visit
    visit-Visited node depth s l v = elim (Bool-cases (leb max_depth depth)) [
      | inl deep ↦ rw deep v
      | inr shallow ↦ rw shallow (
          within (enqueue_bfs_neighbors g from to node depth (g.sorted_neighbors undirected node) s)
            (ground arith)
            (enqueue-Visited node depth (g.sorted_neighbors undirected node) s (λ e h. h) l v))
    ]
      where
        within :
            (r : Bool × Search)
            → suc depth ≤ max_depth
            → Visited (suc depth) r
            → Visited max_depth r
        within (true, t) le (n, small, linked) = (n, omega arith, linked)
        within (false, t) le w = w

    -- an outcome: a walk within the depth limit, if there is one
    abbrev pub IsOutcome : Outcome → Type 0
    IsOutcome (walked hops edges) =
        IsWalk g undirected from hops edges to × (length edges ≤ max_depth)
    IsOutcome (missed truncated) = Unit

    after_visit-IsOutcome :
        (next : Search → Option Outcome) (r : Bool × Search)
        → Visited max_depth r
        → ((s : Search) → IsSearch s → (o : Outcome) × (next s ≡ some o) × IsOutcome o)
        → (o : Outcome) × (after_visit g from to undirected max_depth next r ≡ some o) × IsOutcome o
    unfolding after_visit
    after_visit-IsOutcome next (true, s) (n, small, linked) later =
        let (hs, es, run, whole, count) =
          reconstruct_from-IsWalk g undirected from max_depth s.parent [] [] linked small
            (arrived to) in
        (walked hs es, run, (whole, omega arith))
    after_visit-IsOutcome next (false, s) v later = later s v

    bfs_loop-IsOutcome :
        (left : ℕ) (seen : List Bytes) (parent : Parents) (queue : List (Bytes × ℕ))
        → IsSearch (record { seen = seen; parent = parent; queue = queue })
        → (o : Outcome) × (bfs_loop g from to undirected max_depth left
              (record { seen = seen; parent = parent; queue = queue })
            ≡ some o)
          × IsOutcome o
    unfolding bfs_loop
    bfs_loop-IsOutcome zero seen parent [] v = (missed false, refl, tt)
    bfs_loop-IsOutcome zero seen parent (item ∷ queue) v = (missed true, refl, tt)
    bfs_loop-IsOutcome (suc left) seen parent [] v = (missed false, refl, tt)
    bfs_loop-IsOutcome (suc left) seen parent (item ∷ queue) v =
        let s : Search = record { seen = seen; parent = parent; queue = queue } in
        after_visit-IsOutcome (bfs_loop g from to undirected max_depth left)
          (visit g from to undirected max_depth item.0 item.1 s)
          (visit-Visited item.0 item.1 s v.queued.0
            (record { unseen = v.unseen; queued = v.queued.1 }))
          (λ t u. bfs_loop-IsOutcome left t.seen t.parent t.queue u)

  pub bfs-IsOutcome :
      (budget : Budget)
      → (o : Outcome) × (bfs g from to budget undirected ≡ some o) × IsOutcome (path_depth budget) o
  unfolding bfs Map.lookup
  bfs-IsOutcome budget =
      bfs_loop-IsOutcome (path_depth budget) (path_visits budget) (from ∷ []) [] ((from, 0) ∷ [])
        (record {
          unseen = λ k h. (ground (arith, bytes_beq_iff from k, bytes_beq_iff k from), refl);
          queued = (origin, tt);
        })
