-- ===== src/Graph/Walk/Expand.antt =====
-- The frontier while the edges of one node are followed (`enqueueBFSNeighbors` of
-- internal/graph/graph.go).
use semidx.Prelude.{
  ℕ, suc, ◌≤◌, ◌≡◌, ◌⊎◌, subst, Bool, true, false, ◌||◌, List, [], ◌∷◌, ◌++◌, leb, arith, All,
  All-append, inl, inr, Bool-cases,
}
use semidx.Prelude.Eq.{contains}
use semidx.Prelude.Bytes.{Bytes, bytes_beq, bytes_beq_iff, bytes_eq}
use semidx.Prelude.Map.{keys}
use semidx.Graph.Walk.{Edge, Graph, Search, see, push, enqueue_bfs_neighbors}
use semidx.Graph.Walk.Frontier.{Reach, Covered, Rising, Least, Rising-append, Settled}

contains-keys_append :
    (queue : List (Bytes × ℕ)) (k : Bytes) (d : ℕ) (j : Bytes)
    → contains (keys (queue ++ (k, d) ∷ [])) j ≡ (contains (keys queue) j || bytes_beq k j)
contains-keys_append [] k d j = ground arith
contains-keys_append (item ∷ queue) k d j = ground (arith, contains-keys_append queue k d j)

module _ (g : Graph) (undirected : Bool) (from to : Bytes) (max_depth : ℕ) (node : Bytes)
    (depth : ℕ) where
  -- while the edges of `node`, at `depth`, are followed
  pub record IsExpansion (s : Search) : Type 0 where
    pub begun : contains s.seen from ≡ true
    pub apart : contains s.seen to ≡ false
    pub level :
        (k : Bytes) (m : ℕ) → Reach g undirected from k m → m ≤ depth → contains s.seen k ≡ true
    pub rising : Rising g undirected from depth (suc depth) s.queue
    pub least : All (Least g undirected from) s.queue
    pub settled :
        (k : Bytes)
        → contains s.seen k ≡ true
        → (bytes_beq node k ≡ true) ⊎ Settled g undirected from to max_depth s k

  -- a node that was not seen is farther away than the one whose edges are followed
  new-Least :
      (next : Bytes) (s : Search)
      → contains s.seen next ≡ false
      → IsExpansion s
      → Least g undirected from (next, suc depth)
  new-Least next s new x m r = elim (Bool-cases (leb m depth)) [
    | inl near ↦ let h = x.level next m r (ground arith) in ground arith
    | inr far ↦ ground arith
  ]

  pushed-Settled :
      (next : Bytes) (e : Edge) (s : Search) (k : Bytes)
      → Settled g undirected from to max_depth s k
      → Settled g undirected from to max_depth
          (push g from to next (suc depth) (see g from to next e node s))
          k
  pushed-Settled next e s k (inl waits) =
      inl (ground (arith, contains-keys_append s.queue next (suc depth) k))
  pushed-Settled next e s k (inr (inl closed)) =
      inr (inl (λ f near. let h = closed f near in ground arith))
  pushed-Settled next e s k (inr (inr deep)) = inr (inr deep)

  -- a node that is seen and pushed
  push-IsExpansion :
      (e : Edge) (s : Search)
      → (bytes_beq (g.normalize e.target) [] || contains s.seen (g.normalize e.target)) ≡ false
      → bytes_beq (g.normalize e.target) to ≡ false
      → IsExpansion s
      → IsExpansion (
          push g from to
            (g.normalize e.target)
            (suc depth)
            (see g from to (g.normalize e.target) e node s))
  push-IsExpansion e s new on x =
      let next = g.normalize e.target in
      record {
        begun = let h = x.begun in ground arith;
        apart = let h = x.apart in ground arith;
        level = λ k m r le. let h = x.level k m r le in ground arith;
        rising =
            Rising-append g undirected from depth (suc depth) s.queue next (omega arith) x.rising;
        least =
            All-append (Least g undirected from) s.queue ((next, suc depth) ∷ []) x.least
              (new-Least next s (ground arith) x, tt);
        settled = λ k h. elim (Bool-cases (bytes_beq next k)) [
          | inl same ↦ inr (inl (ground (arith, contains-keys_append s.queue next (suc depth) k)))
          | inr other ↦ elim (x.settled k (ground arith)) [
            | inl here ↦ inl here
            | inr old ↦ inr (pushed-Settled next e s k old)
          ]
        ];
      }

  -- what following a list of edges leaves
  abbrev pub Expanded : List Edge → Search → Bool × Search → Type 0
  Expanded edges s (true, t) = Least g undirected from (to, suc depth)
  Expanded edges s (false, t) =
      IsExpansion t
      × Covered g undirected from t.seen edges
      × ((k : Bytes) → contains s.seen k ≡ true → contains t.seen k ≡ true)

  -- one more edge before the others, whose node was seen when they are followed
  Expanded-more :
      (e : Edge) (edges : List Edge) (s t : Search) (r : Bool × Search)
      → (bytes_beq (g.normalize e.target) [] || contains t.seen (g.normalize e.target)) ≡ true
      → ((k : Bytes) → contains s.seen k ≡ true → contains t.seen k ≡ true)
      → Expanded edges t r
      → Expanded (e ∷ edges) s r
  Expanded-more e edges s t (true, u) known keeps x = x
  Expanded-more e edges s t (false, u) known keeps (x, covers, more) =
      let h : contains t.seen (g.normalize e.target) ≡ true
          → contains u.seen (g.normalize e.target) ≡ true =
        more (g.normalize e.target) in
      (x, (still h, covers), λ k a. more k (keeps k a))
    where
      still :
          (contains t.seen (g.normalize e.target) ≡ true
            → contains u.seen (g.normalize e.target) ≡ true)
          → (bytes_beq (g.normalize e.target) [] || contains u.seen (g.normalize e.target)) ≡ true
      still h = ground arith

  pub enqueue-Expanded :
      (edges : List Edge) (s : Search)
      → IsExpansion s
      → Expanded edges s (enqueue_bfs_neighbors g from to node depth edges s)
  unfolding enqueue_bfs_neighbors
  enqueue-Expanded [] s x = (x, tt, λ k h. h)
  enqueue-Expanded (e ∷ edges) s x =
      let next = g.normalize e.target in
      elim (Bool-cases (bytes_beq next [] || contains s.seen next)) [
        | inl skipped ↦ rw skipped (
            Expanded-more e edges s s (enqueue_bfs_neighbors g from to node depth edges s) skipped
              (λ k h. h) (enqueue-Expanded edges s x))
        | inr new ↦ elim (Bool-cases (bytes_beq next to)) [
          | inl found ↦
              rw (new, found)
                (subst (λ k. Least g undirected from (k, suc depth))
                  ((bytes_beq_iff next to).0 found) (new-Least next s (ground arith) x))
          | inr on ↦
              let t = push g from to next (suc depth) (see g from to next e node s) in
              rw (new, on)
                (Expanded-more e edges s t (enqueue_bfs_neighbors g from to node depth edges t)
                  (ground (arith, bytes_beq_iff next next)) (λ k h. ground arith)
                  (enqueue-Expanded edges t (push-IsExpansion e s new on x)))
        ]
      ]
