-- ===== src/Graph/Walk/Frontier.antt =====
-- What is known of the distances while the breadth-first search in internal/graph/graph.go runs.
use mathlib.Core.List.{Mem}
use semidx.Prelude.{
  ℕ, suc, ◌+◌, ◌≤◌, ◌≡◌, ◌⊎◌, sym, subst, Bool, true, false, ◌||◌, List, [], ◌∷◌, ◌++◌, length,
  arith, All, inl, inr, Bool-cases,
}
use semidx.Prelude.Eq.{contains}
use semidx.Prelude.Bytes.{Bytes, bytes_beq, bytes_beq_iff, bytes_eq}
use semidx.Prelude.Map.{keys}
use semidx.Graph.Walk.{Edge, Graph, Search}
use semidx.Graph.Walk.Parents.{IsWalk, arrived, walk}

module _ (g : Graph) (undirected : Bool) (from : Bytes) where
  -- the node ends a walk of `n` edges from `from` on which no node is empty
  pub data Reach : Bytes → ℕ → Type 0 where
    start : bytes_beq from [] ≡ false → Reach from 0
    step :
        (a b : Bytes) (e : Edge) {n : ℕ}
        → Reach a n
        → Mem e (g.sorted_neighbors undirected a)
        → g.normalize e.target ≡ b
        → bytes_beq b [] ≡ false
        → Reach b (suc n)

  pub walk-All :
      (P : Bytes → Type 0) {a b : Bytes} {hops : List Bytes} {edges : List Edge}
      → IsWalk g undirected a hops edges b
      → All P hops
      → P a
  walk-All P (arrived _) h = h.0
  walk-All P (walk _ e near leads w) h = h.0

  pub walk_last-All :
      (P : Bytes → Type 0) {a b : Bytes} {hops : List Bytes} {edges : List Edge}
      → IsWalk g undirected a hops edges b
      → All P hops
      → P b
  walk_last-All P (arrived _) h = h.0
  walk_last-All P (walk _ e near leads w) h = walk_last-All P w h.1

  pub IsWalk-Reach :
      (n : ℕ) {a b : Bytes} {hops : List Bytes} {edges : List Edge}
      → Reach a n
      → All (λ h. bytes_beq h [] ≡ false) hops
      → IsWalk g undirected a hops edges b
      → Reach b (n + length edges)
  IsWalk-Reach n {b = b} r given (arrived _) = subst (Reach b) (omega arith) r
  IsWalk-Reach n {b = b} r given (walk a e {c = c} {edges = edges} near leads w) =
      subst (Reach b) (omega arith) (
        IsWalk-Reach (suc n)
          (step a c e r near leads (walk-All (λ h. bytes_beq h [] ≡ false) w given.1)) given.1 w)

  -- every node that an edge of the list leads to was seen, or is empty
  abbrev pub Covered : List Bytes → List Edge → Type 0
  Covered seen [] = Unit
  Covered seen (e ∷ edges) =
      ((bytes_beq (g.normalize e.target) [] || contains seen (g.normalize e.target)) ≡ true)
      × Covered seen edges

  -- the depths of a queue, in order from `lo` and up to `hi`
  abbrev pub Rising : ℕ → ℕ → List (Bytes × ℕ) → Type 0
  Rising lo hi [] = Unit
  Rising lo hi (item ∷ queue) = (lo ≤ item.1) × (item.1 ≤ hi) × Rising item.1 hi queue

  -- no walk to the node is shorter than its depth
  abbrev pub Least : Bytes × ℕ → Type 0
  Least item = (m : ℕ) → Reach item.0 m → item.1 ≤ m

  pub Rising-append :
      (lo hi : ℕ) (queue : List (Bytes × ℕ)) (k : Bytes)
      → lo ≤ hi
      → Rising lo hi queue
      → Rising lo hi (queue ++ (k, hi) ∷ [])
  Rising-append lo hi [] k le r = (le, omega arith, tt)
  Rising-append lo hi (item ∷ queue) k le r = (r.0, r.1, Rising-append item.1 hi queue k r.1 r.2)

  pub Rising-widen :
      (lo low hi high : ℕ) (queue : List (Bytes × ℕ))
      → low ≤ lo
      → hi ≤ high
      → Rising lo hi queue
      → Rising low high queue
  Rising-widen lo low hi high [] l h r = tt
  Rising-widen lo low hi high (item ∷ queue) l h r =
      (omega arith, omega arith, Rising-widen item.1 item.1 hi high queue (omega arith) h r.2)

  -- a walk to a node that waits in the queue is at least as long as the least depth there
  pub waiting-Least :
      (lo hi : ℕ) (queue : List (Bytes × ℕ)) (k : Bytes) (m : ℕ)
      → Rising lo hi queue
      → All Least queue
      → contains (keys queue) k ≡ true
      → Reach k m
      → lo ≤ m
  waiting-Least lo hi [] k m r l h w = cc
  waiting-Least lo hi (item ∷ queue) k m r l h w = elim (Bool-cases (bytes_beq item.0 k)) [
    | inl same ↦
        let e = (bytes_beq_iff item.0 k).0 same in
        let le : item.1 ≤ m = l.0 m (subst (λ j. Reach j m) (sym e) w) in omega arith
    | inr other ↦
        let le : item.1 ≤ m = waiting-Least item.1 hi queue k m r.2 l.1 (ground arith) w in
        omega arith
  ]

  module _ (to : Bytes) (max_depth : ℕ) where
    -- a node that was seen waits in the queue, or its neighbors were seen, or it is too deep
    abbrev pub Settled : Search → Bytes → Type 0
    Settled s k =
        (contains (keys s.queue) k ≡ true)
        ⊎ (((e : Edge)
              → Mem e (g.sorted_neighbors undirected k)
              → (bytes_beq (g.normalize e.target) [] || contains s.seen (g.normalize e.target))
                ≡ true)
            ⊎ ((m : ℕ) → Reach k m → max_depth ≤ m))

    -- between two visits, with `lo` the least depth of the queue
    pub record IsFrontier (lo : ℕ) (s : Search) : Type 0 where
      pub begun : contains s.seen from ≡ true
      pub apart : contains s.seen to ≡ false
      pub rising : Rising lo (suc lo) s.queue
      pub least : All Least s.queue
      pub settled : (k : Bytes) → contains s.seen k ≡ true → Settled s k

    -- all nodes within the least depth of the queue were seen
    pub seen_within :
        (lo : ℕ) (s : Search)
        → IsFrontier lo s
        → (k : Bytes) (m : ℕ) → Reach k m
        → m ≤ lo
        → m ≤ max_depth
        → contains s.seen k ≡ true
    seen_within lo s f k m (start given) le deep = f.begun
    seen_within lo s f k m (step a b e {n = n} r near leads given) le deep =
        let before = seen_within lo s f a n r (omega arith) (omega arith) in
        elim (f.settled a before) [
          | inl waits ↦
              let no : lo ≤ n = waiting-Least lo (suc lo) s.queue a n f.rising f.least waits r in
              absurd (omega arith)
          | inr (inl closed) ↦
              let c : (bytes_beq b [] || contains s.seen b) ≡ true =
                subst (λ j. (bytes_beq j [] || contains s.seen j) ≡ true) leads (closed e near) in
              ground arith
          | inr (inr too) ↦ let no : max_depth ≤ n = too n r in absurd (omega arith)
        ]
