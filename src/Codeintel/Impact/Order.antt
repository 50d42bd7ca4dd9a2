-- ===== src/Codeintel/Impact/Order.antt =====
-- The sort of `collectImpactNodes` in internal/codeintel/impact.go.
use semidx.Prelude.{
  ℕ, ◌≡◌, refl, true, false, ◌||◌, some, List, [], ◌∷◌, map, arith, inl, inr, Bool-cases, All,
}
use semidx.Prelude.Eq.{contains, Distinct}
use semidx.Prelude.Bytes.{Bytes, bytes_beq, bytes_beq_iff, bytes_eq, bytes_lt}
use semidx.Prelude.Map
use semidx.Prelude.Map.{Map, has, Unique, insert-Unique}
use semidx.Codeintel.Impact.{ImpactNode, insert_node, collect_impact_nodes, less_impact_node}

abbrev pub file_of : ImpactNode → Bytes
file_of n = n.file

-- no node comes before one that is less
abbrev pub Sorted : List ImpactNode → Type 0
Sorted [] = Unit
Sorted (a ∷ []) = Unit
Sorted (a ∷ b ∷ nodes) = (less_impact_node b a ≡ false) × Sorted (b ∷ nodes)

bytes_lt-asym : (a b : Bytes) → bytes_lt a b ≡ true → bytes_lt b a ≡ false
bytes_lt-asym [] [] h = refl
bytes_lt-asym [] (y ∷ b) h = refl
bytes_lt-asym (x ∷ a) [] h = cc
bytes_lt-asym (x ∷ a) (y ∷ b) h = ground (arith, bytes_lt-asym a b)

less-asym : (a b : ImpactNode) → less_impact_node a b ≡ true → less_impact_node b a ≡ false
less-asym a b h = ground (arith, bytes_lt-asym a.file b.file)

-- nothing less than `b` comes first
abbrev Follow : ImpactNode → List ImpactNode → Type 0
Follow b [] = Unit
Follow b (a ∷ nodes) = less_impact_node a b ≡ false

Follow-Sorted :
    (b : ImpactNode) (nodes : List ImpactNode) → Follow b nodes → Sorted nodes → Sorted (b ∷ nodes)
Follow-Sorted b [] f s = tt
Follow-Sorted b (a ∷ nodes) f s = (f, s)

Sorted-Follow :
    (b : ImpactNode) (nodes : List ImpactNode) → Sorted (b ∷ nodes) → Follow b nodes × Sorted nodes
Sorted-Follow b [] s = (tt, tt)
Sorted-Follow b (a ∷ nodes) s = s

insert_node-Follow :
    (b a : ImpactNode) (nodes : List ImpactNode)
    → less_impact_node a b ≡ false
    → Follow b nodes
    → Follow b (insert_node a nodes)
unfolding insert_node
insert_node-Follow b a [] e f = e
insert_node-Follow b a (c ∷ nodes) e f = elim (Bool-cases (less_impact_node c a)) [
  | inl before ↦ rw before f
  | inr after ↦ rw after e
]

insert_node-Sorted :
    (a : ImpactNode) (nodes : List ImpactNode) → Sorted nodes → Sorted (insert_node a nodes)
unfolding insert_node
insert_node-Sorted a [] s = tt
insert_node-Sorted a (b ∷ nodes) s = elim (Bool-cases (less_impact_node b a)) [
  | inl before ↦
      let (f, t) = Sorted-Follow b nodes s in
      rw before (
        Follow-Sorted b (insert_node a nodes)
          (insert_node-Follow b a nodes (less-asym b a before) f) (insert_node-Sorted a nodes t))
  | inr after ↦ rw after (after, s)
]

contains-insert_node :
    (a : ImpactNode) (nodes : List ImpactNode) (f : Bytes)
    → contains (map file_of (insert_node a nodes)) f
      ≡ (bytes_beq a.file f || contains (map file_of nodes) f)
unfolding insert_node
contains-insert_node a [] f = refl
contains-insert_node a (b ∷ nodes) f = ground (arith, contains-insert_node a nodes f)

insert_node-Distinct :
    (a : ImpactNode) (nodes : List ImpactNode)
    → contains (map file_of nodes) a.file ≡ false
    → Distinct (map file_of nodes)
    → Distinct (map file_of (insert_node a nodes))
unfolding insert_node
insert_node-Distinct a [] n d = (refl, tt)
insert_node-Distinct a (b ∷ nodes) n d = ground (
  arith,
  insert_node-Distinct a nodes,
  contains-insert_node a nodes b.file,
  bytes_beq_iff a.file b.file,
  bytes_beq_iff b.file a.file,
)

insert_node-All :
    (P : ImpactNode → Type 0) (a : ImpactNode) (nodes : List ImpactNode)
    → P a
    → All P nodes
    → All P (insert_node a nodes)
unfolding insert_node
insert_node-All P a [] p h = (p, tt)
insert_node-All P a (b ∷ nodes) p h = elim (Bool-cases (less_impact_node b a)) [
  | inl before ↦ rw before (h.0, insert_node-All P a nodes p h.1)
  | inr after ↦ rw after (p, h)
]

pub contains-collect_impact_nodes :
    (v : Map Bytes ℕ) (f : Bytes) → contains (map file_of (collect_impact_nodes v)) f ≡ has f v
unfolding collect_impact_nodes Map.lookup
contains-collect_impact_nodes [] f = refl
contains-collect_impact_nodes ((file, depth) ∷ v) f = ground (
  arith,
  contains-insert_node (record { file = file; depth = depth }) (collect_impact_nodes v) f,
  contains-collect_impact_nodes v f,
)

pub collect_impact_nodes-Distinct :
    (v : Map Bytes ℕ) → Unique v → Distinct (map file_of (collect_impact_nodes v))
unfolding collect_impact_nodes
collect_impact_nodes-Distinct [] u = tt
collect_impact_nodes-Distinct ((file, depth) ∷ v) u =
    insert_node-Distinct (record { file = file; depth = depth }) (collect_impact_nodes v)
      (ground (arith, contains-collect_impact_nodes v file)) (collect_impact_nodes-Distinct v u.1)

pub collect_impact_nodes-Sorted : (v : Map Bytes ℕ) → Sorted (collect_impact_nodes v)
unfolding collect_impact_nodes
collect_impact_nodes-Sorted [] = tt
collect_impact_nodes-Sorted ((file, depth) ∷ v) =
    insert_node-Sorted (record { file = file; depth = depth }) (collect_impact_nodes v)
      (collect_impact_nodes-Sorted v)

pub collect_impact_nodes-All :
    (P : ImpactNode → Type 0) (v : Map Bytes ℕ)
    → Unique v
    → ((f : Bytes) (n : ℕ) → Map.lookup f v ≡ some n → P (record { file = f; depth = n }))
    → All P (collect_impact_nodes v)
unfolding collect_impact_nodes Map.lookup
collect_impact_nodes-All P [] u h = tt
collect_impact_nodes-All P ((file, depth) ∷ v) u h =
    insert_node-All P (record { file = file; depth = depth }) (collect_impact_nodes v)
      (h file depth (ground (arith, bytes_beq_iff file file)))
      (collect_impact_nodes-All P v u.1 (λ f n e. h f n (ground (arith, bytes_beq_iff file f))))
