-- ===== src/Graph/Neighborhood/Placed.antt =====
-- What is known of the nodes that `bfsWalk` of internal/graph/graph.go gives a depth, and of the
-- edges that it keeps.
use mathlib.Core.List.{Mem}
use semidx.Prelude.{
  ℕ, suc, ◌≤◌, ◌≡◌, refl, sym, subst, ap, ◌∙◌, Bool, true, false, ◌||◌, List, [], ◌∷◌, ◌++◌, map,
  length, length-append, leb, arith, inl, inr, Bool-cases, if◌then◌else◌,
}
use semidx.Prelude.Eq.{contains, beq_refl, Distinct, Distinct-concat, contains-append}
use semidx.Prelude.Bytes.{Bytes, bytes_beq, bytes_beq_iff, bytes_eq}
use semidx.Prelude.Map
use semidx.Prelude.Map.{Map, has, lookup-insert}
use semidx.Graph.Walk.{Edge, Graph}
use semidx.Graph.Neighborhood.{Limits, edge_key, set_depth}

pub choose-P :
    {A : Type 0} (P : A → Type 0) (x y : A) (c : Bool)
    → P x
    → (c ≡ false → P y)
    → P (if c then x else y)
choose-P P x y true p q = p
choose-P P x y false p q = q refl

pub length-keep_edges :
    (max : ℕ) (edges : List Edge) (edge : Edge)
    → length edges ≤ max
    → length (if leb max (length edges) then edges else edges ++ (edge ∷ [])) ≤ max
length-keep_edges max edges edge le = elim (Bool-cases (leb max (length edges))) [
  | inl full ↦ rw full le
  | inr room ↦ rw room (ground (arith, length-append edges (edge ∷ [])))
]

-- no edge is kept twice, and the keys of the kept edges were seen
pub record IsKeyed (edges : List Edge) (edge_seen : List Bytes) : Type 0 where
  pub distinct : Distinct (map edge_key edges)
  pub known : (k : Bytes) → contains (map edge_key edges) k ≡ true → contains edge_seen k ≡ true

map-append :
    (edges : List Edge) (e : Edge)
    → map edge_key (edges ++ (e ∷ [])) ≡ map edge_key edges ++ (edge_key e ∷ [])
map-append [] e = refl
map-append (f ∷ edges) e = ap (λ ks. edge_key f ∷ ks) (map-append edges e)

pub keep-IsKeyed :
    (full : Bool) (edges : List Edge) (edge_seen : List Bytes) (e : Edge)
    → contains edge_seen (edge_key e) ≡ false
    → IsKeyed edges edge_seen
    → IsKeyed (if full then edges else edges ++ (e ∷ [])) (edge_key e ∷ edge_seen)
keep-IsKeyed true edges edge_seen e new v = record {
  distinct = v.distinct;
  known = λ k h. ground (arith, v.known k h);
}
keep-IsKeyed false edges edge_seen e new v =
    let absent : contains (map edge_key edges) (edge_key e) ≡ false =
      elim (Bool-cases (contains (map edge_key edges) (edge_key e))) [
        | inl kept ↦ absurd (ground (arith, v.known (edge_key e) kept))
        | inr out ↦ out
      ] in
    record {
      distinct =
          subst Distinct (sym (map-append edges e))
            (Distinct-concat (map edge_key edges) (edge_key e) v.distinct absent);
      known = λ k h.
          let split = contains-append (map edge_key edges) (edge_key e ∷ []) k in
          let kept = subst (λ ks. contains ks k ≡ true) (map-append edges e) h in
          keyed k (sym split ∙ kept);
    }
  where
    keyed :
        (k : Bytes)
        → (contains (map edge_key edges) k || contains (edge_key e ∷ []) k) ≡ true
        → contains (edge_key e ∷ edge_seen) k ≡ true
    keyed k h = elim (Bool-cases (contains (map edge_key edges) k)) [
      | inl old ↦ ground (arith, v.known k old)
      | inr other ↦ ground arith
    ]

module _ (g : Graph) (limits : Limits) (inbound : Bool) (seeds : List Bytes) where
  -- the node ends a walk of `n` edges from a seed
  pub data Hops : Bytes → ℕ → Type 0 where
    seed : (a : Bytes) → contains seeds a ≡ true → Hops a 0
    hop :
        (a : Bytes) (e : Edge) {n : ℕ}
        → Hops a n
        → Mem e (g.sorted_neighbors inbound a)
        → Hops (g.normalize e.target) (suc n)

  -- every node of the list stands at a depth within the limit, and a walk of that length leads to it
  abbrev pub Placed : List (Bytes × ℕ) → Type 0
  Placed [] = Unit
  Placed (item ∷ items) = ((item.1 ≤ limits.max_depth) × Hops item.0 item.1) × Placed items

  -- the target of every edge has a depth
  abbrev pub Joined : Map Bytes ℕ → List Edge → Type 0
  Joined depths [] = Unit
  Joined depths (e ∷ edges) = (has (g.normalize e.target) depths ≡ true) × Joined depths edges

  pub append-Placed :
      (items : List (Bytes × ℕ)) (id : Bytes) (n : ℕ)
      → n ≤ limits.max_depth
      → Hops id n
      → Placed items
      → Placed (items ++ ((id, n) ∷ []))
  append-Placed [] id n le h p = ((le, h), tt)
  append-Placed (item ∷ items) id n le h p = (p.0, append-Placed items id n le h p.1)

  pub seeds-Placed :
      (rest : List Bytes)
      → ((a : Bytes) → contains rest a ≡ true → contains seeds a ≡ true)
      → Placed (map (λ a. (a, 0)) rest)
  seeds-Placed [] h = tt
  seeds-Placed (a ∷ rest) h = (
    (omega arith, seed a (h a (ground (arith, beq_refl a)))),
    seeds-Placed rest (λ b m. h b (ground arith)),
  )

  insert-Placed :
      (id : Bytes) (n : ℕ) (m : Map Bytes ℕ)
      → has id m ≡ false
      → n ≤ limits.max_depth
      → Hops id n
      → Placed m
      → Placed (Map.insert id n m)
  unfolding Map.insert Map.lookup
  insert-Placed id n [] new le h p = ((le, h), tt)
  insert-Placed id n ((j, k) ∷ m) new le h p = elim (Bool-cases (bytes_beq j id)) [
    | inl same ↦ absurd (ground arith)
    | inr other ↦ rw other (p.0, insert-Placed id n m (ground arith) le h p.1)
  ]

  pub set_depth-Placed :
      (id : Bytes) (n : ℕ) (m : Map Bytes ℕ)
      → n ≤ limits.max_depth
      → Hops id n
      → Placed m
      → Placed (set_depth id n m)
  unfolding set_depth
  set_depth-Placed id n m le h p = elim (Bool-cases (has id m)) [
    | inl known ↦ rw known p
    | inr new ↦ rw new (insert-Placed id n m new le h p)
  ]

  has-set_depth :
      (id j : Bytes) (n : ℕ) (m : Map Bytes ℕ)
      → has j (set_depth id n m) ≡ (bytes_beq id j || has j m)
  unfolding set_depth
  has-set_depth id j n m = ground (arith, lookup-insert id j n m, bytes_beq_iff id j)

  pub set_depth-Joined :
      (id : Bytes) (n : ℕ) (m : Map Bytes ℕ) (edges : List Edge)
      → Joined m edges
      → Joined (set_depth id n m) edges
  set_depth-Joined id n m [] j = tt
  set_depth-Joined id n m (e ∷ edges) j = (
    ground (arith, has-set_depth id (g.normalize e.target) n m, j.0),
    set_depth-Joined id n m edges j.1,
  )

  append-Joined :
      (m : Map Bytes ℕ) (edges : List Edge) (e : Edge)
      → Joined m edges
      → has (g.normalize e.target) m ≡ true
      → Joined m (edges ++ (e ∷ []))
  append-Joined m [] e j h = (h, tt)
  append-Joined m (f ∷ edges) e j h = (j.0, append-Joined m edges e j.1 h)

  pub keep-Joined :
      (full : Bool) (depth : ℕ) (m : Map Bytes ℕ) (edges : List Edge) (e : Edge)
      → Joined m edges
      → Joined
          (if full then m else set_depth (g.normalize e.target) depth m)
          (if full then edges else edges ++ (e ∷ []))
  keep-Joined true depth m edges e j = j
  keep-Joined false depth m edges e j =
      let id = g.normalize e.target in
      append-Joined (set_depth id depth m) edges e (set_depth-Joined id depth m edges j)
        (ground (arith, has-set_depth id id depth m, beq_refl id))
