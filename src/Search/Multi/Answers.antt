-- ===== src/Search/Multi/Answers.antt =====
-- What the searches of the projects answer in internal/search/multiscope.go, and its counts.
use semidx.Prelude.{
  ℕ, suc, ◌+◌, ◌≡◌, refl, ap, Bool, true, false, Option, none, some, List, [], ◌∷◌, length, arith,
  Bool-cases, inl, inr, if◌then◌else◌,
}
use semidx.Prelude.Bytes.{Bytes, codes, bytes_beq, bytes_beq_iff, bytes_eq}
use semidx.Prelude.Map
use semidx.Prelude.Map.{Map, or_zero, is_some, lookup-insert}
use semidx.Search.Diversity.{bump}
use semidx.Search.Fusion.{Scores, Response, absorb, response_route}
use semidx.Search.Multi.{Request, Gathered, gather_one, gather}

-- the sum of the counts
abbrev pub sum_counts : Map Bytes ℕ → ℕ
sum_counts [] = 0
sum_counts ((k, n) ∷ m) = n + sum_counts m

sum_insert :
    (k : Bytes) (n : ℕ) (m : Map Bytes ℕ)
    → sum_counts (Map.insert k n m) + or_zero (Map.lookup k m) ≡ sum_counts m + n
unfolding Map.insert Map.lookup
sum_insert k n [] = omega arith
sum_insert k n ((j, v) ∷ m) = elim (Bool-cases (bytes_beq j k)) [
  | inl same ↦ rw same (omega arith)
  | inr other ↦ rw other (omega (arith, sum_insert k n m))
]

sum_bump : (k : Bytes) (m : Map Bytes ℕ) → sum_counts (bump k m) ≡ suc (sum_counts m)
sum_bump k m = omega (arith, sum_insert k (suc (or_zero (Map.lookup k m))) m)

count_bump :
    (k route : Bytes) (m : Map Bytes ℕ)
    → or_zero (Map.lookup route (bump k m))
      ≡ or_zero (Map.lookup route m) + (if bytes_beq k route then 1 else 0)
count_bump k route m =
    let stored = lookup-insert k route (suc (or_zero (Map.lookup k m))) m in
    elim (Bool-cases (bytes_beq k route)) [
      | inl same ↦
          let at_route : or_zero (Map.lookup k m) ≡ or_zero (Map.lookup route m) =
            ap (λ j. or_zero (Map.lookup j m)) ((bytes_beq_iff k route).0 same) in
          rw stored (rw same (omega (arith, at_route)))
      | inr other ↦ rw stored (rw other (omega arith))
    ]

-- the route of an answer, by its own route and its marks of a fallback and of keywords
abbrev pub route_of : Bytes → Bool → Bool → Bytes
route_of (c ∷ route) fallback keyword = c ∷ route
route_of [] true keyword = codes "fallback"
route_of [] false true = codes "keyword"
route_of [] false false = codes "hybrid"

response_route-route_of :
    {S : Type 0} (r : Response S) → response_route r ≡ route_of r.route r.fallback r.keyword
response_route-route_of r = by_marks r.route r.fallback r.keyword
  where
    by_marks :
        (route : Bytes) (fallback keyword : Bool)
        → (if bytes_beq route []
            then (if fallback
                then codes "fallback"
                else if keyword
                then codes "keyword"
                else codes "hybrid")
            else route)
          ≡ route_of route fallback keyword
    by_marks (c ∷ route) fallback keyword = refl
    by_marks [] true keyword = refl
    by_marks [] false true = refl
    by_marks [] false false = refl

-- the searches that failed
abbrev pub failures : {S : Type 0} → List (Option (Response S)) → ℕ
failures [] = 0
failures (none ∷ answers) = suc (failures answers)
failures (some r ∷ answers) = failures answers

-- the searches that were answered by a route
abbrev pub answered_by : {S : Type 0} → Bytes → List (Option (Response S)) → ℕ
answered_by route [] = 0
answered_by route (none ∷ answers) = answered_by route answers
answered_by route (some r ∷ answers) =
    let rest = answered_by route answers in
    if bytes_beq (route_of r.route r.fallback r.keyword) route then suc rest else rest

module _ {S W : Type 0} (scores : Scores S) (search : Request → W → Option (Response S) × W) where
  -- what the searches of the scopes answer, each in the world that the one before it left
  abbrev pub answers : List (Request × Bytes) → W → List (Option (Response S))
  answers [] w = []
  answers ((request, label) ∷ scopes) w = (search request w).0 ∷ answers scopes (search request w).1

  pub length-answers :
      (scopes : List (Request × Bytes)) (w : W) → length (answers scopes w) ≡ length scopes
  length-answers [] w = refl
  length-answers ((request, label) ∷ scopes) w = ap suc (length-answers scopes (search request w).1)

  failures-cons :
      (a : Option (Response S)) (later : List (Option (Response S)))
      → failures (a ∷ later) ≡ failures (a ∷ []) + failures later
  failures-cons none later = omega arith
  failures-cons (some r) later = omega arith

  answered_by-cons :
      (route : Bytes) (a : Option (Response S)) (later : List (Option (Response S)))
      → answered_by route (a ∷ later) ≡ answered_by route (a ∷ []) + answered_by route later
  answered_by-cons route none later = omega arith
  answered_by-cons route (some r) later = ground arith

  skipped_one :
      (label : Bytes) (g : Gathered S) (a : Option (Response S))
      → (gather_one scores search label g a).skipped ≡ g.skipped + failures (a ∷ [])
  unfolding gather_one
  skipped_one label g none = omega arith
  skipped_one label g (some r) = omega arith

  routes_one :
      (route label : Bytes) (g : Gathered S) (a : Option (Response S))
      → or_zero (Map.lookup route (gather_one scores search label g a).flags.routes)
        ≡ or_zero (Map.lookup route g.flags.routes) + answered_by route (a ∷ [])
  unfolding gather_one absorb
  routes_one route label g none = omega arith
  routes_one route label g (some r) =
      rw (response_route-route_of r)
        (count_bump (route_of r.route r.fallback r.keyword) route g.flags.routes)

  pub gathered_failures :
      (scopes : List (Request × Bytes)) (g : Gathered S) (w : W)
      → (gather scores search scopes g w).0.skipped ≡ g.skipped + failures (answers scopes w)
  unfolding gather
  gathered_failures [] g w = omega arith
  gathered_failures ((request, label) ∷ scopes) g w =
      let (answer, after) = search request w in
      omega (
        arith,
        gathered_failures scopes (gather_one scores search label g answer) after,
        skipped_one label g answer,
        failures-cons answer (answers scopes after),
      )

  pub gathered_routes :
      (route : Bytes) (scopes : List (Request × Bytes)) (g : Gathered S) (w : W)
      → or_zero (Map.lookup route (gather scores search scopes g w).0.flags.routes)
        ≡ or_zero (Map.lookup route g.flags.routes) + answered_by route (answers scopes w)
  unfolding gather
  gathered_routes route [] g w = omega arith
  gathered_routes route ((request, label) ∷ scopes) g w =
      let (answer, after) = search request w in
      omega (
        arith,
        gathered_routes route scopes (gather_one scores search label g answer) after,
        routes_one route label g answer,
        answered_by-cons route answer (answers scopes after),
      )

  gathered_one :
      (label : Bytes) (g : Gathered S) (answer : Option (Response S))
      → (gather_one scores search label g answer).skipped
          + sum_counts (gather_one scores search label g answer).flags.routes
        ≡ suc (g.skipped + sum_counts g.flags.routes)
  unfolding gather_one absorb
  gathered_one label g none = omega arith
  gathered_one label g (some r) = omega (arith, sum_bump (response_route r) g.flags.routes)

  pub gathered :
      (scopes : List (Request × Bytes)) (g : Gathered S) (w : W)
      → (gather scores search scopes g w).0.skipped
          + sum_counts (gather scores search scopes g w).0.flags.routes
        ≡ g.skipped + sum_counts g.flags.routes + length scopes
  unfolding gather
  gathered [] g w = omega arith
  gathered ((request, label) ∷ scopes) g w =
      let (answer, after) = search request w in
      omega (
        arith,
        gathered scopes (gather_one scores search label g answer) after,
        gathered_one label g answer,
      )
