-- ===== src/Codeintel/Impact/Levels.antt =====
-- The closure of internal/codeintel/impact.go, level by level.
use semidx.Prelude.{
  ℕ, zero, suc, ◌+◌, ◌≤◌, ◌<◌, ◌≡◌, ◌⊎◌, refl, sym, subst, Bool, true, false, ◌||◌, some, List, [],
  ◌∷◌, ltb, arith, inl, inr, Bool-cases, Option-cases,
}
use semidx.Prelude.Eq.{contains}
use semidx.Prelude.Bytes.{Bytes, bytes_beq, bytes_eq}
use semidx.Prelude.Map
use semidx.Prelude.Map.{Map, has}
use semidx.Codeintel.Dependencies.{
  ImportGraph, find_direct_callers_for_dirs, dependency_dirs_for_file,
}
use semidx.Codeintel.Impact.{expand_impact_level, closure_from}
use semidx.Codeintel.Impact.Reached.{
  imports, Reaches, direct, further, callers-imports, imports-callers, is_new,
  lookup-expand_callers, next-expand_callers, expand_callers-next,
}

module _ (graph : ImportGraph) (seed_file : Bytes) (seed_dirs : List Bytes) where
  -- The depths of all files that reach the directories in fewer than `limit` imports: each file with
  -- the least number of imports.
  pub record IsClosure (limit : ℕ) (visited : Map Bytes ℕ) : Type 0 where
    pub sound :
        (f : Bytes) (n : ℕ)
        → Map.lookup f visited ≡ some n
        → (n < limit)
          × Reaches graph seed_file seed_dirs n f
          × ((m : ℕ) → Reaches graph seed_file seed_dirs m f → n ≤ m)
    pub complete :
        (f : Bytes) (m : ℕ)
        → Reaches graph seed_file seed_dirs m f
        → m < limit
        → has f visited ≡ true

  -- a directory whose importers are `depth` imports away
  abbrev At : ℕ → Bytes → Type 0
  At depth d =
      ((depth ≡ 1) × (contains seed_dirs d ≡ true))
      ⊎ ((g : Bytes) × (n : ℕ) × (suc n ≡ depth)
          × Reaches graph seed_file seed_dirs n g
          × (contains (dependency_dirs_for_file g) d ≡ true))

  -- before the level `depth`
  record IsLevel (depth : ℕ) (visited : Map Bytes ℕ) (dirs : List Bytes) : Type 0 where
    pub positive : 1 ≤ depth
    pub closed : IsClosure depth visited
    pub at_depth : (d : Bytes) → contains dirs d ≡ true → At depth d
    pub seeds : (d : Bytes) → depth ≡ 1 → contains seed_dirs d ≡ true → contains dirs d ≡ true
    pub others :
        (g d : Bytes) (n : ℕ)
        → Map.lookup g visited ≡ some n
        → suc n ≡ depth
        → contains (dependency_dirs_for_file g) d ≡ true
        → contains dirs d ≡ true

  Reaches-positive :
      (n : ℕ) (f : Bytes)
      → Reaches graph seed_file seed_dirs n f
      → (1 ≤ n) × (bytes_beq f seed_file ≡ false)
  Reaches-positive n _ (direct f d s i a) = (omega arith, a)
  Reaches-positive n _ (further m g f d r s i a) = (omega arith, a)

  At-Reaches :
      (depth : ℕ) (f d : Bytes)
      → At depth d
      → imports graph f d ≡ true
      → bytes_beq f seed_file ≡ false
      → Reaches graph seed_file seed_dirs depth f
  At-Reaches depth f d (inl (one, seed)) i a =
      subst (λ n. Reaches graph seed_file seed_dirs n f) (sym one) (direct f d seed i a)
  At-Reaches depth f d (inr (g, n, e, r, own)) i a =
      subst (λ n. Reaches graph seed_file seed_dirs n f) e (further n g f d r own i a)

  module _ (depth : ℕ) (v : Map Bytes ℕ) (dirs : List Bytes) (h : IsLevel depth v dirs) where
    abbrev new : Bytes → Bool
    new f = is_new (find_direct_callers_for_dirs graph dirs) seed_file v f

    new-Reaches :
        (f : Bytes)
        → new f ≡ true
        → Reaches graph seed_file seed_dirs depth f
          × ((m : ℕ) → Reaches graph seed_file seed_dirs m f → depth ≤ m)
    new-Reaches f e =
        let (d, in_dirs, i) = callers-imports graph dirs f (ground arith) in
        (
          At-Reaches depth f d (h.at_depth d in_dirs) i (ground arith),
          λ m r. elim (Bool-cases (ltb m depth)) [
            | inl near ↦ let c = h.closed.complete f m r (ground arith) in absurd (ground arith)
            | inr far ↦ ground arith
          ],
        )

    -- the importers of a directory of the level are known after it
    importer-known :
        (f d : Bytes)
        → contains dirs d ≡ true
        → imports graph f d ≡ true
        → bytes_beq f seed_file ≡ false
        → (new f || has f v) ≡ true
    importer-known f d in_dirs i a =
        let c = imports-callers graph dirs f d in_dirs i in ground arith

    reached-known :
        (f : Bytes) (m : ℕ)
        → Reaches graph seed_file seed_dirs m f
        → m ≤ depth
        → (new f || has f v) ≡ true
    reached-known _ m (direct f d s i a) le = elim (Bool-cases (ltb 1 depth)) [
      | inl later ↦ let c = h.closed.complete f 1 (direct f d s i a) (ground arith) in ground arith
      | inr first ↦ let p = h.positive in importer-known f d (h.seeds d (ground arith) s) i a
    ]
    reached-known _ m (further n g f d r own i a) le = elim (Option-cases (Map.lookup g v)) [
      | inl none_there ↦ let c = h.closed.complete g n r (omega arith) in absurd (ground arith)
      | inr (k, there) ↦
          let (lt, rk, least) = h.closed.sound g k there in
          let le' : k ≤ n = least n r in
          elim (Bool-cases (ltb (suc k) depth)) [
            | inl early ↦
                let c = h.closed.complete f (suc k) (further k g f d rk own i a) (ground arith) in
                ground arith
            | inr now ↦ importer-known f d (h.others g d k there (ground arith) own) i a
          ]
    ]

    expand_impact_level-IsLevel :
        IsLevel
          (suc depth)
          (expand_impact_level graph seed_file dirs depth v).0
          (expand_impact_level graph seed_file dirs depth v).1
    unfolding expand_impact_level
    expand_impact_level-IsLevel =
        let callers = find_direct_callers_for_dirs graph dirs in
        let after = λ (f : Bytes). lookup-expand_callers callers seed_file depth v [] f in
        record {
          positive = omega arith;
          closed = record {
            sound = λ f n e. elim (Bool-cases (new f)) [
              | inl fresh ↦
                  let a = after f in
                  let same : n ≡ depth = ground arith in
                  let (reach, least) = new-Reaches f fresh in rw same (omega arith, reach, least)
              | inr old ↦
                  let a = after f in
                  let (lt, reach, least) = h.closed.sound f n (ground arith) in
                  (omega arith, reach, least)
            ];
            complete = λ f m r lt.
                let k = reached-known f m r (omega arith) in let a = after f in ground arith;
          };
          at_depth = λ d e. elim (expand_callers-next callers seed_file depth v [] d e) [
            | inl empty ↦ absurd (ground arith)
            | inr (f, fresh, own) ↦ inr (f, depth, refl, (new-Reaches f fresh).0, own)
          ];
          seeds = λ d one s. let p = h.positive in absurd (omega arith);
          others = λ g d n e last own.
              let a = after g in
              let fresh : new g ≡ true = elim (Bool-cases (new g)) [
                | inl known ↦ known
                | inr old ↦
                    let (lt, reach, least) = h.closed.sound g n (ground arith) in
                    absurd (omega arith)
              ] in
              next-expand_callers callers seed_file depth v [] g d (ground arith);
        }

  -- no directory is left: nothing else reaches the seed
  stalled-IsClosure :
      (depth more : ℕ) (v : Map Bytes ℕ) → IsLevel depth v [] → IsClosure (depth + more) v
  stalled-IsClosure depth more v h = record {
    sound = λ f n e. let (lt, reach, least) = h.closed.sound f n e in (omega arith, reach, least);
    complete = λ f m r lt. found f m r;
  }
    where
      found : (f : Bytes) (m : ℕ) → Reaches graph seed_file seed_dirs m f → has f v ≡ true
      found _ m (direct f d s i a) = elim (Bool-cases (ltb 1 depth)) [
        | inl later ↦ h.closed.complete f 1 (direct f d s i a) (ground arith)
        | inr first ↦
            let p = h.positive in let no = h.seeds d (ground arith) s in absurd (ground arith)
      ]
      found _ m (further n g f d r own i a) = elim (Option-cases (Map.lookup g v)) [
        | inl none_there ↦ let c = found g n r in absurd (ground arith)
        | inr (k, there) ↦
            let (lt, rk, least) = h.closed.sound g k there in
            elim (Bool-cases (ltb (suc k) depth)) [
              | inl early ↦ h.closed.complete f (suc k) (further k g f d rk own i a) (ground arith)
              | inr now ↦ let no = h.others g d k there (ground arith) own in absurd (ground arith)
            ]
      ]

  closure_from-IsClosure :
      (left depth : ℕ) (v : Map Bytes ℕ) (dirs : List Bytes)
      → IsLevel depth v dirs
      → IsClosure (depth + left) (closure_from graph seed_file left depth v dirs)
  unfolding closure_from
  closure_from-IsClosure zero depth v dirs h =
      let e : depth + 0 ≡ depth = omega arith in rw e h.closed
  closure_from-IsClosure (suc left) depth v dirs h =
      let level = expand_impact_level graph seed_file dirs depth v in
      go level.0 level.1 (expand_impact_level-IsLevel depth v dirs h)
        (λ after dirs' l. closure_from-IsClosure left (suc depth) after dirs' l)
    where
      go :
          (after : Map Bytes ℕ) (dirs' : List Bytes)
          → IsLevel (suc depth) after dirs'
          → ((after : Map Bytes ℕ) (dirs' : List Bytes)
              → IsLevel (suc depth) after dirs'
              → IsClosure
                  (suc depth + left)
                  (closure_from graph seed_file left (suc depth) after dirs'))
          → IsClosure (depth + suc left) (elim dirs' [
            | [] ↦ after
            | d ∷ ds ↦ closure_from graph seed_file left (suc depth) after (d ∷ ds)
          ])
      go after [] l later =
          let e : depth + suc left ≡ suc depth + left = omega arith in
          rw e (stalled-IsClosure (suc depth) left after l)
      go after (d ∷ ds) l later =
          let e : depth + suc left ≡ suc depth + left = omega arith in rw e (later after (d ∷ ds) l)

  pub visited-IsClosure :
      (max_depth : ℕ)
      → IsClosure (suc max_depth) (closure_from graph seed_file max_depth 1 [] seed_dirs)
  unfolding Map.lookup
  visited-IsClosure max_depth =
      let e : suc max_depth ≡ 1 + max_depth = omega arith in
      rw e (
        closure_from-IsClosure max_depth 1 [] seed_dirs (record {
          positive = omega arith;
          closed = record {
            sound = λ f n e. cc;
            complete = λ f m r lt. let (p, a) = Reaches-positive m f r in absurd (omega arith);
          };
          at_depth = λ d e. inl (refl, e);
          seeds = λ d e s. s;
          others = λ g d n e. cc;
        }))
