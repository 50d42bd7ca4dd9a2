-- ===== src/Projects/Closest.antt =====
-- The project that encloses a directory (internal/projectref/resolve.go).
use mathlib.Core.List.{Mem, mem-cons_self, mem-cons_of_mem}
use semidx.Prelude.{
  ℕ, ◌≤◌, ◌≡◌, ◌⊎◌, refl, sym, subst, ◌∙◌, true, false, Option, none, some, List, [], ◌∷◌, ltb,
  arith, All, inl, inr, Bool-cases, Option-cases,
}
use semidx.Prelude.Bytes.{Bytes}
use semidx.Projects.Above.{Encloses, enclosing_length-Encloses, Encloses-enclosing_length}
use semidx.Projects.{
  World, Project, canonical_path, enclosing_length, closest, better, project_of, enclosing,
  enclosing_at,
}

-- a value, if there is one, that is not above the length of the best
abbrev Below : Option ℕ → Option (Project × ℕ) → Type 0
Below none best = Unit
Below (some k) none = true ≡ false
Below (some k) (some b) = k ≤ b.1

abbrev length_of : Option (Project × ℕ) → Option ℕ
length_of none = none
length_of (some b) = some b.1

Below-trans :
    (k : Option ℕ) (a b : Option (Project × ℕ)) → Below k a → Below (length_of a) b → Below k b
Below-trans none a b h i = tt
Below-trans (some k) none b h i = absurd cc
Below-trans (some k) (some a) none h i = absurd cc
Below-trans (some k) (some a) (some b) h i = omega arith

Below-better :
    (p : Project) (k : Option ℕ) (best : Option (Project × ℕ))
    → Below (length_of best) (better p k best) × Below k (better p k best)
unfolding better
Below-better p none none = (tt, tt)
Below-better p none (some b) = (omega arith, tt)
Below-better p (some n) none = (tt, omega arith)
Below-better p (some n) (some b) = elim (Bool-cases (ltb b.1 n)) [
  | inl longer ↦ rw longer (ground arith, omega arith)
  | inr kept ↦ rw kept (omega arith, ground arith)
]

better-cases :
    (p : Project) (k : Option ℕ) (best : Option (Project × ℕ))
    → (better p k best ≡ best) ⊎ ((n : ℕ) × (better p k best ≡ some (p, n)) × (k ≡ some n))
unfolding better
better-cases p none best = inl refl
better-cases p (some n) none = inr (n, refl, refl)
better-cases p (some n) (some b) = elim (Bool-cases (ltb b.1 n)) [
  | inl longer ↦ inr (n, rw longer refl, refl)
  | inr kept ↦ inl (rw kept refl)
]

module _ (w : World) (cwd : Bytes) where
  -- the best of the projects and of the one before them
  Below-closest :
      (ps : List Project) (best : Option (Project × ℕ))
      → Below (length_of best) (closest w cwd ps best)
        × All (λ q. Below (enclosing_length w cwd q) (closest w cwd ps best)) ps
  unfolding closest
  Below-closest [] none = (tt, tt)
  Below-closest [] (some b) = (omega arith, tt)
  Below-closest (p ∷ ps) best =
      let k = enclosing_length w cwd p in
      let (this, rest) = Below-closest ps (better p k best) in
      let (old, own) = Below-better p k best in
      let last = closest w cwd ps (better p k best) in
      (
        Below-trans (length_of best) (better p k best) last old this,
        (Below-trans k (better p k best) last own this, rest),
      )

  -- a project of the list, if it is not the one before them
  abbrev FromList : List Project → Option (Project × ℕ) → Type 0
  FromList ps o =
      (p : Project) × (n : ℕ) × (o ≡ some (p, n)) × Mem p ps × (enclosing_length w cwd p ≡ some n)

  closest-FromList :
      (ps : List Project) (best : Option (Project × ℕ))
      → (closest w cwd ps best ≡ best) ⊎ FromList ps (closest w cwd ps best)
  unfolding closest
  closest-FromList [] best = inl refl
  closest-FromList (p ∷ ps) best =
      let k = enclosing_length w cwd p in
      elim (closest-FromList ps (better p k best)) [
        | inr (q, n, e, there, length) ↦ inr (q, n, e, mem-cons_of_mem p there, length)
        | inl same ↦ elim (better-cases p k best) [
          | inl kept ↦ inl (same ∙ kept)
          | inr (n, e, length) ↦ inr (p, n, same ∙ e, mem-cons_self, length)
        ]
      ]

-- by the lengths that the loop computes
abbrev IsLongest : World → Bytes → List Project → Option Project → Type 0
IsLongest w c ps none = All (λ q. enclosing_length w c q ≡ none) ps
IsLongest w c ps (some p) =
    Mem p ps
    × ((n : ℕ) × (enclosing_length w c p ≡ some n)
        × All (λ q. (k : ℕ) → enclosing_length w c q ≡ some k → k ≤ n) ps)

-- What `Enclosing` returns for the canonical path of the directory: a project of the list that
-- encloses it, by a path that no other such project's is longer than; and no project only if none
-- encloses it.
abbrev pub IsClosest : World → Bytes → List Project → Option Project → Type 0
IsClosest w c ps none = All (λ q. (k : ℕ) → ¬ Encloses w c q k) ps
IsClosest w c ps (some p) =
    Mem p ps × ((n : ℕ) × Encloses w c p n × All (λ q. (k : ℕ) → Encloses w c q k → k ≤ n) ps)

module _ (w : World) (c : Bytes) where
  none-Below :
      (ps : List Project)
      → All (λ q. Below (enclosing_length w c q) none) ps
      → All (λ q. enclosing_length w c q ≡ none) ps
  none-Below [] h = tt
  none-Below (q ∷ ps) h = (
    elim (Option-cases (enclosing_length w c q)) [
      | inl e ↦ e
      | inr (k, e) ↦ let no : true ≡ false = subst (λ o. Below o none) e h.0 in cc
    ],
    none-Below ps h.1,
  )

  all-Below :
      (ps : List Project) (b : Project × ℕ)
      → All (λ q. Below (enclosing_length w c q) (some b)) ps
      → All (λ q. (k : ℕ) → enclosing_length w c q ≡ some k → k ≤ b.1) ps
  all-Below [] b h = tt
  all-Below (q ∷ ps) b h = (λ k e. subst (λ o. Below o (some b)) e h.0, all-Below ps b h.1)

  closest-IsLongest : (ps : List Project) → IsLongest w c ps (project_of (closest w c ps none))
  closest-IsLongest ps =
      let (first, rest) = Below-closest w c ps none in
      elim (closest-FromList w c ps none) [
        | inl miss ↦
            rw miss (
              none-Below ps (subst (λ o. All (λ q. Below (enclosing_length w c q) o) ps) miss rest))
        | inr (p, n, e, there, length) ↦ rw e (
          there,
          (
            n,
            length,
            all-Below ps (p, n)
                (subst (λ o. All (λ q. Below (enclosing_length w c q) o) ps) e rest),
          ),
        )
      ]

  none-IsClosest : (ps : List Project) → IsLongest w c ps none → IsClosest w c ps none
  none-IsClosest [] h = tt
  none-IsClosest (q ∷ ps) h = (
    λ k e. let both : none ≡ some k = sym h.0 ∙ Encloses-enclosing_length w c q k e in cc,
    none-IsClosest ps h.1,
  )

  all-Encloses :
      (ps : List Project) (n : ℕ)
      → All (λ q. (k : ℕ) → enclosing_length w c q ≡ some k → k ≤ n) ps
      → All (λ q. (k : ℕ) → Encloses w c q k → k ≤ n) ps
  all-Encloses [] n h = tt
  all-Encloses (q ∷ ps) n h =
      (λ k e. h.0 k (Encloses-enclosing_length w c q k e), all-Encloses ps n h.1)

  IsLongest-IsClosest :
      (ps : List Project) (o : Option Project) → IsLongest w c ps o → IsClosest w c ps o
  IsLongest-IsClosest ps none h = none-IsClosest ps h
  IsLongest-IsClosest ps (some p) (there, (n, length, longest)) =
      (there, (n, enclosing_length-Encloses w c p n length, all-Encloses ps n longest))

-- by the canonical path of the directory
abbrev pub IsEnclosing : World → List Project → Option Bytes → Option Project → Type 0
IsEnclosing w ps none r = r ≡ none
IsEnclosing w ps (some c) r = IsClosest w c ps r

-- `Enclosing` finds nothing for a directory without a canonical path. Otherwise it returns a project
-- of the list whose canonical path is that of the directory, or is followed in it by a slash, with
-- no longer such path in the list; and nothing exactly when there is no such project. So a project
-- at the root `/` is found for the root itself only.
pub enclosing-IsEnclosing :
    (w : World) (cwd : Bytes) (ps : List Project)
    → IsEnclosing w ps (canonical_path w cwd) (enclosing w cwd ps)
unfolding enclosing
enclosing-IsEnclosing w cwd ps = go (canonical_path w cwd)
  where
    go : (o : Option Bytes) → IsEnclosing w ps o (enclosing_at w ps o)
    go none = refl
    go (some c) =
        IsLongest-IsClosest w c ps (project_of (closest w c ps none)) (closest-IsLongest w c ps)
