-- ===== src/Codeintel/Impact/Reached.antt =====
-- The files that reach a directory by imports, and how one level of internal/codeintel/impact.go finds
-- them.
use semidx.Prelude.{
  ℕ, suc, ◌≡◌, ◌⊎◌, refl, sym, ap, ◌∙◌, subst, Bool, true, false, ◌||◌, ◌&&◌, not, some, List, [],
  ◌∷◌, ◌++◌, map, arith, inl, inr, Bool-cases, if◌then◌else◌,
}
use semidx.Prelude.Eq.{contains, contains-append}
use semidx.Prelude.Bytes.{Bytes, bytes_beq, bytes_beq_iff, bytes_eq}
use semidx.Prelude.Map
use semidx.Prelude.Map.{Map, has, lookup-insert}
use semidx.Codeintel.Dependencies.{
  ImportGraph, find_direct_callers_for_dirs, imports_one_of, normalize_dependency_dir,
  dependency_dirs_for_file,
}
use semidx.Codeintel.Impact.{expand_callers, add_next_dirs}

-- the file imports the directory
abbrev pub imports : ImportGraph → Bytes → Bytes → Bool
imports graph f d = contains (find_direct_callers_for_dirs graph (d ∷ [])) f

-- The file, which is not the seed, reaches one of the directories in `n` imports, over files that are
-- not the seed: each imports a directory of the one before.
pub data Reaches (graph : ImportGraph) (seed_file : Bytes) (seed_dirs : List Bytes)
    : ℕ → Bytes → Type 0 where
  direct :
      (f d : Bytes)
      → contains seed_dirs d ≡ true
      → imports graph f d ≡ true
      → bytes_beq f seed_file ≡ false
      → Reaches graph seed_file seed_dirs 1 f
  further :
      (n : ℕ) (g f d : Bytes)
      → Reaches graph seed_file seed_dirs n g
      → contains (dependency_dirs_for_file g) d ≡ true
      → imports graph f d ≡ true
      → bytes_beq f seed_file ≡ false
      → Reaches graph seed_file seed_dirs (suc n) f

contains-map :
    (h : Bytes → Bytes) (ds : List Bytes) (x : Bytes)
    → contains (map h ds) x ≡ true
    → (d : Bytes) × (contains ds d ≡ true) × (bytes_beq (h d) x ≡ true)
contains-map h [] x e = cc
contains-map h (d ∷ ds) x e = elim (Bool-cases (bytes_beq (h d) x)) [
  | inl same ↦ (d, ground (arith, bytes_beq_iff d d), same)
  | inr other ↦ let (c, in_ds, same) = contains-map h ds x (ground arith) in (c, ground arith, same)
]

map-contains :
    (h : Bytes → Bytes) (ds : List Bytes) (d x : Bytes)
    → contains ds d ≡ true
    → bytes_beq (h d) x ≡ true
    → contains (map h ds) x ≡ true
map-contains h [] d x e s = cc
map-contains h (c ∷ ds) d x e s = ground (arith, map-contains h ds d x, bytes_beq_iff c d)

-- a file with a wanted target imports one of the directories, and the other way round
one_of-imports :
    (targets ds : List Bytes)
    → imports_one_of targets (map normalize_dependency_dir ds) ≡ true
    → (d : Bytes) × (contains ds d ≡ true)
      × (imports_one_of targets (map normalize_dependency_dir (d ∷ [])) ≡ true)
unfolding imports_one_of
one_of-imports [] ds e = cc
one_of-imports (t ∷ targets) ds e =
    elim (Bool-cases (contains (map normalize_dependency_dir ds) (normalize_dependency_dir t))) [
      | inl wanted ↦
          let (d, in_ds, same) =
            contains-map normalize_dependency_dir ds (normalize_dependency_dir t) wanted in
          (d, in_ds, ground arith)
      | inr other ↦
          let (d, in_ds, there) = one_of-imports targets ds (ground arith) in
          (d, in_ds, ground arith)
    ]

imports-one_of :
    (targets ds : List Bytes) (d : Bytes)
    → contains ds d ≡ true
    → imports_one_of targets (map normalize_dependency_dir (d ∷ [])) ≡ true
    → imports_one_of targets (map normalize_dependency_dir ds) ≡ true
unfolding imports_one_of
imports-one_of [] ds d e h = cc
imports-one_of (t ∷ targets) ds d e h = ground (
  arith,
  imports-one_of targets ds d e,
  map-contains normalize_dependency_dir ds d (normalize_dependency_dir t) e,
)

pub callers-imports :
    (graph : ImportGraph) (ds : List Bytes) (f : Bytes)
    → contains (find_direct_callers_for_dirs graph ds) f ≡ true
    → (d : Bytes) × (contains ds d ≡ true) × (imports graph f d ≡ true)
unfolding find_direct_callers_for_dirs
callers-imports [] ds f h = cc
callers-imports ((src, targets) ∷ graph) ds f h =
    elim (Bool-cases
      (bytes_beq src f && imports_one_of targets (map normalize_dependency_dir ds))) [
        | inl here ↦
            let (d, in_ds, there) = one_of-imports targets ds (ground arith) in
            (d, in_ds, ground arith)
        | inr later ↦
            let (d, in_ds, there) = callers-imports graph ds f (ground arith) in
            (d, in_ds, ground arith)
      ]

pub imports-callers :
    (graph : ImportGraph) (ds : List Bytes) (f d : Bytes)
    → contains ds d ≡ true
    → imports graph f d ≡ true
    → contains (find_direct_callers_for_dirs graph ds) f ≡ true
unfolding find_direct_callers_for_dirs
imports-callers [] ds f d e h = cc
imports-callers ((src, targets) ∷ graph) ds f d e h =
    ground (arith, imports-callers graph ds f d e, imports-one_of targets ds d e)

-- a caller that the level adds
abbrev pub is_new : List Bytes → Bytes → Map Bytes ℕ → Bytes → Bool
is_new callers seed_file visited f =
    contains callers f && (not (bytes_beq f seed_file) && not (has f visited))

is_new-skipped :
    (callers : List Bytes) (seed_file c : Bytes) (v : Map Bytes ℕ) (f : Bytes)
    → (bytes_beq c seed_file || has c v) ≡ true
    → is_new (c ∷ callers) seed_file v f ≡ is_new callers seed_file v f
is_new-skipped callers seed_file c v f h = elim (Bool-cases (bytes_beq c f)) [
  | inl same ↦
      let e = (bytes_beq_iff c f).0 same in
      let h' : (bytes_beq f seed_file || has f v) ≡ true =
        subst (λ g. (bytes_beq g seed_file || has g v) ≡ true) e h in
      ground arith
  | inr other ↦ ground arith
]

is_new-fresh :
    (callers : List Bytes) (seed_file c : Bytes) (depth : ℕ) (v : Map Bytes ℕ) (f : Bytes)
    → (bytes_beq c seed_file || has c v) ≡ false
    → is_new (c ∷ callers) seed_file v f
      ≡ (bytes_beq c f || is_new callers seed_file (Map.insert c depth v) f)
is_new-fresh callers seed_file c depth v f h = elim (Bool-cases (bytes_beq c f)) [
  | inl same ↦
      let e = (bytes_beq_iff c f).0 same in
      let h' : (bytes_beq f seed_file || has f v) ≡ false =
        subst (λ g. (bytes_beq g seed_file || has g v) ≡ false) e h in
      ground arith
  | inr other ↦ ground (arith, lookup-insert c f depth v)
]

pub lookup-expand_callers :
    (callers : List Bytes) (seed_file : Bytes) (depth : ℕ) (v : Map Bytes ℕ) (next : List Bytes)
    (f : Bytes)
    → Map.lookup f (expand_callers callers seed_file depth v next).0
      ≡ (if is_new callers seed_file v f then some depth else Map.lookup f v)
unfolding expand_callers
lookup-expand_callers [] seed_file depth v next f = refl
lookup-expand_callers (c ∷ callers) seed_file depth v next f =
    elim (Bool-cases (bytes_beq c seed_file || has c v)) [
      | inl skipped ↦
          rw (is_new-skipped callers seed_file c v f skipped)
            (rw (skipped, expand_callers) (lookup-expand_callers callers seed_file depth v next f))
      | inr fresh ↦ rw (is_new-fresh callers seed_file c depth v f fresh) (
          rw (fresh, expand_callers)
            (rw
              (lookup-expand_callers callers seed_file depth (Map.insert c depth v)
                (add_next_dirs next (dependency_dirs_for_file c)) f)
              (ground (arith, lookup-insert c f depth v))))
    ]

contains-add_next_dirs :
    (next dirs : List Bytes) (d : Bytes)
    → contains (add_next_dirs next dirs) d ≡ (contains next d || contains dirs d)
contains-add_next_dirs next [] d = ground arith
contains-add_next_dirs next (c ∷ dirs) d = elim (Bool-cases (contains next c)) [
  | inl old ↦ rw (old, contains-add_next_dirs next dirs d) (ground (arith, bytes_beq_iff c d))
  | inr new ↦
      rw (new, contains-add_next_dirs (next ++ c ∷ []) dirs d)
        (ground (arith, contains-append next (c ∷ []) d))
]

-- the directories of the callers that the level adds are among those it returns, with those it began
-- with
pub next-expand_callers :
    (callers : List Bytes) (seed_file : Bytes) (depth : ℕ) (v : Map Bytes ℕ) (next : List Bytes)
    (f d : Bytes)
    → (contains next d || (is_new callers seed_file v f && contains (dependency_dirs_for_file f) d))
      ≡ true
    → contains (expand_callers callers seed_file depth v next).1 d ≡ true
unfolding expand_callers
next-expand_callers [] seed_file depth v next f d h = ground arith
next-expand_callers (c ∷ callers) seed_file depth v next f d h =
    elim (Bool-cases (bytes_beq c seed_file || has c v)) [
      | inl skipped ↦
          rw (skipped, expand_callers)
            (next-expand_callers callers seed_file depth v next f d
              (rw (is_new-skipped callers seed_file c v f skipped) at h))
      | inr fresh ↦
          let k : (contains next d
                || (bytes_beq c f || is_new callers seed_file (Map.insert c depth v) f)
                  && contains (dependency_dirs_for_file f) d)
              ≡ true =
            rw (is_new-fresh callers seed_file c depth v f fresh) at h in
          rw (fresh, expand_callers)
            (next-expand_callers callers seed_file depth (Map.insert c depth v)
              (add_next_dirs next (dependency_dirs_for_file c)) f d
              (rw contains-add_next_dirs (known k)))
    ]
  where
    known :
        ((contains next d
            || (bytes_beq c f || is_new callers seed_file (Map.insert c depth v) f)
              && contains (dependency_dirs_for_file f) d)
          ≡ true)
        → (contains next d
            || contains (dependency_dirs_for_file c) d
            || (is_new callers seed_file (Map.insert c depth v) f
                && contains (dependency_dirs_for_file f) d))
          ≡ true
    known k = elim (Bool-cases (bytes_beq c f)) [
      | inl same ↦
          let w : contains (dependency_dirs_for_file c) d
              ≡ contains (dependency_dirs_for_file f) d =
            ap (λ g. contains (dependency_dirs_for_file g) d) ((bytes_beq_iff c f).0 same) in
          ground arith
      | inr other ↦ ground arith
    ]

-- and there are no others
pub expand_callers-next :
    (callers : List Bytes) (seed_file : Bytes) (depth : ℕ) (v : Map Bytes ℕ) (next : List Bytes)
    (d : Bytes)
    → contains (expand_callers callers seed_file depth v next).1 d ≡ true
    → (contains next d ≡ true)
      ⊎ ((f : Bytes) × (is_new callers seed_file v f ≡ true)
          × (contains (dependency_dirs_for_file f) d ≡ true))
unfolding expand_callers
expand_callers-next [] seed_file depth v next d h = inl h
expand_callers-next (c ∷ callers) seed_file depth v next d h =
    elim (Bool-cases (bytes_beq c seed_file || has c v)) [
      | inl skipped ↦
          elim (expand_callers-next callers seed_file depth v next d
            (rw (skipped, expand_callers) at h)) [
              | inl old ↦ inl old
              | inr (f, new, there) ↦
                  inr (f, is_new-skipped callers seed_file c v f skipped ∙ new, there)
            ]
      | inr fresh ↦
          elim (expand_callers-next callers seed_file depth (Map.insert c depth v)
            (add_next_dirs next (dependency_dirs_for_file c)) d (rw (fresh, expand_callers) at h)) [
              | inl old ↦
                  let o : (contains next d || contains (dependency_dirs_for_file c) d) ≡ true =
                    sym (contains-add_next_dirs next (dependency_dirs_for_file c) d) ∙ old in
                  elim (Bool-cases (contains next d)) [
                    | inl was ↦ inl was
                    | inr own ↦ inr (
                      c,
                      is_new-fresh callers seed_file c depth v c fresh
                          ∙ ground (arith, bytes_beq_iff c c),
                      ground arith,
                    )
                  ]
              | inr (f, new, there) ↦
                  inr (f, is_new-fresh callers seed_file c depth v f fresh ∙ ground arith, there)
            ]
    ]
