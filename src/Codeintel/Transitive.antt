-- ===== src/Codeintel/Transitive.antt =====
-- The transitive callers that internal/codeintel/callers.go lists.
use semidx.Prelude.{
  ◌≡◌, ◌⊎◌, ◌↔◌, refl, sym, subst, ◌∙◌, true, false, not, ◌||◌, ◌&&◌, List, [], ◌∷◌, arith, inl,
  inr, Bool-cases,
}
use semidx.Prelude.Eq.{contains}
use semidx.Prelude.Bytes.{Bytes, bytes_beq, bytes_beq_iff, bytes_eq}
use semidx.Codeintel.Dependencies.{
  ImportGraph, find_direct_callers_for_dirs, dependency_dirs_for_file, add_callers, callers_of_all,
  without, collect_transitive_callers,
}
use semidx.Codeintel.Impact.Reached.{imports, callers-imports, imports-callers}

contains-add_callers :
    (callers : List Bytes) (exclude : Bytes) (set : List Bytes) (f : Bytes)
    → contains (add_callers callers exclude set) f
      ≡ (contains set f || (contains callers f && not (bytes_beq f exclude)))
contains-add_callers [] exclude set f = ground arith
contains-add_callers (c ∷ callers) exclude set f =
    elim (Bool-cases (bytes_beq c exclude || contains set c)) [
      | inl skipped ↦
          rw (skipped, contains-add_callers callers exclude set f)
            (ground (arith, bytes_beq_iff c f, bytes_beq_iff c exclude, bytes_beq_iff f exclude))
      | inr fresh ↦
          rw (fresh, contains-add_callers callers exclude (c ∷ set) f)
            (ground (arith, bytes_beq_iff c f, bytes_beq_iff c exclude, bytes_beq_iff f exclude))
    ]

contains-without :
    (direct set : List Bytes) (f : Bytes)
    → contains (without direct set) f ≡ (contains set f && not (contains direct f))
contains-without direct [] f = refl
contains-without direct (x ∷ set) f =
    ground (arith, contains-without direct set f, bytes_beq_iff x f)

-- the file imports a package of one of the callers
abbrev pub ImportsOneOf : ImportGraph → Bytes → List Bytes → Type 0
ImportsOneOf graph f direct =
    (g : Bytes) × (d : Bytes) × (contains direct g ≡ true)
    × (contains (dependency_dirs_for_file g) d ≡ true)
    × (imports graph f d ≡ true)

module _ (graph : ImportGraph) (exclude f : Bytes) where
  one_more :
      (g : Bytes) (direct : List Bytes)
      → ImportsOneOf graph f direct
      → ImportsOneOf graph f (g ∷ direct)
  one_more g direct (h, d, in_direct, own, i) = (h, d, ground arith, own, i)

  callers_of_all-Imports :
      (direct set : List Bytes)
      → contains (callers_of_all graph direct exclude set) f ≡ true
      → (contains set f ≡ true) ⊎ ((bytes_beq f exclude ≡ false) × ImportsOneOf graph f direct)
  callers_of_all-Imports [] set h = inl h
  callers_of_all-Imports (g ∷ direct) set h =
      let callers = find_direct_callers_for_dirs graph (dependency_dirs_for_file g) in
      elim (callers_of_all-Imports direct (add_callers callers exclude set) h) [
        | inl here ↦
            let e = sym (contains-add_callers callers exclude set f) ∙ here in
            elim (Bool-cases (contains set f)) [
              | inl old ↦ inl old
              | inr new ↦
                  let (d, own, i) =
                    callers-imports graph (dependency_dirs_for_file g) f (ground arith) in
                  inr (ground arith, (g, d, ground (arith, bytes_beq_iff g g), own, i))
            ]
        | inr (a, later) ↦ inr (a, one_more g direct later)
      ]

  callers_of_all-keeps :
      (direct set : List Bytes)
      → contains set f ≡ true
      → contains (callers_of_all graph direct exclude set) f ≡ true
  callers_of_all-keeps [] set h = h
  callers_of_all-keeps (g ∷ direct) set h =
      let callers = find_direct_callers_for_dirs graph (dependency_dirs_for_file g) in
      callers_of_all-keeps direct (add_callers callers exclude set)
        (ground (arith, contains-add_callers callers exclude set f))

  Imports-callers_of_all :
      (direct set : List Bytes) (g d : Bytes)
      → bytes_beq f exclude ≡ false
      → contains direct g ≡ true
      → contains (dependency_dirs_for_file g) d ≡ true
      → imports graph f d ≡ true
      → contains (callers_of_all graph direct exclude set) f ≡ true
  Imports-callers_of_all [] set g d a there own i = cc
  Imports-callers_of_all (c ∷ direct) set g d a there own i =
      let callers = find_direct_callers_for_dirs graph (dependency_dirs_for_file c) in
      elim (Bool-cases (bytes_beq c g)) [
        | inl same ↦
            let own' : contains (dependency_dirs_for_file c) d ≡ true =
              subst (λ h. contains (dependency_dirs_for_file h) d ≡ true)
                (sym ((bytes_beq_iff c g).0 same)) own in
            let k = imports-callers graph (dependency_dirs_for_file c) f d own' i in
            callers_of_all-keeps direct (add_callers callers exclude set)
              (ground (arith, contains-add_callers callers exclude set f))
        | inr other ↦
            Imports-callers_of_all direct (add_callers callers exclude set) g d a (ground arith) own
              i
      ]

-- A file is listed as a transitive caller exactly when it is neither a direct caller nor the excluded
-- file, and imports a directory of one of the direct callers: one level beyond them, and no more.
pub collect_transitive_callers_iff :
    (graph : ImportGraph) (direct : List Bytes) (exclude f : Bytes)
    → (contains (collect_transitive_callers graph direct exclude) f ≡ true)
      ↔ ((contains direct f ≡ false) × (bytes_beq f exclude ≡ false) × ImportsOneOf graph f direct)
unfolding collect_transitive_callers
collect_transitive_callers_iff graph direct exclude f = (
  λ h.
      let e = sym (contains-without direct (callers_of_all graph direct exclude []) f) ∙ h in
      elim (callers_of_all-Imports graph exclude f direct [] (ground arith)) [
        | inl empty ↦ absurd (ground arith)
        | inr (a, one_of) ↦ (ground arith, a, one_of)
      ],
  λ t.
      let (outside, a, (g, d, there, own, i)) = t in
      let k = Imports-callers_of_all graph exclude f direct [] g d a there own i in
      ground (arith, contains-without direct (callers_of_all graph direct exclude []) f),
)
