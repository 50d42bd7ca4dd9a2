-- ===== src/Projects/Named.antt =====
-- Search by name in the list of the projects (internal/projectref/resolve.go).
use mathlib.Core.List.{Mem, mem-cons_self, mem-cons_of_mem}
use semidx.Prelude.{
  ℕ, suc, ◌+◌, ◌≤◌, ◌≡◌, refl, subst, Bool, true, false, Option, none, some, List, [], ◌∷◌, ◌++◌,
  arith, All, inl, inr, Bool-cases, length, length-append, if◌then◌else◌,
}
use semidx.Prelude.Bytes.{Bytes, bytes_beq}
use semidx.Projects.{World, Project, find_first, is_named, scan_names}

pub find_first-Mem :
    (test : Project → Bool) (ps : List Project) (p : Project)
    → find_first test ps ≡ some p
    → Mem p ps × (test p ≡ true)
find_first-Mem test [] p e = cc
find_first-Mem test (q ∷ ps) p e = elim (Bool-cases (test q)) [
  | inl passes ↦
      let same : some q ≡ some p =
        subst (λ b. (if b then some q else find_first test ps) ≡ some p) passes e in
      let (m, t) = from_some q p same in (m, t passes)
  | inr other ↦
      let later : find_first test ps ≡ some p =
        subst (λ b. (if b then some q else find_first test ps) ≡ some p) other e in
      let (m, t) = find_first-Mem test ps p later in (mem-cons_of_mem q m, t)
]
  where
    from_some : (q p : Project) → some q ≡ some p → Mem p (q ∷ ps) × (test q ≡ true → test p ≡ true)
    from_some q p same =
        let e : q ≡ p = cc in
        (subst (λ x. Mem x (q ∷ ps)) e mem-cons_self, λ h. subst (λ x. test x ≡ true) e h)

pub find_first-none :
    (test : Project → Bool) (ps : List Project)
    → find_first test ps ≡ none
    → All (λ q. test q ≡ false) ps
find_first-none test [] e = tt
find_first-none test (q ∷ ps) e = elim (Bool-cases (test q)) [
  | inl passes ↦ absurd (ground arith)
  | inr other ↦ (other, find_first-none test ps (ground arith))
]

module _ (w : World) (ref : Bytes) where
  -- how many of the projects have the name, in any case
  abbrev pub named : List Project → ℕ
  named [] = 0
  named (p ∷ ps) = let n = named ps in if is_named w ref p then suc n else n

  -- the project that matched, if it is one of the list or was there before
  abbrev pub IsMatch : List Project → Option Project → Option Project → Type 0
  IsMatch ps none none = named ps ≡ 0
  IsMatch ps none (some p) = Mem p ps × (is_named w ref p ≡ true) × (1 ≤ named ps)
  IsMatch ps (some q) r = r ≡ some q

  later :
      (p : Project) (ps : List Project)
      → is_named w ref p ≡ false
      → (o : Option Project) → IsMatch ps none o
      → IsMatch (p ∷ ps) none o
  later p ps other none m = rw other m
  later p ps other (some q) m = (mem-cons_of_mem p m.0, m.1, rw other m.2)

  pub scan_names-IsMatch :
      (ps : List Project) (matched : Option Project) (identities : List Bytes)
      → IsMatch ps matched (scan_names w ref ps matched identities).0
        × (length (scan_names w ref ps matched identities).1 ≡ length identities + named ps)
  unfolding scan_names
  scan_names-IsMatch [] none identities = (refl, omega arith)
  scan_names-IsMatch [] (some q) identities = (refl, omega arith)
  scan_names-IsMatch (p ∷ ps) none identities = elim (Bool-cases (is_named w ref p)) [
    | inl here ↦
        let own = (if bytes_beq p.identity [] then p.path else p.identity) ∷ [] in
        let (m, n) = scan_names-IsMatch ps (some p) (identities ++ own) in
        rw (here, scan_names)
          (
            rw m (mem-cons_self, here, ground arith),
            rw n (omega (arith, length-append identities own)),
          )
    | inr other ↦
        let (m, n) = scan_names-IsMatch ps none identities in
        rw (other, scan_names) (later p ps other (scan_names w ref ps none identities).0 m, n)
  ]
  scan_names-IsMatch (p ∷ ps) (some q) identities = elim (Bool-cases (is_named w ref p)) [
    | inl here ↦
        let own = (if bytes_beq p.identity [] then p.path else p.identity) ∷ [] in
        let (m, n) = scan_names-IsMatch ps (some q) (identities ++ own) in
        rw (here, scan_names) (m, rw n (omega (arith, length-append identities own)))
    | inr other ↦ rw (other, scan_names) (scan_names-IsMatch ps (some q) identities)
  ]
