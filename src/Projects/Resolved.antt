-- ===== src/Projects/Resolved.antt =====
-- The answers of `resolveInList` (internal/projectref/resolve.go).
use mathlib.Core.List.{Mem}
use semidx.Prelude.{
  ◌≤◌, ◌≡◌, ◌⊎◌, refl, subst, true, false, Option, none, some, List, [], ltb, arith, All, inl, inr,
  Bool-cases, Option-cases, length, if◌then◌else◌,
}
use semidx.Prelude.Bytes.{Bytes, bytes_beq}
use semidx.Projects.{
  World, Project, Resolution, found, ambiguous, not_found, store_failed, find_first,
  find_by_identity, canonical_path, is_named, scan_names, named_or, is_at, find_by_indexed_path,
  enclosing, found_or, resolve_in_list,
}
use semidx.Projects.Named.{find_first-Mem, find_first-none, named, IsMatch, scan_names-IsMatch}

module _ (w : World) (ref : Bytes) where
  -- the reference is none of the names, and finds a project by the identity, the path or the
  -- directory, in this order
  abbrev pub IsUnnamed : Bytes → List Project → Resolution → Type 0
  IsUnnamed cwd ps (found p) =
      (Mem p ps × (bytes_beq p.identity ref ≡ true))
      ⊎ ((find_by_identity ps ref ≡ none)
          × ((Mem p ps × (is_at w (canonical_path w ref) p ≡ true))
              ⊎ ((find_by_indexed_path w ref ps ≡ none) × (enclosing w cwd ps ≡ some p))))
  IsUnnamed cwd ps (ambiguous r ids) = true ≡ false
  IsUnnamed cwd ps not_found =
      ((bytes_beq ref [] ≡ true) ⊎ All (λ q. bytes_beq q.identity ref ≡ false) ps)
      × All (λ q. is_at w (canonical_path w ref) q ≡ false) ps
      × ((bytes_beq cwd [] ≡ true) ⊎ (enclosing w cwd ps ≡ none))
  IsUnnamed cwd ps store_failed = true ≡ false

  -- the answer for a reference by the number of the projects that it names
  abbrev pub IsResolved : Bytes → List Project → Resolution → Type 0
  IsResolved cwd ps (ambiguous r ids) =
      (2 ≤ named w ref ps) × (r ≡ ref) × (length ids ≡ named w ref ps)
  IsResolved cwd ps (found p) =
      ((named w ref ps ≡ 1) × Mem p ps × (is_named w ref p ≡ true))
      ⊎ ((named w ref ps ≡ 0) × IsUnnamed cwd ps (found p))
  IsResolved cwd ps not_found = (named w ref ps ≡ 0) × IsUnnamed cwd ps not_found
  IsResolved cwd ps store_failed = true ≡ false

  identity-Mem :
      (ps : List Project) (p : Project)
      → find_by_identity ps ref ≡ some p
      → Mem p ps × (bytes_beq p.identity ref ≡ true)
  unfolding find_by_identity
  identity-Mem ps p e = elim (Bool-cases (bytes_beq ref [])) [
    | inl empty ↦
        let no : none ≡ some p =
          subst (λ b. (if b then none else find_first (λ q. bytes_beq q.identity ref) ps) ≡ some p)
            empty e in
        cc
    | inr given ↦
        find_first-Mem (λ q. bytes_beq q.identity ref) ps p
          (subst (λ b. (if b then none else find_first (λ q. bytes_beq q.identity ref) ps) ≡ some p)
            given e)
  ]

  identity-none :
      (ps : List Project)
      → find_by_identity ps ref ≡ none
      → (bytes_beq ref [] ≡ true) ⊎ All (λ q. bytes_beq q.identity ref ≡ false) ps
  unfolding find_by_identity
  identity-none ps e = elim (Bool-cases (bytes_beq ref [])) [
    | inl empty ↦ inl empty
    | inr given ↦ inr (
        find_first-none (λ q. bytes_beq q.identity ref) ps
          (subst (λ b. (if b then none else find_first (λ q. bytes_beq q.identity ref) ps) ≡ none)
            given e))
  ]

  path-Mem :
      (ps : List Project) (p : Project)
      → find_by_indexed_path w ref ps ≡ some p
      → Mem p ps × (is_at w (canonical_path w ref) p ≡ true)
  unfolding find_by_indexed_path
  path-Mem ps p e = find_first-Mem (is_at w (canonical_path w ref)) ps p e

  path-none :
      (ps : List Project)
      → find_by_indexed_path w ref ps ≡ none
      → All (λ q. is_at w (canonical_path w ref) q ≡ false) ps
  unfolding find_by_indexed_path
  path-none ps e = find_first-none (is_at w (canonical_path w ref)) ps e

  by_directory :
      (cwd : Bytes) (ps : List Project)
      → ((bytes_beq cwd [] ≡ true) ⊎ (enclosing w cwd ps ≡ none))
          × ((if bytes_beq cwd [] then none else enclosing w cwd ps) ≡ none)
        ⊎ ((p : Project) × (enclosing w cwd ps ≡ some p)
            × ((if bytes_beq cwd [] then none else enclosing w cwd ps) ≡ some p))
  by_directory cwd ps = elim (Bool-cases (bytes_beq cwd [])) [
    | inl empty ↦ inl (inl empty, rw empty refl)
    | inr given ↦ elim (Option-cases (enclosing w cwd ps)) [
      | inl e ↦ inl (inr e, rw given e)
      | inr (p, e) ↦ inr (p, e, rw given e)
    ]
  ]

  found_or-IsUnnamed :
      (cwd : Bytes) (ps : List Project)
      → IsUnnamed cwd ps (
          found_or (find_by_identity ps ref) (
            found_or
              (find_by_indexed_path w ref ps)
              (found_or (if bytes_beq cwd [] then none else enclosing w cwd ps) not_found)))
  found_or-IsUnnamed cwd ps = elim (Option-cases (find_by_identity ps ref)) [
    | inr (p, e) ↦ rw e (inl (identity-Mem ps p e))
    | inl e ↦ elim (Option-cases (find_by_indexed_path w ref ps)) [
      | inr (p, f) ↦ rw (e, f) (inr (e, inl (path-Mem ps p f)))
      | inl f ↦ elim (by_directory cwd ps) [
        | inl (no_directory, g) ↦ rw (e, f, g) (identity-none ps e, path-none ps f, no_directory)
        | inr (p, h, g) ↦ rw (e, f, g) (inr (e, inr (f, h)))
      ]
    ]
  ]

  zero_named :
      (cwd : Bytes) (ps : List Project) (r : Resolution)
      → named w ref ps ≡ 0
      → IsUnnamed cwd ps r
      → IsResolved cwd ps r
  zero_named cwd ps (found p) z u = inr (z, u)
  zero_named cwd ps (ambiguous r ids) z u = absurd cc
  zero_named cwd ps not_found z u = (z, u)
  zero_named cwd ps store_failed z u = u

  answered :
      (cwd : Bytes) (ps : List Project) (matched : Option Project) (ids : List Bytes)
      (r : Resolution)
      → IsMatch w ref ps none matched
      → length ids ≡ named w ref ps
      → IsUnnamed cwd ps r
      → IsResolved cwd ps (named_or ref (matched, ids) r)
  answered cwd ps matched ids r m n u = elim (Bool-cases (ltb 1 (length ids))) [
    | inl many ↦ rw many (ground arith, refl, n)
    | inr few ↦ rw few (single few matched m)
  ]
    where
      single :
          ltb 1 (length ids) ≡ false
          → (o : Option Project) → IsMatch w ref ps none o
          → IsResolved cwd ps (elim o [ none ↦ r | some p ↦ found p ])
      single few none z = zero_named cwd ps r z u
      single few (some p) (there, is, le) = inl (ground arith, there, is)

  -- `resolveInList` answers with the error of an ambiguous name, and as many identities, exactly if
  -- two projects or more have the name; with the project of the name if there is one; and otherwise
  -- by the identity, by the indexed path and by the directory, in this order. It finds nothing only
  -- if none of these does.
  pub resolve_in_list-IsResolved :
      (cwd : Bytes) (ps : List Project) → IsResolved cwd ps (resolve_in_list w ref cwd ps)
  unfolding resolve_in_list
  resolve_in_list-IsResolved cwd ps =
      let (m, n) = scan_names-IsMatch w ref ps none [] in
      let n' : length (scan_names w ref ps none []).1 ≡ named w ref ps = omega arith in
      answered cwd ps (scan_names w ref ps none []).0 (scan_names w ref ps none []).1
        (found_or (find_by_identity ps ref) (
          found_or (find_by_indexed_path w ref ps)
            (found_or (if bytes_beq cwd [] then none else enclosing w cwd ps) not_found)))
        m n' (found_or-IsUnnamed cwd ps)
