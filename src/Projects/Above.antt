-- ===== src/Projects/Above.antt =====
-- The directories that a path stands in, apart from how internal/projectref/resolve.go finds them.
use semidx.Prelude.{
  ℕ, ◌≡◌, ◌⊎◌, sym, ap, subst, ◌∙◌, true, ◌||◌, none, some, ◌∷◌, ◌++◌, length, arith, inl, inr,
  Bool-cases, Option-cases, append_assoc,
}
use semidx.Prelude.Bytes.{
  Bytes, bytes_beq, bytes_beq_iff, codes, has_prefix, has_prefix-append, has_prefix-drop,
}
use semidx.Projects.{World, Project, canonical_path, enclosing_length}

-- the path is the directory, or goes on from it behind a slash
abbrev pub Under : Bytes → Bytes → Type 0
Under dir path = (path ≡ dir) ⊎ ((rest : Bytes) × (path ≡ dir ++ (b'/' ∷ rest)))

-- the path is under the canonical path of the project, which has `n` bytes
abbrev pub Encloses : World → Bytes → Project → ℕ → Type 0
Encloses w c p n =
    (dir : Bytes) × (canonical_path w p.path ≡ some dir) × Under dir c × (length dir ≡ n)

test-Under :
    (dir path : Bytes)
    → (bytes_beq path dir || has_prefix path (dir ++ codes "/")) ≡ true
    → Under dir path
test-Under dir path h = elim (Bool-cases (bytes_beq path dir)) [
  | inl same ↦ inl ((bytes_beq_iff path dir).0 same)
  | inr other ↦
      let (rest, e) = has_prefix-drop path (dir ++ codes "/") (ground arith) in
      inr (rest, e ∙ append_assoc dir (codes "/") rest)
]

Under-test :
    (dir path : Bytes)
    → Under dir path
    → (bytes_beq path dir || has_prefix path (dir ++ codes "/")) ≡ true
Under-test dir path (inl same) = ground (arith, (bytes_beq_iff path dir).1 same)
Under-test dir path (inr (rest, e)) =
    let prefix : has_prefix path (dir ++ codes "/") ≡ true =
      subst (λ p. has_prefix p (dir ++ codes "/") ≡ true)
        (append_assoc dir (codes "/") rest ∙ sym e) (has_prefix-append (dir ++ codes "/") rest) in
    ground arith

module _ (w : World) (c : Bytes) (p : Project) where
  pub enclosing_length-Encloses : (n : ℕ) → enclosing_length w c p ≡ some n → Encloses w c p n
  unfolding enclosing_length
  enclosing_length-Encloses n h = elim (Option-cases (canonical_path w p.path)) [
    | inl unplaced ↦ let no : none ≡ some n = rw (unplaced, enclosing_length) at h in cc
    | inr (dir, placed) ↦ elim (Bool-cases (bytes_beq c dir || has_prefix c (dir ++ codes "/"))) [
      | inl inside ↦
          let long : some (length dir) ≡ some n =
            rw inside at (rw (placed, enclosing_length) at h) in
          (dir, placed, test-Under dir c inside, cc)
      | inr outside ↦
          let no : none ≡ some n = rw outside at (rw (placed, enclosing_length) at h) in cc
    ]
  ]

  pub Encloses-enclosing_length : (n : ℕ) → Encloses w c p n → enclosing_length w c p ≡ some n
  unfolding enclosing_length
  Encloses-enclosing_length n (dir, placed, under, long) =
      rw (placed, enclosing_length) (rw (Under-test dir c under) (ap (λ k. some k) long))
