-- ===== src/Search/Fusion/Places.antt =====
-- The key of a candidate of the fusion in internal/search/multiscope.go, and its place.
use semidx.Prelude.{
  ◌≡◌, refl, sym, ap, ◌∙◌, Bool, true, ◌&&◌, [], ◌∷◌, ◌==◌, arith, Bool-cases, inl, inr,
  append_assoc,
}
use semidx.Prelude.Bytes.{Bytes, bytes_beq, bytes_beq_iff}
use semidx.Prelude.Decimal.{decimal, decimal_plain, decimal-injective}
use semidx.Search.Diversity.{RankedResult, tagged, split_at_nul}
use semidx.Search.Diversity.Provenance.{IsPlain, split_at_nul-tagged}
use semidx.Search.Fusion.{candidate_key}

-- the same project, path and lines
abbrev pub same_place : {S : Type 0} → RankedResult S → RankedResult S → Bool
same_place c d =
    bytes_beq c.project d.project
    && bytes_beq c.result.file_path d.result.file_path
    && (c.result.start_line == d.result.start_line)
    && (c.result.end_line == d.result.end_line)

-- a project's label has no NUL
abbrev pub HasPlainProject : {S : Type 0} → RankedResult S → Type 0
HasPlainProject c = IsPlain c.project

first_tag : (a b x y : Bytes) → IsPlain a → IsPlain b → tagged a x ≡ tagged b y → (a ≡ b) × (x ≡ y)
first_tag a b x y plain_a plain_b same =
    let parted =
      sym (split_at_nul-tagged [] a x plain_a)
      ∙ ap (split_at_nul []) same
      ∙ split_at_nul-tagged [] b y plain_b in
    (ap (λ p. p.0) parted, ap (λ p. p.1) parted)

not_tagged : (a b x : Bytes) → IsPlain b → tagged a x ≡ b → ⊥
not_tagged [] [] x plain same = cc
not_tagged [] (c ∷ b) x plain same = ground arith
not_tagged (d ∷ a) [] x plain same = cc
not_tagged (d ∷ a) (c ∷ b) x plain same = not_tagged a b x plain.1 cc

last_tag : (a b x y : Bytes) → IsPlain x → IsPlain y → tagged a x ≡ tagged b y → (a ≡ b) × (x ≡ y)
last_tag [] [] x y plain_x plain_y same = (refl, cc)
last_tag [] (c ∷ b) x y plain_x plain_y same =
    let rest : tagged b y ≡ x = cc in absurd (not_tagged b x y plain_x rest)
last_tag (d ∷ a) [] x y plain_x plain_y same =
    let rest : tagged a x ≡ y = cc in absurd (not_tagged a y x plain_y rest)
last_tag (d ∷ a) (c ∷ b) x y plain_x plain_y same =
    let head : d ≡ c = cc in
    let rest : tagged a x ≡ tagged b y = cc in
    let (ab, xy) = last_tag a b x y plain_x plain_y rest in (cc, xy)

module _ {S : Type 0} (c d : RankedResult S) where
  same_place-key : same_place c d ≡ true → candidate_key c ≡ candidate_key d
  unfolding candidate_key
  same_place-key h =
      let project : c.project ≡ d.project = (bytes_beq_iff c.project d.project).0 (ground arith) in
      let file : c.result.file_path ≡ d.result.file_path =
        (bytes_beq_iff c.result.file_path d.result.file_path).0 (ground arith) in
      let start : c.result.start_line ≡ d.result.start_line = ground arith in
      let end : c.result.end_line ≡ d.result.end_line = ground arith in cc

  key-same_place :
      HasPlainProject c
      → HasPlainProject d
      → candidate_key c ≡ candidate_key d
      → same_place c d ≡ true
  unfolding candidate_key
  key-same_place plain_c plain_d same =
      let s1 = decimal c.result.start_line in
      let s2 = decimal d.result.start_line in
      let e1 = decimal c.result.end_line in
      let e2 = decimal d.result.end_line in
      let f1 = c.result.file_path in
      let f2 = d.result.file_path in
      let (project, rest) =
        first_tag c.project d.project (tagged f1 (tagged s1 e1)) (tagged f2 (tagged s2 e2)) plain_c
          plain_d same in
      let (front, ends) =
        last_tag (tagged f1 s1) (tagged f2 s2) e1 e2 (decimal_plain c.result.end_line)
          (decimal_plain d.result.end_line)
          (append_assoc f1 (0 ∷ s1) (0 ∷ e1) ∙ rest ∙ sym (append_assoc f2 (0 ∷ s2) (0 ∷ e2))) in
      let (file, starts) =
        last_tag f1 f2 s1 s2 (decimal_plain c.result.start_line) (decimal_plain d.result.start_line)
          front in
      let a = (bytes_beq_iff c.project d.project).1 project in
      let b = (bytes_beq_iff f1 f2).1 file in
      let x = decimal-injective c.result.start_line d.result.start_line starts in
      let y = decimal-injective c.result.end_line d.result.end_line ends in ground arith

  pub same_key :
      HasPlainProject c
      → HasPlainProject d
      → bytes_beq (candidate_key c) (candidate_key d) ≡ same_place c d
  same_key plain_c plain_d = elim (Bool-cases (same_place c d)) [
    | inl same ↦
        (bytes_beq_iff (candidate_key c) (candidate_key d)).1 (same_place-key same) ∙ sym same
    | inr other ↦ elim (Bool-cases (bytes_beq (candidate_key c) (candidate_key d))) [
      | inl equal_keys ↦
          let same =
            key-same_place plain_c plain_d
              ((bytes_beq_iff (candidate_key c) (candidate_key d)).0 equal_keys) in
          cc
      | inr keys ↦ keys ∙ sym other
    ]
  ]
