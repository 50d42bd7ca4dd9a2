-- ===== src/Search/Diversity/Provenance.antt =====
-- The tag of a result's project and the way back.
use semidx.Prelude.{◌≡◌, refl, ◌∙◌, ap, false, [], ◌∷◌, ◌++◌, ◌==◌, All, append_assoc, append-nil}
use semidx.Prelude.Bytes.{Bytes}
use semidx.Search.Diversity.{split_provenance, split_at_nul, tagged}

-- no NUL
abbrev pub IsPlain : Bytes → Type 0
IsPlain s = All (λ c. (c == 0) ≡ false) s

pub split_at_nul-tagged :
    (before project file : Bytes)
    → IsPlain project
    → split_at_nul before (tagged project file) ≡ (before ++ project, file)
unfolding split_at_nul
split_at_nul-tagged before [] file plain = rw append-nil refl
split_at_nul-tagged before (c ∷ project) file plain = rw plain.0 (
    split_at_nul-tagged (before ++ (c ∷ [])) project file plain.1
    ∙ ap (λ t. (t, file)) (append_assoc before (c ∷ []) project))

split_at_nul-plain :
    (before file : Bytes) → IsPlain file → split_at_nul before file ≡ ([], before ++ file)
unfolding split_at_nul
split_at_nul-plain before [] plain = rw append-nil refl
split_at_nul-plain before (c ∷ file) plain = rw plain.0 (
    split_at_nul-plain (before ++ (c ∷ [])) file plain.1
    ∙ ap (λ t. ([], t)) (append_assoc before (c ∷ []) file))

-- `splitProvenance` undoes the tag of a project whose label has no NUL, whatever bytes the path
-- has, and gives an untagged path without NUL no project.
split_provenance-tagged :
    (project file : Bytes)
    → IsPlain project
    → (split_provenance (tagged project file) ≡ (project, file))
      × (split_provenance project ≡ ([], project))
unfolding split_provenance
split_provenance-tagged project file plain =
    (split_at_nul-tagged [] project file plain, split_at_nul-plain [] project plain)
