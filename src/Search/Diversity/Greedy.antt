-- ===== src/Search/Diversity/Greedy.antt =====
-- Nothing is left out without a reason.
use semidx.Prelude.{
  ℕ, suc, ◌+◌, ◌≤◌, ◌<◌, ◌⊎◌, List, [], ◌∷◌, length, leb, arith, Bool-cases, inl, inr,
}
use semidx.Prelude.Bytes.{Bytes, bytes_eq, bytes_beq_iff}
use semidx.Prelude.Int.{ℤ, positive_or}
use semidx.Prelude.Map
use semidx.Prelude.Map.{Map, or_zero, lookup-insert}
use semidx.Search.Diversity.{
  RankedResult, clamp_multi_top_k, bump, select, ranked_project, ranked_file,
  apply_ranked_diversity,
}
use semidx.Search.Diversity.Caps.{with_key, count_bump}

-- `out` is `xs` without some elements, in the same order, and each element left out satisfies `P`.
pub data Keeps {A : Type 0} (P : A → Type 0) : List A → List A → Type 0 where
  none_left : Keeps P [] []
  keep : (x : A) {xs out : List A} → Keeps P xs out → Keeps P (x ∷ xs) (x ∷ out)
  leave : (x : A) {xs out : List A} → P x → Keeps P xs out → Keeps P (x ∷ xs) out

Keeps-map :
    {A : Type 0} {P Q : A → Type 0} {xs out : List A}
    → ((x : A) → P x → Q x)
    → Keeps P xs out
    → Keeps Q xs out
Keeps-map f none_left = none_left
Keeps-map f (keep x k) = keep x (Keeps-map f k)
Keeps-map f (leave x p k) = leave x (f x p) (Keeps-map f k)

module _ {A : Type 0} (project file : A → Bytes) (max_per_file max_per_project top_k : ℕ) where
  -- the limit of the element's project or of its file is reached by `out` and the counts before it
  abbrev Reached : Map Bytes ℕ → Map Bytes ℕ → List A → A → Type 0
  Reached files projects out x =
      (max_per_project
        ≤ or_zero (Map.lookup (project x) projects) + with_key project (project x) out)
      ⊎ (max_per_file ≤ or_zero (Map.lookup (file x) files) + with_key file (file x) out)

  Reached-cons :
      (files projects : Map Bytes ℕ) (r x : A) (out : List A)
      → Reached (bump (file r) files) (bump (project r) projects) out x
      → Reached files projects (r ∷ out) x
  Reached-cons files projects r x out (inl h) = inl (
      ground
        (arith, count_bump (project r) (project x) projects, bytes_beq_iff (project r) (project x)))
  Reached-cons files projects r x out (inr h) =
      inr (ground (arith, count_bump (file r) (file x) files, bytes_beq_iff (file r) (file x)))

  select-Keeps :
      (files projects : Map Bytes ℕ) (taken : ℕ) (rs : List A)
      → taken
          + length (select project file max_per_file max_per_project top_k files projects taken rs)
        < top_k
      → Keeps
          (Reached files projects
            (select project file max_per_file max_per_project top_k files projects taken rs))
          rs
          (select project file max_per_file max_per_project top_k files projects taken rs)
  unfolding select
  select-Keeps files projects taken [] room = none_left
  select-Keeps files projects taken (r ∷ rs) room =
      elim (Bool-cases (leb max_per_project (or_zero (Map.lookup (project r) projects)))) [
        | inl full ↦
            rw full (
              leave r (inl (ground arith)) (select-Keeps files projects taken rs (rw full at room)))
        | inr free ↦ elim (Bool-cases (leb max_per_file (or_zero (Map.lookup (file r) files)))) [
          | inl full ↦
              rw (free, full)
                (leave r (inr (ground arith))
                  (select-Keeps files projects taken rs (rw (free, full) at room)))
          | inr fits ↦ elim (Bool-cases (leb top_k (suc taken))) [
            | inl last ↦ absurd (ground arith)
            | inr more ↦
                rw (free, fits, more)
                  (keep r (
                    Keeps-map (λ x reached. Reached-cons files projects r x _ reached)
                      (select-Keeps (bump (file r) files) (bump (project r) projects) (suc taken) rs
                        (ground arith))))
          ]
        ]
      ]

  Reached-nil :
      (out : List A) (x : A)
      → Reached [] [] out x
      → (max_per_project ≤ with_key project (project x) out)
        ⊎ (max_per_file ≤ with_key file (file x) out)
  unfolding Map.lookup
  Reached-nil out x (inl h) = inl (omega arith)
  Reached-nil out x (inr h) = inr (omega arith)

-- `r` is left out because its project or its file has reached its limit in `out`.
abbrev pub IsFull : {S : Type 0} → ℕ → ℕ → List (RankedResult S) → RankedResult S → Type 0
IsFull per_file per_project out r =
    (per_project ≤ with_key ranked_project (ranked_project r) out)
    ⊎ (per_file ≤ with_key ranked_file (ranked_file r) out)

-- While `applyRankedDiversity` returns fewer than the clamped `topK` results, it keeps the order of
-- the results and leaves one out only if the result's project or its file has reached its limit
-- among those that it returns.
pub apply_ranked_diversity-Keeps :
    {S : Type 0} (results : List (RankedResult S)) (max_per_file max_per_project top_k : ℤ)
    → length (apply_ranked_diversity results max_per_file max_per_project top_k)
      < clamp_multi_top_k top_k
    → Keeps
        (IsFull
          (positive_or (clamp_multi_top_k top_k + 1) max_per_file)
          (positive_or (clamp_multi_top_k top_k + 1) max_per_project)
          (apply_ranked_diversity results max_per_file max_per_project top_k))
        results
        (apply_ranked_diversity results max_per_file max_per_project top_k)
unfolding apply_ranked_diversity
apply_ranked_diversity-Keeps results max_per_file max_per_project top_k room =
    let k = clamp_multi_top_k top_k in
    Keeps-map
      (λ x.
        Reached-nil ranked_project ranked_file (positive_or (k + 1) max_per_file)
          (positive_or (k + 1) max_per_project) k _ x)
      (select-Keeps ranked_project ranked_file (positive_or (k + 1) max_per_file)
        (positive_or (k + 1) max_per_project) k [] [] 0 results (omega arith))
