-- ===== src/Search/Hybrid/Tests.antt =====
-- Two lists that share a chunk, with numbers as scores and an insertion sort.
use semidx.Prelude.{
  ℕ, suc, ◌+◌, ◌-◌, ◌≡◌, refl, ap, ◌∙◌, Bool, true, false, List, [], ◌∷◌, map, length, ltb, ◌==◌,
  arith, if◌then◌else◌,
}
use semidx.Prelude.Bytes.{Bytes, codes}
use semidx.Prelude.Int.{pos}
use semidx.Prelude.Map
use semidx.Prelude.Decimal.{decimal}
use semidx.Search.Diversity.{SearchResult}
use semidx.Search.Fusion.{Comparison, less, equal, greater}
use semidx.Search.Hybrid.{RrfScores, RrfScored, compare_scored_desc, rerank_rrf}
use semidx.Search.Hybrid.Occurrences.{scored_occurrences}
use semidx.Search.Hybrid.Chunks.{IsFused, rerank_rrf-IsFused}

abbrev numbers : RrfScores ℕ
numbers = record {
  scores = record { gt = λ a b. ltb b a; add = ◌+◌; inverse = λ n. 1000 - n };
  bonus = 2;
  near = ◌==◌;
  is_positive = λ s. false;
  divide = λ a b. a;
}

abbrev is_less : Comparison → Bool
is_less less = true
is_less equal = false
is_less greater = false

module _ {A : Type 0} (compare : A → A → Comparison) where
  sort_in : A → List A → List A
  sort_in a [] = a ∷ []
  sort_in a (b ∷ xs) =
      let rest = sort_in a xs in if is_less (compare b a) then b ∷ rest else a ∷ b ∷ xs

  abbrev sort : List A → List A
  sort [] = []
  sort (a ∷ xs) = sort_in a (sort xs)

abbrev by_score : List (RrfScored ℕ) → List (RrfScored ℕ)
by_score xs = sort (compare_scored_desc numbers) xs

sort_in_occurrences :
    (ck : Bytes) (a : RrfScored ℕ) (xs : List (RrfScored ℕ))
    → scored_occurrences ck (sort_in (compare_scored_desc numbers) a xs)
      ≡ scored_occurrences ck (a ∷ xs)
unfolding sort_in
sort_in_occurrences ck a [] = refl
sort_in_occurrences ck a (b ∷ xs) = ground (arith, sort_in_occurrences ck a xs)

sort_occurrences :
    (ck : Bytes) (xs : List (RrfScored ℕ))
    → scored_occurrences ck (by_score xs) ≡ scored_occurrences ck xs
sort_occurrences ck [] = refl
sort_occurrences ck (a ∷ xs) =
    sort_in_occurrences ck a (by_score xs) ∙ ground (arith, sort_occurrences ck xs)

length-sort_in :
    (a : RrfScored ℕ) (xs : List (RrfScored ℕ))
    → length (sort_in (compare_scored_desc numbers) a xs) ≡ suc (length xs)
unfolding sort_in
length-sort_in a [] = refl
length-sort_in a (b ∷ xs) = ground (arith, length-sort_in a xs)

length-sort : (xs : List (RrfScored ℕ)) → length (by_score xs) ≡ length xs
length-sort [] = refl
length-sort (a ∷ xs) = length-sort_in a (by_score xs) ∙ ap suc (length-sort xs)

abbrev hit : Bytes → SearchResult ℕ
hit file = record {
  file_path = file;
  score = 0;
  start_line = 1;
  end_line = 9;
  source = [];
  rest = [];
}

rerank_rrf-IsFused_example :
    IsFused numbers (hit (codes "a") ∷ hit (codes "b") ∷ []) (hit (codes "b") ∷ []) (pos 2) (
      rerank_rrf numbers sort
        (hit (codes "a") ∷ hit (codes "b") ∷ [])
        (hit (codes "b") ∷ [])
        (pos 2))
rerank_rrf-IsFused_example =
    rerank_rrf-IsFused numbers sort sort_occurrences length-sort
      (hit (codes "a") ∷ hit (codes "b") ∷ []) (hit (codes "b") ∷ []) (pos 2)

shared_chunk_first :
    map
      (λ r. r.file_path)
      (rerank_rrf numbers sort
        (hit (codes "a") ∷ hit (codes "b") ∷ [])
        (hit (codes "b") ∷ [])
        (pos 2))
    ≡ codes "b" ∷ codes "a" ∷ []
unfolding sort_in rerank_rrf Map.lookup Map.insert decimal
shared_chunk_first = refl
