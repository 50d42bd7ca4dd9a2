-- ===== src/Search/Hybrid/Occurrences.antt =====
-- How often a chunk occurs in the lists of internal/search/hybrid.go.
use semidx.Prelude.{
  ℕ, zero, suc, ◌+◌, ◌≤◌, ◌≡◌, refl, false, List, [], ◌∷◌, ◌++◌, length, take, arith, ap, inl, inr,
  Bool-cases, length-append, if◌then◌else◌,
}
use semidx.Prelude.Bytes.{Bytes, bytes_beq, bytes_beq_iff}
use semidx.Prelude.Map.{Map}
use semidx.Search.Diversity.{SearchResult}
use semidx.Search.Hybrid.{
  RrfScores, RrfScored, chunk_key, fuse_vector, fuse_keyword, is_seen, fuse_rrf, scaled,
}

module _ {S : Type 0} where
  -- how often a chunk occurs in a list
  abbrev pub occurrences : Bytes → List (SearchResult S) → ℕ
  occurrences ck [] = 0
  occurrences ck (r ∷ rs) =
      let n = occurrences ck rs in if bytes_beq (chunk_key r) ck then suc n else n

  abbrev pub scored_occurrences : Bytes → List (RrfScored S) → ℕ
  scored_occurrences ck [] = 0
  scored_occurrences ck (s ∷ rs) =
      let n = scored_occurrences ck rs in if bytes_beq (chunk_key s.result) ck then suc n else n

  occurrences-append :
      (ck : Bytes) (xs ys : List (RrfScored S))
      → scored_occurrences ck (xs ++ ys) ≡ scored_occurrences ck xs + scored_occurrences ck ys
  occurrences-append ck [] ys = omega arith
  occurrences-append ck (x ∷ xs) ys = ground (arith, occurrences-append ck xs ys)

  pub occurrences-take :
      (ck : Bytes) (n : ℕ) (xs : List (RrfScored S))
      → scored_occurrences ck (take n xs) ≤ scored_occurrences ck xs
  occurrences-take ck zero xs = omega arith
  occurrences-take ck (suc n) [] = omega arith
  occurrences-take ck (suc n) (x ∷ xs) = ground (arith, occurrences-take ck n xs)

  pub take_all : (n : ℕ) (xs : List (RrfScored S)) → length xs ≤ n → take n xs ≡ xs
  take_all zero [] le = refl
  take_all zero (x ∷ xs) le = absurd (omega arith)
  take_all (suc n) [] le = refl
  take_all (suc n) (x ∷ xs) le = ap (λ t. x ∷ t) (take_all n xs (omega arith))

module _ {S : Type 0} (rrf : RrfScores S) where
  occurrences-fuse_vector :
      (ck : Bytes) (vec_ranks kw_ranks : Map Bytes ℕ) (vector : List (SearchResult S))
      → scored_occurrences ck (fuse_vector rrf vec_ranks kw_ranks vector) ≡ occurrences ck vector
  unfolding fuse_vector
  occurrences-fuse_vector ck vec_ranks kw_ranks [] = refl
  occurrences-fuse_vector ck vec_ranks kw_ranks (r ∷ vector) =
      rw (occurrences-fuse_vector ck vec_ranks kw_ranks vector)

  occurrences-fuse_keyword :
      (ck : Bytes) (vector : List (SearchResult S)) (kw_ranks : Map Bytes ℕ)
      (keyword : List (SearchResult S))
      → scored_occurrences ck (fuse_keyword rrf vector kw_ranks keyword)
        ≡ (if is_seen rrf vector ck then 0 else occurrences ck keyword)
  unfolding fuse_keyword
  occurrences-fuse_keyword ck vector kw_ranks [] = ground arith
  occurrences-fuse_keyword ck vector kw_ranks (r ∷ keyword) =
      elim (Bool-cases (bytes_beq (chunk_key r) ck)) [
        | inl same ↦
            let e : is_seen rrf vector (chunk_key r) ≡ is_seen rrf vector ck =
              ap (is_seen rrf vector) ((bytes_beq_iff (chunk_key r) ck).0 same) in
            ground (arith, occurrences-fuse_keyword ck vector kw_ranks keyword)
        | inr other ↦ ground (arith, occurrences-fuse_keyword ck vector kw_ranks keyword)
      ]

  pub occurrences-scaled :
      (ck : Bytes) (top : S) (xs : List (RrfScored S))
      → occurrences ck (scaled rrf top xs) ≡ scored_occurrences ck xs
  unfolding chunk_key
  occurrences-scaled ck top [] = refl
  occurrences-scaled ck top (x ∷ xs) = ground (arith, occurrences-scaled ck top xs)

  length-scaled : (top : S) (xs : List (RrfScored S)) → length (scaled rrf top xs) ≡ length xs
  length-scaled top [] = refl
  length-scaled top (x ∷ xs) = omega (arith, length-scaled top xs)

  -- how often a chunk may stand in the fused list: as in the vector results, if it is there, and else
  -- as in the keyword results
  abbrev pub due : List (SearchResult S) → List (SearchResult S) → Bytes → ℕ
  due vector keyword ck =
      if is_seen rrf vector ck then occurrences ck vector else occurrences ck keyword

  pub occurrences-unseen :
      (ck : Bytes) (vector : List (SearchResult S))
      → is_seen rrf vector ck ≡ false
      → occurrences ck vector ≡ 0
  occurrences-unseen ck [] h = refl
  occurrences-unseen ck (r ∷ vector) h = ground (arith, occurrences-unseen ck vector)

  pub occurrences-fuse_rrf :
      (ck : Bytes) (vector keyword : List (SearchResult S)) (vec_ranks kw_ranks : Map Bytes ℕ)
      → scored_occurrences ck (fuse_rrf rrf vector keyword vec_ranks kw_ranks)
        ≡ due vector keyword ck
  unfolding fuse_rrf
  occurrences-fuse_rrf ck vector keyword vec_ranks kw_ranks = ground (
    arith,
    occurrences-append ck (fuse_vector rrf vec_ranks kw_ranks vector)
        (fuse_keyword rrf vector kw_ranks keyword),
    occurrences-fuse_vector ck vec_ranks kw_ranks vector,
    occurrences-fuse_keyword ck vector kw_ranks keyword,
    occurrences-unseen ck vector,
  )

  length-fuse_vector :
      (vec_ranks kw_ranks : Map Bytes ℕ) (vector : List (SearchResult S))
      → length (fuse_vector rrf vec_ranks kw_ranks vector) ≡ length vector
  unfolding fuse_vector
  length-fuse_vector vec_ranks kw_ranks [] = refl
  length-fuse_vector vec_ranks kw_ranks (r ∷ vector) =
      omega (arith, length-fuse_vector vec_ranks kw_ranks vector)

  length-fuse_keyword :
      (vector : List (SearchResult S)) (kw_ranks : Map Bytes ℕ) (keyword : List (SearchResult S))
      → length (fuse_keyword rrf vector kw_ranks keyword) ≤ length keyword
  unfolding fuse_keyword
  length-fuse_keyword vector kw_ranks [] = omega arith
  length-fuse_keyword vector kw_ranks (r ∷ keyword) =
      ground (arith, length-fuse_keyword vector kw_ranks keyword)

  pub length-fuse_rrf :
      (vector keyword : List (SearchResult S)) (vec_ranks kw_ranks : Map Bytes ℕ)
      → length (fuse_rrf rrf vector keyword vec_ranks kw_ranks) ≤ length vector + length keyword
  unfolding fuse_rrf
  length-fuse_rrf vector keyword vec_ranks kw_ranks = omega (
    arith,
    length-append (fuse_vector rrf vec_ranks kw_ranks vector)
        (fuse_keyword rrf vector kw_ranks keyword),
    length-fuse_vector vec_ranks kw_ranks vector,
    length-fuse_keyword vector kw_ranks keyword,
  )
