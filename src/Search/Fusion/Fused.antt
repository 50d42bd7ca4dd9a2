-- ===== src/Search/Fusion/Fused.antt =====
-- What the fusion in internal/search/multiscope.go makes of the results at one place.
use semidx.Prelude.{
  ◌+◌, ◌≡◌, refl, sym, ap, ◌∙◌, Bool, true, false, Option, none, some, List, [], ◌∷◌, All,
  Bool-cases, inl, inr, if◌then◌else◌,
}
use semidx.Prelude.Bytes.{Bytes, bytes_beq, bytes_beq_iff, bytes_eq}
use semidx.Prelude.Map
use semidx.Prelude.Map.{Map, has, Unique, lookup-insert}
use semidx.Search.Diversity.{SearchResult, RankedResult}
use semidx.Search.Fusion.{Scores, candidate_key, place, by_candidate, share}
use semidx.Search.Fusion.Candidates.{has_candidate, by_candidate-Unique}
use semidx.Search.Fusion.Places.{same_place, HasPlainProject, same_key}

-- the results at the place of one, in order
abbrev pub at_place : {S : Type 0} → RankedResult S → List (RankedResult S) → List (RankedResult S)
at_place c [] = []
at_place c (d ∷ ds) = let rest = at_place c ds in if same_place d c then d ∷ rest else rest

abbrev with_key : {S : Type 0} → Bytes → List (RankedResult S) → List (RankedResult S)
with_key key [] = []
with_key key (d ∷ ds) =
    let rest = with_key key ds in if bytes_beq (candidate_key d) key then d ∷ rest else rest

module _ {S : Type 0} where
  with_key-here :
      (key : Bytes) (c : RankedResult S) (cs : List (RankedResult S))
      → bytes_beq (candidate_key c) key ≡ true
      → with_key key (c ∷ cs) ≡ c ∷ with_key key cs
  with_key-here key c cs same = rw same refl

  with_key-other :
      (key : Bytes) (c : RankedResult S) (cs : List (RankedResult S))
      → bytes_beq (candidate_key c) key ≡ false
      → with_key key (c ∷ cs) ≡ with_key key cs
  with_key-other key c cs other = rw other refl

  chosen :
      {test : Bool} (v : RankedResult S) (o : Option (RankedResult S))
      → test ≡ true
      → (if test then some v else o) ≡ some v
  chosen v o on = rw on refl

  passed :
      {test : Bool} (v : RankedResult S) (o : Option (RankedResult S))
      → test ≡ false
      → (if test then some v else o) ≡ o
  passed v o off = rw off refl

module _ {S : Type 0} (scores : Scores S) where
  -- a score and the shares of further results, one for sixty and the rank each
  abbrev pub total : S → List (RankedResult S) → S
  total sum [] = sum
  total sum (c ∷ cs) = total (scores.add sum (scores.inverse (60 + c.source_rank))) cs

  -- the first of the results with the highest score
  abbrev pub best : SearchResult S → List (RankedResult S) → SearchResult S
  best r [] = r
  best r (c ∷ cs) = best (if scores.gt c.result.score r.score then c.result else r) cs

  -- the one candidate for the results of a place
  abbrev pub fused : List (RankedResult S) → Option (RankedResult S)
  fused [] = none
  fused (c ∷ cs) = some (record c {
    fusion = total (scores.inverse (60 + c.source_rank)) cs;
    result = best c.result cs;
  })

  abbrev merged : Option (RankedResult S) → List (RankedResult S) → Option (RankedResult S)
  merged none cs = fused cs
  merged (some p) cs = some (record p { fusion = total p.fusion cs; result = best p.result cs })

  merged-place :
      (o : Option (RankedResult S)) (c : RankedResult S) (cs : List (RankedResult S))
      → merged (some (place scores o (record c { fusion = share scores c.source_rank }))) cs
        ≡ merged o (c ∷ cs)
  unfolding place
  merged-place none c cs = refl
  merged-place (some p) c cs = refl

  lookup-by_candidate :
      (key : Bytes) (m : Map Bytes (RankedResult S)) (cs : List (RankedResult S))
      → Map.lookup key (by_candidate scores m cs) ≡ merged (Map.lookup key m) (with_key key cs)
  unfolding by_candidate candidate_key
  lookup-by_candidate key m [] = merged-nil (Map.lookup key m)
    where
      merged-nil : (o : Option (RankedResult S)) → o ≡ merged o []
      merged-nil none = refl
      merged-nil (some p) = refl
  lookup-by_candidate key m (c ∷ cs) =
      let k = candidate_key c in
      let v = place scores (Map.lookup k m) (record c { fusion = share scores c.source_rank }) in
      let later = lookup-by_candidate key (Map.insert k v m) cs in
      let stored = lookup-insert k key v m in
      elim (Bool-cases (bytes_beq k key)) [
        | inl same ↦
            let at_key : Map.lookup k m ≡ Map.lookup key m =
              ap (λ j. Map.lookup j m) ((bytes_beq_iff k key).0 same) in
            later
            ∙ ap (λ o. merged o (with_key key cs)) (stored ∙ chosen v (Map.lookup key m) same)
            ∙ merged-place (Map.lookup k m) c (with_key key cs)
            ∙ ap (λ o. merged o (c ∷ with_key key cs)) at_key
            ∙ ap (merged (Map.lookup key m)) (sym (with_key-here key c cs same))
        | inr other ↦
            later
            ∙ ap (λ o. merged o (with_key key cs)) (stored ∙ passed v (Map.lookup key m) other)
            ∙ ap (merged (Map.lookup key m)) (sym (with_key-other key c cs other))
      ]

with_key-at_place :
    {S : Type 0} (c : RankedResult S) (cs : List (RankedResult S))
    → HasPlainProject c
    → All (λ d. HasPlainProject d) cs
    → with_key (candidate_key c) cs ≡ at_place c cs
with_key-at_place c [] plain all = refl
with_key-at_place c (d ∷ cs) plain all =
    rw (same_key d c all.0 plain)
      (ap (λ rest. if same_place d c then d ∷ rest else rest) (with_key-at_place c cs plain all.1))

-- the candidates of some results, by their keys
pub record IsFusion {S : Type 0} (scores : Scores S) (cs : List (RankedResult S))
    (m : Map Bytes (RankedResult S)) : Type 0 where
  pub unique : Unique m
  pub keys : (key : Bytes) → has key m ≡ has_candidate key cs
  pub by_place : All (λ c. Map.lookup (candidate_key c) m ≡ fused scores (at_place c cs)) cs

by_candidate-at_places :
    {S : Type 0} (scores : Scores S) (cs ds : List (RankedResult S))
    → All (λ c. HasPlainProject c) cs
    → All (λ d. HasPlainProject d) ds
    → All
        (λ d.
          Map.lookup (candidate_key d) (by_candidate scores [] cs) ≡ fused scores (at_place d cs))
        ds
unfolding Map.lookup
by_candidate-at_places scores cs [] plain_cs plain_ds = tt
by_candidate-at_places scores cs (d ∷ ds) plain_cs plain_ds = (
  lookup-by_candidate scores (candidate_key d) [] cs
      ∙ ap (fused scores) (with_key-at_place d cs plain_ds.0 plain_cs),
  by_candidate-at_places scores cs ds plain_cs plain_ds.1,
)

-- Before they are sorted, and for projects whose labels have no NUL: the candidates of the fusion
-- have different keys, which are those of the results, and at the key of each result there is one
-- candidate for all the results with its project, path and lines. It is the first of them, with the
-- sum of their shares `1 / (60 + rank)` in order, and with the best scored of their results, the
-- first of equals.
pub by_candidate-IsFusion :
    {S : Type 0} (scores : Scores S) (cs : List (RankedResult S))
    → All (λ c. HasPlainProject c) cs
    → IsFusion scores cs (by_candidate scores [] cs)
by_candidate-IsFusion scores cs plain = record {
  unique = (by_candidate-Unique scores cs).0;
  keys = (by_candidate-Unique scores cs).1;
  by_place = by_candidate-at_places scores cs cs plain plain;
}
