-- ===== src/Search/Routing/Quotes.antt =====
-- Quoted queries (internal/search/routing.go).
use semidx.Prelude.{
  ◌+◌, ◌-◌, ◌≡◌, refl, ap, true, List, [], ◌∷◌, ◌++◌, length, take, leb, arith, length-append,
}
use semidx.Prelude.Bytes.{Bytes}
use semidx.Prelude.Paths.{reverse_onto}
use semidx.Search.Routing.{query_exact, is_quoted, classify_query, keyword_query_for_routing}

reverse_onto-append :
    {A : Type 0} (xs ys zs : List A)
    → reverse_onto (xs ++ ys) zs ≡ reverse_onto ys (reverse_onto xs zs)
reverse_onto-append [] ys zs = refl
reverse_onto-append (x ∷ xs) ys zs = reverse_onto-append xs ys (x ∷ zs)

take-append : {A : Type 0} (xs ys : List A) → take (length xs) (xs ++ ys) ≡ xs
take-append [] ys = refl
take-append (x ∷ xs) ys = ap (λ t. x ∷ t) (take-append xs ys)

abbrev quoted : Bytes → Bytes
quoted s = b'"' ∷ (s ++ b'"' ∷ [])

quoted-is_quoted : (s : Bytes) → is_quoted (quoted s) ≡ true
unfolding is_quoted
quoted-is_quoted s =
    let n : length (s ++ b'"' ∷ []) ≡ length s + 1 = length-append s (b'"' ∷ []) in
    rw (reverse_onto-append s (b'"' ∷ []) (b'"' ∷ [])) (ground arith)

quoted-exact : (s : Bytes) → classify_query (quoted s) ≡ query_exact
unfolding classify_query
quoted-exact s = rw (quoted-is_quoted s) refl

quoted-inner : (s : Bytes) → keyword_query_for_routing (quoted s) query_exact ≡ s
unfolding keyword_query_for_routing
quoted-inner s =
    let n : length (s ++ b'"' ∷ []) ≡ length s + 1 = length-append s (b'"' ∷ []) in
    let long : leb 2 (length (quoted s)) ≡ true = ground arith in
    let m : length (quoted s) - 2 ≡ length s = omega arith in
    rw long (rw m (take-append s (b'"' ∷ [])))

-- A text between quotation marks is an exact query, whatever the text, and the keywords that such a
-- query is routed with are the text itself.
pub keyword_query_for_routing-quoted :
    (s : Bytes)
    → (classify_query (b'"' ∷ (s ++ b'"' ∷ [])) ≡ query_exact)
      × (keyword_query_for_routing
            (b'"' ∷ (s ++ b'"' ∷ []))
            (classify_query (b'"' ∷ (s ++ b'"' ∷ [])))
          ≡ s)
keyword_query_for_routing-quoted s = (quoted-exact s, rw (quoted-exact s) (quoted-inner s))
