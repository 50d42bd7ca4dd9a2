-- ===== src/Search/Routing.antt =====
-- The classification of queries (internal/search/routing.go and limits.go). `range` over a string
-- meets characters; on bytes the same strings are identifiers, since those of other characters are
-- not among the letters.
pub mod Quotes
mod Tests
use semidx.Prelude.{
  ℕ, zero, suc, ◌-◌, ◌≡◌, refl, Bool, true, false, not, ◌&&◌, ◌||◌, List, [], ◌∷◌, ◌++◌, length,
  take, drop, leb, ltb, min, ◌==◌, if◌then◌else◌,
}
use semidx.Prelude.Bytes.{Bytes, bytes_beq, codes, has_prefix}
use semidx.Prelude.Eq.{contains}
use semidx.Prelude.Bytes.{nat_eq}
use semidx.Prelude.Int.{ℤ, positive_or}
use semidx.Prelude.Paths.{has_suffix}

pub data QueryType : Type 0 where
  query_unknown : QueryType
  query_identifier : QueryType
  query_path : QueryType
  query_exact : QueryType
  query_natural_language : QueryType

abbrev pub is_letter : ℕ → Bool
is_letter c = leb b'a' c && leb c b'z' || leb b'A' c && leb c b'Z' || (c == b'_')

abbrev pub is_later : ℕ → Bool
is_later c = leb b'0' c && leb c b'9' || (c == b'.')

-- the characters of an identifier behind the first
abbrev pub identifier_tail : Bytes → Bool
identifier_tail [] = true
identifier_tail (c ∷ s) = (is_letter c || is_later c) && identifier_tail s

unfoldable pub is_identifier : Bytes → Bool
is_identifier [] = false
is_identifier (c ∷ s) = is_letter c && identifier_tail s

abbrev pub has_any : Bytes → Bytes → Bool
has_any [] chars = false
has_any (c ∷ s) chars = contains chars c || has_any s chars

unfoldable pub is_quoted : Bytes → Bool
is_quoted query =
    has_prefix query (codes "\"") && has_suffix query (codes "\"") && leb 2 (length query)

unfoldable pub classify_query : Bytes → QueryType
unfolding is_identifier is_quoted
classify_query query =
    if bytes_beq query []
    then query_unknown
    else if is_quoted query
    then query_exact
    else if has_any query (b'/' ∷ [])
    then query_path
    else if has_any query (32 ∷ 9 ∷ 10 ∷ [])
    then query_natural_language
    else if is_identifier query
    then query_identifier
    else query_natural_language

abbrev pub routes_to_keyword : QueryType → Bool
routes_to_keyword query_unknown = false
routes_to_keyword query_identifier = true
routes_to_keyword query_path = true
routes_to_keyword query_exact = true
routes_to_keyword query_natural_language = false

-- `query[1 : len(query)-1]`
abbrev pub inner : Bytes → Bytes
inner query = take (length query - 2) (drop 1 query)

unfoldable pub keyword_query_for_routing : Bytes → QueryType → Bytes
keyword_query_for_routing query query_unknown = query
keyword_query_for_routing query query_identifier = query
keyword_query_for_routing query query_path = query
keyword_query_for_routing query query_exact = if leb 2 (length query) then inner query else query
keyword_query_for_routing query query_natural_language = query

abbrev pub max_graph_depth : ℕ
max_graph_depth = 5

abbrev pub default_graph_depth : ℕ
default_graph_depth = 2

abbrev pub clamp_graph_depth : ℤ → ℕ
clamp_graph_depth depth = min (positive_or default_graph_depth depth) max_graph_depth
