-- ===== src/Search/Routing/Tests.antt =====
-- Some queries of each class.
use semidx.Prelude.{◌≡◌, refl}
use semidx.Prelude.Bytes.{codes}
use semidx.Search.Routing.{
  classify_query, query_identifier, query_path, query_exact, query_natural_language,
}

classes :
    (classify_query (codes "parseConfig") ≡ query_identifier)
    × (classify_query (codes "internal/embed") ≡ query_path)
    × (classify_query (codes "\"a b\"") ≡ query_exact)
    × (classify_query (codes "where is it") ≡ query_natural_language)
    × (classify_query (codes "3d") ≡ query_natural_language)
    × (classify_query (codes "\"") ≡ query_natural_language)
unfolding classify_query
classes = (refl, refl, refl, refl, refl, refl)
