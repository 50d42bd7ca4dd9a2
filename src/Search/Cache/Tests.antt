-- ===== src/Search/Cache/Tests.antt =====
-- A cache of two results of the search for one query in two projects.
use semidx.Prelude.{◌↔◌, ℕ, ◌≡◌, refl, true, none, List, [], ◌∷◌, ◌++◌, arith}
use semidx.Prelude.Bytes.{Bytes, codes, bytes_eq}
use semidx.Prelude.Int.{pos}
use semidx.Prelude.Map
use semidx.Search.Cache.{
  QueryCache, CacheEntry, new_query_cache, get, set, contains_project_id, project_target,
}
use semidx.Search.Cache.Invariant.{
  IsValid, Call, get_call, set_call, delete_call, invalidate_call, calls, calls_new-IsValid,
}
use semidx.Search.Cache.Reads.{set_full}
use semidx.Search.Cache.Shelf.{answers, ask, empty_shelf}
use semidx.Search.Cache.Refine.{cache_answers, cache_answers_new}
use semidx.Search.Cache.Keys.{contains_project_id_iff}

abbrev first_key : Bytes
first_key = codes "q1|3|m"

abbrev second_key : Bytes
second_key = codes "q2|4|m"

abbrev third_key : Bytes
third_key = codes "q3|5|m"

abbrev entry : ℕ → CacheEntry ℕ
entry n = record { results = n; expires_at = 100 }

abbrev two_entries : QueryCache ℕ
two_entries = record {
  entries = (second_key, entry 2) ∷ (first_key, entry 1) ∷ [];
  ttl = 50;
  max_size = 2;
  keys = first_key ∷ second_key ∷ [];
}

abbrev some_calls : List (Call ℕ)
some_calls =
    set_call 1 first_key 10
    ∷ set_call 2 second_key 20
    ∷ set_call 3 third_key 30
    ∷ get_call 99 second_key
    ∷ delete_call second_key
    ∷ invalidate_call (pos 5)
    ∷ []

calls_new-IsValid_example : IsValid (calls some_calls (new_query_cache (pos 60) (pos 2)))
calls_new-IsValid_example = calls_new-IsValid (pos 60) (pos 2) some_calls

set_full_example :
    ((set 10 third_key 3 two_entries).keys ≡ second_key ∷ third_key ∷ [])
    × ((get 20 first_key (set 10 third_key 3 two_entries)).0 ≡ none)
unfolding Map.lookup
set_full_example =
    set_full 10 20 third_key first_key first_key (second_key ∷ []) 3 two_entries refl (omega arith)
      refl

cache_answers_new_example :
    cache_answers some_calls (new_query_cache (pos 60) (pos 2))
    ≡ answers some_calls (empty_shelf (pos 60) (pos 2))
cache_answers_new_example = cache_answers_new (pos 60) (pos 2) some_calls

oldest_leaves :
    answers some_calls (empty_shelf (pos 60) (pos 2))
    ≡ (none, 1) ∷ (none, 2) ∷ (none, 2) ∷ (none, 1) ∷ (none, 1) ∷ (none, 0) ∷ []
unfolding answers ask Map.lookup Map.insert Map.erase contains_project_id
oldest_leaves = refl

contains_project_id_iff_example : (contains_project_id first_key (pos 3) ≡ true) ↔ (
    (before : Bytes) × (after : Bytes) × (first_key ≡ before ++ (project_target (pos 3) ++ after)))
contains_project_id_iff_example = contains_project_id_iff first_key (pos 3)
