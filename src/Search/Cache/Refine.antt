-- ===== src/Search/Cache/Refine.antt =====
-- The query cache of internal/search/cache.go answers as a shelf does.
use semidx.Prelude.{ℕ, ◌≡◌, refl, ap, sym, ◌∙◌, Option, none, List, [], ◌∷◌}
use semidx.Prelude.Bytes.{bytes_eq}
use semidx.Prelude.Int.{ℤ}
use semidx.Prelude.Map
use semidx.Prelude.Map.{
  Map, has, keys, lookup-erase, lookup-insert, Unique, length_of_same_keys, contains-keys,
  erase_absent,
}
use semidx.Search.Cache.{QueryCache, new_query_cache, get, len}
use semidx.Search.Cache.Invariant.{
  IsValid, Call, get_call, set_call, delete_call, invalidate_call, call, call-IsValid,
  new_query_cache-IsValid,
}
use semidx.Search.Cache.Reads.{get-fresh}
use semidx.Search.Cache.Simulation.{
  Holds, Holds-length, get-Holds, set-Holds, erase-Holds, invalidate-Holds,
}
use semidx.Search.Cache.Shelf.{Shelf, empty_shelf, live, ask, answers}

module _ {ℓ} {R : Type ℓ} where
  -- the answer of each call, with `Len` after it
  abbrev pub answer : Call R → QueryCache R → Option R
  answer (get_call now key) c = (get now key c).0
  answer (set_call now key results) c = none
  answer (delete_call key) c = none
  answer (invalidate_call id) c = none

  abbrev pub cache_answers : List (Call R) → QueryCache R → List (Option R × ℕ)
  cache_answers [] c = []
  cache_answers (o ∷ os) c = (answer o c, len (call o c)) ∷ cache_answers os (call o c)

  ask-Holds :
      (o : Call R) {c : QueryCache R} {s : Shelf R}
      → IsValid c
      → Holds c s
      → (answer o c ≡ (ask o s).0) × Holds (call o c) (ask o s).1
  unfolding ask
  ask-Holds (get_call now key) {c} {s} v h =
      (get-fresh now key c ∙ ap (live now) (sym (h.same key)), get-Holds now key v h)
  ask-Holds (set_call now key results) v h = (refl, set-Holds now key results v h)
  ask-Holds (delete_call key) v h = (refl, erase-Holds key v h)
  ask-Holds (invalidate_call id) v h = (refl, invalidate-Holds id v h)

  cache_answers-Holds :
      (os : List (Call R)) {c : QueryCache R} {s : Shelf R}
      → IsValid c
      → Holds c s
      → cache_answers os c ≡ answers os s
  unfolding answers len
  cache_answers-Holds [] v h = refl
  cache_answers-Holds (o ∷ os) {c} {s} v h =
      let (same, h') = ask-Holds o v h in
      let v' = call-IsValid o v in
      let rest = cache_answers-Holds os v' h' in rw (same, Holds-length v' h', rest)

  new_query_cache-Holds :
      (ttl max_size : ℤ) → Holds {R = R} (new_query_cache ttl max_size) (empty_shelf ttl max_size)
  unfolding new_query_cache Map.lookup
  new_query_cache-Holds ttl max_size = record {
    order = refl;
    same = λ k. refl;
    times = refl;
    bound = refl;
  }

  -- On a new cache, whatever its parameters, every sequence of `Get`, `Set`, `Delete` and
  -- `InvalidateProject` gives the answers of a shelf: one bounded sequence of entries in the order in
  -- which their keys came in, from which the oldest leaves for a new key. The number of the entries
  -- after each call is the same too.
  pub cache_answers_new :
      (ttl max_size : ℤ) (os : List (Call R))
      → cache_answers os (new_query_cache ttl max_size) ≡ answers os (empty_shelf ttl max_size)
  cache_answers_new ttl max_size os =
      cache_answers-Holds os (new_query_cache-IsValid ttl max_size)
        (new_query_cache-Holds ttl max_size)
