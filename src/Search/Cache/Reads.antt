-- ===== src/Search/Cache/Reads.antt =====
-- What a reader of the query cache sees: a stored result until it expires, the oldest key evicted
-- first, and a project's results gone after its invalidation.
use semidx.Prelude.{
  ℕ, ◌+◌, ◌≤◌, ◌<◌, ◌≡◌, refl, true, false, Option, none, some, List, [], ◌∷◌, ◌++◌, length, arith,
  if◌then◌else◌, ltb, leb, ◌⊎◌,
}
use semidx.Prelude.Eq.{beq_refl}
use semidx.Prelude.Bytes.{Bytes, bytes_eq, bytes_beq}
use semidx.Prelude.Int.{ℤ}
use semidx.Prelude.Map
use semidx.Prelude.Map.{Map, has, lookup-erase, lookup-insert}
use semidx.Search.Cache.{
  CacheEntry, QueryCache, get, get_entry, set, evict_one, invalidate_project, contains_project_id,
}
use semidx.Search.Cache.Invariant.{lookup-drop_project}

module _ {ℓ} {R : Type ℓ} where
  -- what a `Get` answers for an entry
  abbrev pub fresh : ℕ → Option (CacheEntry R) → Option R
  fresh now none = none
  fresh now (some entry) = if ltb entry.expires_at now then none else some entry.results

  pub get-fresh :
      (now : ℕ) (key : Bytes) (c : QueryCache R)
      → (get now key c).0 ≡ fresh now (Map.lookup key c.entries)
  unfolding get
  get-fresh now key c = go (Map.lookup key c.entries)
    where
      go : (o : Option (CacheEntry R)) → (get_entry now key c o).0 ≡ fresh now o
      go none = refl
      go (some e) = ground arith

  lookup-set_self :
      (now : ℕ) (key : Bytes) (results : R) (c : QueryCache R)
      → Map.lookup key (set now key results c).entries
        ≡ some (record { results = results; expires_at = now + c.ttl })
  unfolding set
  lookup-set_self now key results c =
      let entry : CacheEntry R = record { results = results; expires_at = now + c.ttl } in
      ground (
        arith,
        beq_refl key,
        lookup-insert key key entry c.entries,
        lookup-insert key key entry (evict_one c).entries,
      )

  -- After `Set`, `Get` of the key returns the stored results up to and including the instant
  -- `now + ttl`, and nothing later, whatever else the cache held.
  pub get-set_self :
      (now later : ℕ) (key : Bytes) (results : R) (c : QueryCache R)
      → (get later key (set now key results c)).0
        ≡ (if ltb (now + c.ttl) later then none else some results)
  get-set_self now later key results c = rw (get-fresh, lookup-set_self)

  -- `Set` of a new key in a full cache drops the oldest key of the FIFO list and no other, and
  -- puts the new key at the end of the list.
  pub set_full :
      (now later : ℕ) (key other oldest : Bytes) (rest : List Bytes) (results : R)
      (c : QueryCache R)
      → has key c.entries ≡ false
      → c.max_size ≤ length c.entries
      → c.keys ≡ oldest ∷ rest
      → ((set now key results c).keys ≡ rest ++ (key ∷ []))
        × ((get later other (set now key results c)).0 ≡ (
            if bytes_beq key other
            then (if ltb (now + c.ttl) later then none else some results)
            else if bytes_beq oldest other
            then none
            else (get later other c).0))
  unfolding set
  set_full now later key other oldest rest results c new full first =
      let entry : CacheEntry R = record { results = results; expires_at = now + c.ttl } in
      let full' : leb c.max_size (length c.entries) ≡ true = ground arith in
      rw (new, full')
        (unfold evict_one in
          rw first (
            refl,
            rw (get-fresh, get-fresh)
                (ground (
                  arith,
                  lookup-insert key other entry (Map.erase oldest c.entries),
                  lookup-erase oldest other c.entries,
                )),
          ))

  -- `Set` of a new key in a cache with room, and of a key that is there, leave what `Get` returns
  -- for every other key as it was.
  pub get-set_ne :
      (now later : ℕ) (key other : Bytes) (results : R) (c : QueryCache R)
      → (has key c.entries ≡ true) ⊎ (length c.entries < c.max_size)
      → bytes_beq key other ≡ false
      → (get later other (set now key results c)).0 ≡ (get later other c).0
  unfolding set
  get-set_ne now later key other results c h ne =
      let entry : CacheEntry R = record { results = results; expires_at = now + c.ttl } in
      rw (get-fresh, get-fresh) (ground (arith, lookup-insert key other entry c.entries))

  -- After `InvalidateProject`, `Get` misses on every key that names the project and returns what
  -- it returned before on every other key.
  pub get-invalidate_project :
      (now : ℕ) (id : ℤ) (key : Bytes) (c : QueryCache R)
      → (get now key (invalidate_project id c)).0
        ≡ (if contains_project_id key id then none else (get now key c).0)
  unfolding invalidate_project
  get-invalidate_project now id key c =
      rw (get-fresh, get-fresh, lookup-drop_project) (ground arith)
