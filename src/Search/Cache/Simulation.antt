-- ===== src/Search/Cache/Simulation.antt =====
-- The map and the FIFO list of internal/search/cache.go against a shelf, call by call.
use semidx.Prelude.{
  ℕ, suc, ◌+◌, ◌≡◌, refl, ap, sym, ◌∙◌, subst, true, false, not, Option, none, some, List, [], ◌∷◌,
  ◌++◌, length, arith, if◌then◌else◌, ltb, leb, drop, inl, inr, Bool-cases,
}
use semidx.Prelude.Eq.{contains, Distinct}
use semidx.Prelude.Bytes.{Bytes, bytes_eq, bytes_beq_iff}
use semidx.Prelude.Int.{ℤ}
use semidx.Prelude.Map
use semidx.Prelude.Map.{
  Map, has, keys, lookup-erase, lookup-insert, Unique, length_of_same_keys, contains-keys,
  erase_absent,
}
use semidx.Search.Cache.{
  CacheEntry, QueryCache, get, get_entry, set, add_new, delete, remove_key, evict_one, evict_oldest,
  drop_project, keep_present, invalidate_project, contains_project_id,
}
use semidx.Search.Cache.Invariant.{has-evict_oldest, IsValid, lookup-drop_project}
use semidx.Search.Cache.Shelf.{Shelf, drop_expired, place, drop_named}

module _ {ℓ} {R : Type ℓ} where
  -- the shelf has the entries of the map in the order of the FIFO list
  pub record Holds (c : QueryCache R) (s : Shelf R) : Type ℓ where
    pub order : keys s.items ≡ c.keys
    pub same : (k : Bytes) → Map.lookup k s.items ≡ Map.lookup k c.entries
    pub times : s.ttl ≡ c.ttl
    pub bound : s.capacity ≡ c.max_size

  keys-erase :
      (key : Bytes) (m : Map Bytes (CacheEntry R))
      → Distinct (keys m)
      → keys (Map.erase key m) ≡ remove_key key (keys m)
  unfolding Map.erase remove_key
  keys-erase key [] d = refl
  keys-erase key ((j, w) ∷ m) d =
      ground
        (arith, keys-erase key m d.1, erase_absent key m, contains-keys j m, bytes_beq_iff j key)

  keys-insert :
      (key : Bytes) (entry : CacheEntry R) (m : Map Bytes (CacheEntry R))
      → keys (Map.insert key entry m) ≡ (if has key m then keys m else keys m ++ key ∷ [])
  unfolding Map.insert Map.lookup
  keys-insert key entry [] = refl
  keys-insert key entry (item ∷ m) = ground (arith, keys-insert key entry m)

  keys-drop_named :
      (id : ℤ) (m : Map Bytes (CacheEntry R)) (n : Map Bytes (CacheEntry R))
      → ((k : Bytes) → contains (keys m) k ≡ true → has k n ≡ not (contains_project_id k id))
      → keys (drop_named id m) ≡ keep_present n (keys m)
  unfolding keep_present
  keys-drop_named id [] n h = refl
  keys-drop_named id ((j, w) ∷ m) n h =
      let here : has j n ≡ not (contains_project_id j id) =
        h j (ground (arith, bytes_beq_iff j j)) in
      let rest = keys-drop_named id m n (λ k a. h k (ground arith)) in ground (arith)

  lookup-drop_named :
      (id : ℤ) (k : Bytes) (m : Map Bytes (CacheEntry R))
      → Map.lookup k (drop_named id m) ≡ (if contains_project_id k id then none else Map.lookup k m)
  unfolding Map.lookup
  lookup-drop_named id k [] = ground arith
  lookup-drop_named id k (item ∷ m) =
      ground (arith, lookup-drop_named id k m, bytes_beq_iff item.0 k)

  length-keys : (m : Map Bytes (CacheEntry R)) → length (keys m) ≡ length m
  length-keys [] = refl
  length-keys (item ∷ m) = ap suc (length-keys m)

  pub Holds-length :
      {c : QueryCache R} {s : Shelf R} → IsValid c → Holds c s → length s.items ≡ length c.entries
  Holds-length {c} {s} v h =
      let n : length s.items ≡ length c.keys = sym (length-keys s.items) ∙ ap length h.order in
      n ∙ length_of_same_keys c.keys c.entries v.distinct v.unique v.same

  pub erase-Holds :
      (key : Bytes) {c : QueryCache R} {s : Shelf R}
      → IsValid c
      → Holds c s
      → Holds (delete key c) (record s { items = Map.erase key s.items })
  unfolding delete
  erase-Holds key {c} {s} v h = record {
    order =
        keys-erase key s.items (subst Distinct (sym h.order) v.distinct)
        ∙ ap (remove_key key) h.order;
    same = λ k. ground (arith, lookup-erase key k s.items, lookup-erase key k c.entries, h.same k);
    times = h.times;
    bound = h.bound;
  }

  pub get-Holds :
      (now : ℕ) (key : Bytes) {c : QueryCache R} {s : Shelf R}
      → IsValid c
      → Holds c s
      → Holds (get now key c).1 (drop_expired now key (Map.lookup key s.items) s)
  unfolding get get_entry
  get-Holds now key {c} {s} v h = rw (h.same key) (go (Map.lookup key c.entries))
    where
      go : (o : Option (CacheEntry R)) → Holds (get_entry now key c o).1 (drop_expired now key o s)
      go none = h
      go (some e) = elim (Bool-cases (ltb e.expires_at now)) [
        | inl late ↦ rw late (erase-Holds key v h)
        | inr early ↦ rw early h
      ]

  pub invalidate-Holds :
      (id : ℤ) {c : QueryCache R} {s : Shelf R}
      → IsValid c
      → Holds c s
      → Holds (invalidate_project id c) (record s { items = drop_named id s.items })
  unfolding invalidate_project
  invalidate-Holds id {c} {s} v h = record {
    order =
        keys-drop_named id s.items (drop_project id c.entries) (λ k a.
          ground (arith, lookup-drop_project id k c.entries, contains-keys k s.items, h.same k))
        ∙ ap (keep_present (drop_project id c.entries)) h.order;
    same = λ k.
        ground
          (arith, lookup-drop_named id k s.items, lookup-drop_project id k c.entries, h.same k);
    times = h.times;
    bound = h.bound;
  }

  add-Holds :
      (key : Bytes) (entry : CacheEntry R) {c : QueryCache R} (s : Shelf R)
      → has key c.entries ≡ false
      → Holds c s
      → Holds (add_new key entry c) (record s { items = Map.insert key entry s.items })
  unfolding add_new
  add-Holds key entry {c} s new h = record {
    order = let o = h.order in ground (arith, keys-insert key entry s.items, h.same key);
    same = λ k.
        ground
          (arith, lookup-insert key k entry s.items, lookup-insert key k entry c.entries, h.same k);
    times = h.times;
    bound = h.bound;
  }

  evict-Holds :
      (items : Map Bytes (CacheEntry R)) (ttl capacity : ℕ) (ks : List Bytes) (c : QueryCache R)
      → ks ≡ c.keys
      → IsValid c
      → Holds c (record { items = items; ttl = ttl; capacity = capacity })
      → Holds (evict_oldest ks c) (record { items = drop 1 items; ttl = ttl; capacity = capacity })
  unfolding evict_oldest Map.lookup
  evict-Holds [] ttl capacity [] c f v h = h
  evict-Holds [] ttl capacity (oldest ∷ rest) c f v h = absurd (let o = h.order in ground arith)
  evict-Holds (item ∷ items) ttl capacity [] c f v h = absurd (let o = h.order in ground arith)
  evict-Holds ((j, w) ∷ items) ttl capacity (oldest ∷ rest) c f v h =
      let d : Distinct (oldest ∷ rest) = subst Distinct (sym f) v.distinct in
      let o : j ∷ keys items ≡ oldest ∷ rest = h.order ∙ sym f in
      let tail : keys items ≡ rest = ground arith in
      let first : j ≡ oldest = ground arith in
      record {
        order = tail;
        same = λ k. ground (
          arith,
          lookup-erase oldest k c.entries,
          h.same k,
          bytes_beq_iff oldest k,
          contains-keys k items,
          d.0,
        );
        times = h.times;
        bound = h.bound;
      }

  pub set-Holds :
      (now : ℕ) (key : Bytes) (results : R) {c : QueryCache R} {s : Shelf R}
      → IsValid c
      → Holds c s
      → Holds
          (set now key results c)
          (place key (record { results = results; expires_at = now + s.ttl }) s)
  unfolding set
  set-Holds now key results {c} {s} v h =
      let entry : CacheEntry R = record { results = results; expires_at = now + c.ttl } in
      let alike : Holds c (record { items = s.items; ttl = c.ttl; capacity = c.max_size }) =
        record { order = h.order; same = h.same; times = refl; bound = refl } in
      rw (h.times, h.same key, h.bound, Holds-length v h)
        (elim (Bool-cases (has key c.entries)) [
          | inl old ↦ rw old (record {
            order = ground (arith, keys-insert key entry s.items, h.same key, h.order);
            same = λ k. ground (
              arith,
              lookup-insert key k entry s.items,
              lookup-insert key k entry c.entries,
              h.same k,
            );
            times = refl;
            bound = refl;
          })
          | inr new ↦ elim (Bool-cases (leb c.max_size (length c.entries))) [
            | inl full ↦
                rw (new, full)
                  (add-Holds key entry
                    (record { items = drop 1 s.items; ttl = c.ttl; capacity = c.max_size })
                    (unfold evict_one in has-evict_oldest c.keys key c new)
                    (unfold evict_one in
                      evict-Holds s.items c.ttl c.max_size c.keys c refl v alike))
            | inr room ↦
                rw (new, room)
                  (add-Holds key entry
                    (record { items = s.items; ttl = c.ttl; capacity = c.max_size }) new alike)
          ]
        ])
