-- ===== src/Search/Cache/Invariant.antt =====
-- What holds of the query cache between two calls: the FIFO list has each key of the map once, and
-- the map never grows past its bound.
use semidx.Prelude.{
  ℕ, suc, ◌+◌, ◌≤◌, ◌<◌, ◌≡◌, refl, true, false, Option, none, some, List, [], ◌∷◌, length, arith,
  if◌then◌else◌, inl, inr, Bool-cases, subst, sym, ltb, leb, ◌&&◌,
}
use semidx.Prelude.Eq.{contains, Distinct, contains-append, Distinct-concat, beq_refl}
use semidx.Prelude.Bytes.{Bytes, bytes_eq, bytes_beq, bytes_beq_iff}
use semidx.Prelude.Int.{ℤ}
use semidx.Prelude.Map
use semidx.Prelude.Map.{
  Map, has, Unique, lookup-erase, lookup-insert, length-erase, length-insert, insert-Unique,
  erase-Unique, length_of_same_keys,
}
use semidx.Search.Cache.{
  CacheEntry, QueryCache, new_query_cache, get, get_entry, set, add_new, delete, remove_key,
  evict_one, evict_oldest, drop_project, keep_present, invalidate_project, contains_project_id,
}

pub record IsValid {ℓ} {R : Type ℓ} (c : QueryCache R) : Type ℓ where
  pub same : (k : Bytes) → contains c.keys k ≡ has k c.entries
  pub distinct : Distinct c.keys
  pub unique : Unique c.entries
  pub bounded : length c.entries ≤ c.max_size
  pub positive : 0 < c.max_size

contains-remove_key :
    (key k : Bytes) (ks : List Bytes)
    → Distinct ks
    → contains (remove_key key ks) k ≡ (if bytes_beq key k then false else contains ks k)
unfolding remove_key
contains-remove_key key k [] d = ground arith
contains-remove_key key k (x ∷ ks) d = ground (
  arith,
  contains-remove_key key k ks d.1,
  bytes_beq_iff x key,
  bytes_beq_iff x k,
  bytes_beq_iff key k,
)

remove_key-Distinct : (key : Bytes) (ks : List Bytes) → Distinct ks → Distinct (remove_key key ks)
unfolding remove_key
remove_key-Distinct key [] d = tt
remove_key-Distinct key (x ∷ ks) d =
    ground (arith, remove_key-Distinct key ks d.1, contains-remove_key key x ks d.1)

module _ {ℓ} {R : Type ℓ} where
  pub new_query_cache-IsValid : (ttl max_size : ℤ) → IsValid (new_query_cache {R = R} ttl max_size)
  unfolding new_query_cache Map.lookup
  new_query_cache-IsValid ttl max_size = record {
    same = λ k. refl;
    distinct = tt;
    unique = tt;
    bounded = omega arith;
    positive = ground arith;
  }

  pub delete-IsValid : (key : Bytes) {c : QueryCache R} → IsValid c → IsValid (delete key c)
  unfolding delete
  delete-IsValid key {c} v = record {
    same = λ k. ground (
      arith,
      contains-remove_key key k c.keys v.distinct,
      lookup-erase key k c.entries,
      v.same k,
    );
    distinct = remove_key-Distinct key c.keys v.distinct;
    unique = erase-Unique key c.entries v.unique;
    bounded = ground (arith, length-erase key c.entries v.unique);
    positive = v.positive;
  }

  pub get-IsValid :
      (now : ℕ) (key : Bytes) {c : QueryCache R} → IsValid c → IsValid (get now key c).1
  unfolding get
  get-IsValid now key {c} v = go (Map.lookup key c.entries)
    where
      go : (o : Option (CacheEntry R)) → IsValid (get_entry now key c o).1
      go none = v
      go (some e) = elim (Bool-cases (ltb e.expires_at now)) [
        | inl late ↦ rw late (delete-IsValid key v)
        | inr fresh ↦ rw fresh v
      ]

  evict_oldest-IsValid :
      (ks : List Bytes) {c : QueryCache R}
      → ks ≡ c.keys
      → IsValid c
      → c.max_size ≤ length c.entries
      → IsValid (evict_oldest ks c) × (length (evict_oldest ks c).entries < c.max_size)
  unfolding evict_oldest
  evict_oldest-IsValid [] {c} e v full =
      absurd (ground (arith, v, length_of_same_keys c.keys c.entries v.distinct v.unique v.same))
  evict_oldest-IsValid (oldest ∷ rest) {c} e v full =
      let d : Distinct (oldest ∷ rest) = subst Distinct (sym e) v.distinct in
      let here : has oldest c.entries ≡ true = ground (arith, v.same oldest, beq_refl oldest) in
      let smaller : length c.entries ≡ suc (length (Map.erase oldest c.entries)) =
        ground (arith, length-erase oldest c.entries v.unique) in
      (
        record {
          same = λ k.
              ground (arith, lookup-erase oldest k c.entries, bytes_beq_iff oldest k, v.same k);
          distinct = d.1;
          unique = erase-Unique oldest c.entries v.unique;
          bounded = omega (arith, v.bounded);
          positive = v.positive;
        },
        omega (arith, v.bounded),
      )

  evict_one-IsValid :
      {c : QueryCache R}
      → IsValid c
      → c.max_size ≤ length c.entries
      → IsValid (evict_one c) × (length (evict_one c).entries < c.max_size)
  unfolding evict_one
  evict_one-IsValid {c} v full = evict_oldest-IsValid c.keys refl v full

  add_new-IsValid :
      (key : Bytes) (entry : CacheEntry R) {c : QueryCache R}
      → IsValid c
      → has key c.entries ≡ false
      → length c.entries < c.max_size
      → IsValid (add_new key entry c)
  unfolding add_new
  add_new-IsValid key entry {c} v new room = record {
    same = λ k.
        ground (
          arith,
          contains-append c.keys (key ∷ []) k,
          lookup-insert key k entry c.entries,
          v.same k,
        );
    distinct = Distinct-concat c.keys key v.distinct (ground (arith, v.same key));
    unique = insert-Unique key entry c.entries v.unique;
    bounded = ground (arith, length-insert key entry c.entries);
    positive = v.positive;
  }

  pub has-evict_oldest :
      (ks : List Bytes) (key : Bytes) (c : QueryCache R)
      → has key c.entries ≡ false
      → has key (evict_oldest ks c).entries ≡ false
  unfolding evict_oldest
  has-evict_oldest [] key c h = h
  has-evict_oldest (oldest ∷ rest) key c h = ground (arith, lookup-erase oldest key c.entries)

  max_size-evict_oldest :
      (ks : List Bytes) (c : QueryCache R) → (evict_oldest ks c).max_size ≡ c.max_size
  unfolding evict_oldest
  max_size-evict_oldest [] c = refl
  max_size-evict_oldest (oldest ∷ rest) c = refl

  pub set-IsValid :
      (now : ℕ) (key : Bytes) (results : R) {c : QueryCache R}
      → IsValid c
      → IsValid (set now key results c)
  unfolding set
  set-IsValid now key results {c} v =
      let entry : CacheEntry R = record { results = results; expires_at = now + c.ttl } in
      elim (Bool-cases (has key c.entries)) [
        | inl old ↦ rw old (record {
          same = λ k.
              ground (arith, lookup-insert key k entry c.entries, bytes_beq_iff key k, v.same k);
          distinct = v.distinct;
          unique = insert-Unique key entry c.entries v.unique;
          bounded = ground (arith, length-insert key entry c.entries, v.bounded);
          positive = v.positive;
        })
        | inr new ↦ elim (Bool-cases (leb c.max_size (length c.entries))) [
          | inl full ↦
              let (v', room) = evict_one-IsValid v (ground arith) in
              rw (new, full)
                (add_new-IsValid key entry v'
                  (unfold evict_one in has-evict_oldest c.keys key c new)
                  (unfold evict_one in rw max_size-evict_oldest room))
          | inr fits ↦ rw (new, fits) (add_new-IsValid key entry v new (ground arith))
        ]
      ]

  pub lookup-drop_project :
      (id : ℤ) (k : Bytes) (m : Map Bytes (CacheEntry R))
      → Map.lookup k (drop_project id m)
        ≡ (if contains_project_id k id then none else Map.lookup k m)
  unfolding drop_project Map.lookup
  lookup-drop_project id k [] = ground arith
  lookup-drop_project id k ((j, w) ∷ m) =
      ground (arith, lookup-drop_project id k m, bytes_beq_iff j k)

  drop_project-Unique :
      (id : ℤ) (m : Map Bytes (CacheEntry R)) → Unique m → Unique (drop_project id m)
  unfolding drop_project
  drop_project-Unique id [] u = tt
  drop_project-Unique id ((j, w) ∷ m) u =
      ground (arith, drop_project-Unique id m u.1, lookup-drop_project id j m)

  length-drop_project :
      (id : ℤ) (m : Map Bytes (CacheEntry R)) → length (drop_project id m) ≤ length m
  unfolding drop_project
  length-drop_project id [] = omega arith
  length-drop_project id ((j, w) ∷ m) = ground (arith, length-drop_project id m)

  pub contains-keep_present :
      (m : Map Bytes (CacheEntry R)) (k : Bytes) (ks : List Bytes)
      → contains (keep_present m ks) k ≡ (contains ks k && has k m)
  unfolding keep_present
  contains-keep_present m k [] = refl
  contains-keep_present m k (x ∷ ks) =
      ground (arith, contains-keep_present m k ks, bytes_beq_iff x k)

  keep_present-Distinct :
      (m : Map Bytes (CacheEntry R)) (ks : List Bytes) → Distinct ks → Distinct (keep_present m ks)
  unfolding keep_present
  keep_present-Distinct m [] d = tt
  keep_present-Distinct m (x ∷ ks) d =
      ground (arith, keep_present-Distinct m ks d.1, contains-keep_present m x ks)

  pub invalidate_project-IsValid :
      (id : ℤ) {c : QueryCache R} → IsValid c → IsValid (invalidate_project id c)
  unfolding invalidate_project
  invalidate_project-IsValid id {c} v = record {
    same = λ k. ground (
      arith,
      contains-keep_present (drop_project id c.entries) k c.keys,
      lookup-drop_project id k c.entries,
      v.same k,
    );
    distinct = keep_present-Distinct (drop_project id c.entries) c.keys v.distinct;
    unique = drop_project-Unique id c.entries v.unique;
    bounded = omega (arith, length-drop_project id c.entries, v.bounded);
    positive = v.positive;
  }

-- The calls that a client makes, each with the clock at its time.
pub data Call {ℓ} (R : Type ℓ) : Type ℓ where
  get_call : ℕ → Bytes → Call R
  set_call : ℕ → Bytes → R → Call R
  delete_call : Bytes → Call R
  invalidate_call : ℤ → Call R

module _ {ℓ} {R : Type ℓ} where
  abbrev pub call : Call R → QueryCache R → QueryCache R
  call (get_call now key) c = (get now key c).1
  call (set_call now key results) c = set now key results c
  call (delete_call key) c = delete key c
  call (invalidate_call id) c = invalidate_project id c

  abbrev pub calls : List (Call R) → QueryCache R → QueryCache R
  calls [] c = c
  calls (o ∷ os) c = calls os (call o c)

  pub call-IsValid : (o : Call R) {c : QueryCache R} → IsValid c → IsValid (call o c)
  call-IsValid (get_call now key) v = get-IsValid now key v
  call-IsValid (set_call now key results) v = set-IsValid now key results v
  call-IsValid (delete_call key) v = delete-IsValid key v
  call-IsValid (invalidate_call id) v = invalidate_project-IsValid id v

  pub calls-IsValid : (os : List (Call R)) {c : QueryCache R} → IsValid c → IsValid (calls os c)
  calls-IsValid [] v = v
  calls-IsValid (o ∷ os) v = calls-IsValid os (call-IsValid o v)

  -- After any calls on a new cache, whatever its parameters: the FIFO list holds exactly the keys
  -- of the map, each once, and the map has at most `max_size` entries.
  pub calls_new-IsValid :
      (ttl max_size : ℤ) (os : List (Call R)) → IsValid (calls os (new_query_cache ttl max_size))
  calls_new-IsValid ttl max_size os = calls-IsValid os (new_query_cache-IsValid ttl max_size)
