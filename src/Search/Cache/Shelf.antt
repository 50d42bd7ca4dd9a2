-- ===== src/Search/Cache/Shelf.antt =====
-- What the query cache of internal/search/cache.go promises, without its map and its FIFO list: one
-- sequence of entries, oldest first, with a bound.
use semidx.Prelude.{
  ℕ, ◌+◌, ◌||◌, not, Option, none, some, List, [], ◌∷◌, length, if◌then◌else◌, ltb, leb, drop,
}
use semidx.Prelude.Bytes.{Bytes, bytes_eq}
use semidx.Prelude.Int.{ℤ, positive_or}
use semidx.Prelude.Map
use semidx.Prelude.Map.{Map, has}
use semidx.Search.Cache.{CacheEntry, contains_project_id, default_ttl, default_max_size}
use semidx.Search.Cache.Invariant.{Call, get_call, set_call, delete_call, invalidate_call}

pub record Shelf {ℓ} (R : Type ℓ) : Type ℓ where
  pub items : Map Bytes (CacheEntry R)
  pub ttl : ℕ
  pub capacity : ℕ

module _ {ℓ} {R : Type ℓ} where
  abbrev pub empty_shelf : ℤ → ℤ → Shelf R
  empty_shelf ttl max_size = record {
    items = [];
    ttl = positive_or default_ttl ttl;
    capacity = positive_or default_max_size max_size;
  }

  -- what a reader gets from an entry
  abbrev pub live : ℕ → Option (CacheEntry R) → Option R
  live now none = none
  live now (some entry) = if ltb entry.expires_at now then none else some entry.results

  -- an entry that is found expired is dropped
  abbrev pub drop_expired : ℕ → Bytes → Option (CacheEntry R) → Shelf R → Shelf R
  drop_expired now key none s = s
  drop_expired now key (some entry) s = record s {
    items = if ltb entry.expires_at now then Map.erase key s.items else s.items;
  }

  -- a key that is there keeps its place; a new one goes to the end, after the oldest has left a full
  -- shelf
  abbrev pub place : Bytes → CacheEntry R → Shelf R → Shelf R
  place key entry s = record s {
    items = Map.insert key entry (
        if has key s.items || not (leb s.capacity (length s.items))
        then s.items
        else drop 1 s.items);
  }

  abbrev pub drop_named : ℤ → Map Bytes (CacheEntry R) → Map Bytes (CacheEntry R)
  drop_named id [] = []
  drop_named id (item ∷ items) =
      if contains_project_id item.0 id then drop_named id items else item ∷ drop_named id items

  -- the answer of a `Get`, and the shelf after the call
  unfoldable pub ask : Call R → Shelf R → Option R × Shelf R
  ask (get_call now key) s =
      (live now (Map.lookup key s.items), drop_expired now key (Map.lookup key s.items) s)
  ask (set_call now key results) s =
      (none, place key (record { results = results; expires_at = now + s.ttl }) s)
  ask (delete_call key) s = (none, record s { items = Map.erase key s.items })
  ask (invalidate_call id) s = (none, record s { items = drop_named id s.items })

  -- the answer of each call, with the number of the entries after it
  unfoldable pub answers : List (Call R) → Shelf R → List (Option R × ℕ)
  unfolding ask
  answers [] s = []
  answers (o ∷ os) s = ((ask o s).0, length (ask o s).1.items) ∷ answers os (ask o s).1
