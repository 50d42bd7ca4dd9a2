-- ===== src/Search/Cache.antt =====
-- The query cache of internal/search/cache.go. A method that writes returns the new cache. The calls
-- come one after another: `Get` gives its lock back before it deletes an entry that has expired, and
-- no call of another goroutine comes between the two here. Times are counted in nanoseconds, and `now` is `time.Now()`.
pub mod Invariant
pub mod Reads
pub mod Keys
pub mod Shelf
pub mod Simulation
pub mod Refine
mod Tests
use semidx.Prelude.{
  ℕ, ◌+◌, Bool, true, false, not, ◌&&◌, ◌||◌, Option, none, some, List, [], ◌∷◌, ◌++◌, length, ltb,
  leb, ◌==◌, if◌then◌else◌,
}
use semidx.Prelude.Bytes.{Bytes, bytes_beq, has_prefix, bytes_eq, codes}
use semidx.Prelude.Int.{ℤ, positive_or}
use semidx.Prelude.Map
use semidx.Prelude.Map.{Map, has}
use semidx.Prelude.Decimal.{format_int}

pub record CacheEntry {ℓ} (R : Type ℓ) : Type ℓ where
  pub results : R
  pub expires_at : ℕ

pub record QueryCache {ℓ} (R : Type ℓ) : Type ℓ where
  pub entries : Map Bytes (CacheEntry R)
  pub ttl : ℕ
  pub max_size : ℕ
  pub keys : List Bytes

-- five minutes
abbrev pub default_ttl : ℕ
default_ttl = 300_000_000_000

abbrev pub default_max_size : ℕ
default_max_size = 1000

-- `|<projectID>|`
unfoldable pub project_target : ℤ → Bytes
unfolding format_int
project_target id = b'|' ∷ (format_int id ++ (b'|' ∷ []))

-- The scan: at each `|` the rest of the key is compared with the target.
pub contains_target : Bytes → Bytes → Bool
contains_target [] target = false
contains_target (c ∷ s) target =
    ((c == b'|') && has_prefix (c ∷ s) target) || contains_target s target

unfoldable pub contains_project_id : Bytes → ℤ → Bool
unfolding contains_target project_target
contains_project_id key id = contains_target key (project_target id)

-- the loop over `c.keys` that removes the first match
pub remove_key : Bytes → List Bytes → List Bytes
remove_key key [] = []
remove_key key (k ∷ ks) = if bytes_beq k key then ks else k ∷ remove_key key ks

module _ {ℓ} {R : Type ℓ} where
  unfoldable pub new_query_cache : ℤ → ℤ → QueryCache R
  new_query_cache ttl max_size = record {
    entries = [];
    ttl = positive_or default_ttl ttl;
    max_size = positive_or default_max_size max_size;
    keys = [];
  }

  unfoldable pub delete : Bytes → QueryCache R → QueryCache R
  unfolding remove_key
  delete key c = record c { entries = Map.erase key c.entries; keys = remove_key key c.keys }

  pub get_entry : ℕ → Bytes → QueryCache R → Option (CacheEntry R) → Option R × QueryCache R
  get_entry now key c none = (none, c)
  get_entry now key c (some entry) =
      if ltb entry.expires_at now then (none, delete key c) else (some entry.results, c)

  unfoldable pub get : ℕ → Bytes → QueryCache R → Option R × QueryCache R
  unfolding get_entry
  get now key c = get_entry now key c (Map.lookup key c.entries)

  pub evict_oldest : List Bytes → QueryCache R → QueryCache R
  evict_oldest [] c = c
  evict_oldest (oldest ∷ rest) c = record c { entries = Map.erase oldest c.entries; keys = rest }

  unfoldable pub evict_one : QueryCache R → QueryCache R
  unfolding evict_oldest
  evict_one c = evict_oldest c.keys c

  pub add_new : Bytes → CacheEntry R → QueryCache R → QueryCache R
  add_new key entry c = record c {
    entries = Map.insert key entry c.entries;
    keys = c.keys ++ (key ∷ []);
  }

  unfoldable pub set : ℕ → Bytes → R → QueryCache R → QueryCache R
  unfolding add_new
  set now key results c =
      let entry : CacheEntry R = record { results = results; expires_at = now + c.ttl } in
      if has key c.entries
      then record c { entries = Map.insert key entry c.entries }
      else add_new key entry (if leb c.max_size (length c.entries) then evict_one c else c)

  -- `range c.entries` with the deletions
  pub drop_project : ℤ → Map Bytes (CacheEntry R) → Map Bytes (CacheEntry R)
  drop_project id [] = []
  drop_project id ((k, v) ∷ m) =
      let rest = drop_project id m in if contains_project_id k id then rest else (k, v) ∷ rest

  -- the rebuilt FIFO list
  pub keep_present : Map Bytes (CacheEntry R) → List Bytes → List Bytes
  keep_present m [] = []
  keep_present m (k ∷ ks) = let rest = keep_present m ks in if has k m then k ∷ rest else rest

  unfoldable pub invalidate_project : ℤ → QueryCache R → QueryCache R
  unfolding drop_project keep_present
  invalidate_project id c =
      let entries = drop_project id c.entries in
      record c { entries = entries; keys = keep_present entries c.keys }

  unfoldable pub len : QueryCache R → ℕ
  len c = length c.entries
