-- ===== src/Prelude/Map.antt =====
-- Go's maps, as association lists. The order of the list stands for the iteration order, which Go
-- leaves open: theorems hold for every list.
use Prim.Native.Nat.{ℕ, suc}
use mathlib.Core.Path.{◌≡◌, refl}
use mathlib.Core.Bool.{Bool, true, false}
use mathlib.Core.Option.{Option, none, some}
use mathlib.Core.List.{List, [], ◌∷◌}
use native.Mathlib.Omega.{arith}
use semidx.Prelude.Tests.{if◌then◌else◌}
use semidx.Prelude.Lists.{length}
use semidx.Prelude.Eq.{Eq, beq_refl, contains, Distinct}

abbrev pub Map {ℓ κ} : Type ℓ → Type κ → Type (ℓ ⊔ κ)
Map K V = List (K × V)

abbrev pub is_some {ℓ} : {A : Type ℓ} → Option A → Bool
is_some none = false
is_some (some _) = true

-- the zero value of a missing key
abbrev pub or_zero : Option ℕ → ℕ
or_zero none = 0
or_zero (some n) = n

module _ {ℓ κ} {K : Type ℓ} {V : Type κ} ⦃e : Eq K⦄ where
  -- `m[k]`
  unfoldable pub lookup : K → Map K V → Option V
  lookup k [] = none
  lookup k ((j, v) ∷ m) = if e.beq j k then some v else lookup k m

  -- `m[k] = v`
  unfoldable pub insert : K → V → Map K V → Map K V
  insert k v [] = (k, v) ∷ []
  insert k v ((j, w) ∷ m) = if e.beq j k then (j, v) ∷ m else (j, w) ∷ insert k v m

  -- `delete(m, k)`
  unfoldable pub erase : K → Map K V → Map K V
  erase k [] = []
  erase k ((j, w) ∷ m) = let rest = erase k m in if e.beq j k then rest else (j, w) ∷ rest

  abbrev pub has : K → Map K V → Bool
  has k m = is_some (lookup k m)

  abbrev pub keys : Map K V → List K
  keys [] = []
  keys ((k, v) ∷ m) = k ∷ keys m

  pub lookup-insert :
      (k j : K) (v : V) (m : Map K V)
      → lookup j (insert k v m) ≡ (if e.beq k j then some v else lookup j m)
  unfolding lookup insert
  lookup-insert k j v [] = refl
  lookup-insert k j v ((i, w) ∷ m) =
      ground (arith, e.beq_iff k j, e.beq_iff i k, e.beq_iff i j, lookup-insert k j v m)

  pub lookup-erase :
      (k j : K) (m : Map K V) → lookup j (erase k m) ≡ (if e.beq k j then none else lookup j m)
  unfolding lookup erase
  lookup-erase k j [] = ground arith
  lookup-erase k j ((i, w) ∷ m) =
      ground (arith, lookup-erase k j m, e.beq_iff i k, e.beq_iff i j, e.beq_iff k j)

  pub length-insert :
      (k : K) (v : V) (m : Map K V)
      → length (insert k v m) ≡ (if has k m then length m else suc (length m))
  unfolding lookup insert
  length-insert k v [] = refl
  length-insert k v ((i, w) ∷ m) = ground (arith, length-insert k v m)

  pub contains-keys : (k : K) (m : Map K V) → contains (keys m) k ≡ has k m
  unfolding lookup
  contains-keys k [] = refl
  contains-keys k ((i, w) ∷ m) = ground (arith, contains-keys k m)

  -- Go's maps hold a key once.
  abbrev pub Unique : Map K V → Type 0
  Unique [] = Unit
  Unique ((k, v) ∷ m) = (has k m ≡ false) × Unique m

  pub insert-Unique : (k : K) (v : V) (m : Map K V) → Unique m → Unique (insert k v m)
  unfolding lookup insert
  insert-Unique k v [] u = (refl, tt)
  insert-Unique k v ((i, w) ∷ m) u =
      ground (arith, insert-Unique k v m u.1, lookup-insert k i v m, e.beq_iff k i, e.beq_iff i k)

  pub erase-Unique : (k : K) (m : Map K V) → Unique m → Unique (erase k m)
  unfolding lookup erase
  erase-Unique k [] u = tt
  erase-Unique k ((i, w) ∷ m) u = ground (arith, erase-Unique k m u.1, lookup-erase k i m)

  pub erase_absent : (k : K) (m : Map K V) → has k m ≡ false → erase k m ≡ m
  unfolding lookup erase
  erase_absent k [] h = refl
  erase_absent k ((i, w) ∷ m) h = ground (arith, erase_absent k m)

  pub length-erase :
      (k : K) (m : Map K V)
      → Unique m
      → length m ≡ (if has k m then suc (length (erase k m)) else length (erase k m))
  unfolding lookup erase
  length-erase k [] u = refl
  length-erase k ((i, w) ∷ m) u =
      ground (arith, length-erase k m u.1, erase_absent k m, e.beq_iff i k)

pub ruleset map_laws = (lookup-insert, lookup-erase)

module _ {ℓ κ} {K : Type ℓ} {V : Type κ} ⦃e : Eq K⦄ where
  -- Distinct keys that are those of a map are as many as its entries.
  pub length_of_same_keys :
      (ks : List K) (m : Map K V)
      → Distinct ks
      → Unique m
      → ((k : K) → contains ks k ≡ has k m)
      → length ks ≡ length m
  unfolding lookup
  length_of_same_keys [] [] d u same = refl
  length_of_same_keys [] ((k, v) ∷ m) d u same = ground (arith, same k, beq_refl k)
  length_of_same_keys (x ∷ ks) m d u same = ground (
    arith,
    same x,
    beq_refl x,
    length-erase x m u,
    length_of_same_keys ks (erase x m) d.1 (erase-Unique x m u)
        (λ k. ground (arith, same k, lookup-erase x k m, e.beq_iff x k)),
  )
