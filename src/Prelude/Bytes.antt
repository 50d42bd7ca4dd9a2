-- ===== src/Prelude/Bytes.antt =====
-- Go's strings and byte slices: lists of byte values. `codes` writes a literal.
use Prim.Native.Nat.{ℕ, ◌+◌}
use Prim.Native.Char.{code}
use Prim.Native.String.{String}
use mathlib.Core.Path.{◌≡◌, refl, ap}
use mathlib.Core.Logic.{◌↔◌, inl, inr}
use mathlib.Core.Bool.{Bool, true, false, ◌&&◌, ◌||◌}
use mathlib.Core.List.{List, [], ◌∷◌, ◌++◌}
use native.Mathlib.Omega.{arith}
use semidx.Prelude.Tests.{ltb, leb, ◌==◌, if◌then◌else◌, ==_iff, Bool-cases}
use semidx.Prelude.Eq.{Eq}

abbrev pub Bytes : Type 0
Bytes = List ℕ

-- the bytes of an ASCII literal
abbrev pub codes : String → Bytes
codes String.[] = []
codes (String.◌∷◌ c s) = code c ∷ codes s

abbrev pub bytes_beq : Bytes → Bytes → Bool
bytes_beq [] [] = true
bytes_beq [] (y ∷ ys) = false
bytes_beq (x ∷ xs) [] = false
bytes_beq (x ∷ xs) (y ∷ ys) = (x == y) && bytes_beq xs ys

pub bytes_beq_iff : (a b : Bytes) → (bytes_beq a b ≡ true) ↔ (a ≡ b)
bytes_beq_iff [] [] = (λ _. refl, λ _. refl)
bytes_beq_iff [] (y ∷ ys) = (λ h. cc, λ h. cc)
bytes_beq_iff (x ∷ xs) [] = (λ h. cc, λ h. cc)
bytes_beq_iff (x ∷ xs) (y ∷ ys) = ground (arith, bytes_beq_iff xs ys)

instance abbrev pub bytes_eq : Eq Bytes
bytes_eq = record { beq = bytes_beq; beq_iff = bytes_beq_iff }

instance abbrev pub nat_eq : Eq ℕ
nat_eq = record { beq = ◌==◌; beq_iff = ==_iff }

-- Go's `<` on strings
abbrev pub bytes_lt : Bytes → Bytes → Bool
bytes_lt [] [] = false
bytes_lt [] (y ∷ ys) = true
bytes_lt (x ∷ xs) [] = false
bytes_lt (x ∷ xs) (y ∷ ys) = if ltb x y then true else (x == y) && bytes_lt xs ys

-- `strings.HasPrefix`
abbrev pub has_prefix : Bytes → Bytes → Bool
has_prefix s [] = true
has_prefix [] (y ∷ p) = false
has_prefix (x ∷ s) (y ∷ p) = (x == y) && has_prefix s p

-- `strings.Contains`
abbrev pub has_infix : Bytes → Bytes → Bool
has_infix [] sub = has_prefix [] sub
has_infix (x ∷ s) sub = has_prefix (x ∷ s) sub || has_infix s sub

-- `strings.ToLower`, on ASCII text
abbrev pub lower : Bytes → Bytes
lower [] = []
lower (c ∷ s) = (if leb b'A' c && leb c b'Z' then c + 32 else c) ∷ lower s

pub has_prefix-append : (p s : Bytes) → has_prefix (p ++ s) p ≡ true
has_prefix-append [] s = refl
has_prefix-append (x ∷ p) s = ground (arith, has_prefix-append p s)

pub has_prefix-drop : (s p : Bytes) → has_prefix s p ≡ true → (rest : Bytes) × (s ≡ p ++ rest)
has_prefix-drop s [] h = (s, refl)
has_prefix-drop [] (y ∷ p) h = cc
has_prefix-drop (x ∷ s) (y ∷ p) h =
    let (rest, e) = has_prefix-drop s p (ground arith) in (rest, ground arith)

pub has_infix-append : (before p after : Bytes) → has_infix (before ++ (p ++ after)) p ≡ true
has_infix-append [] [] [] = refl
has_infix-append [] [] (x ∷ after) = refl
has_infix-append [] (y ∷ p) after = ground (arith, has_prefix-append (y ∷ p) after)
has_infix-append (x ∷ before) p after = ground (arith, has_infix-append before p after)

pub has_infix-split :
    (s p : Bytes)
    → has_infix s p ≡ true
    → (before : Bytes) × (after : Bytes) × (s ≡ before ++ (p ++ after))
has_infix-split [] p h = let (rest, e) = has_prefix-drop [] p h in ([], rest, e)
has_infix-split (x ∷ s) p h = elim (Bool-cases (has_prefix (x ∷ s) p)) [
  | inl e ↦ let (rest, q) = has_prefix-drop (x ∷ s) p e in ([], rest, q)
  | inr e ↦
      let (before, after, q) = has_infix-split s p (rw e at h) in
      (x ∷ before, after, ap (λ t. x ∷ t) q)
]
