-- ===== src/Prelude/Paths.antt =====
-- What the repository uses of Go's path/filepath and of the string functions beside it, on paths with
-- slashes.
use semidx.Prelude.{
  ℕ, Bool, false, ◌&&◌, ◌||◌, Option, none, some, List, [], ◌∷◌, ◌++◌, ◌==◌, if◌then◌else◌, ◌≡◌,
  refl,
}
use semidx.Prelude.Bytes.{Bytes, bytes_beq, codes, has_prefix}

abbrev pub reverse_onto {ℓ} : {A : Type ℓ} → List A → List A → List A
reverse_onto [] ys = ys
reverse_onto (x ∷ xs) ys = reverse_onto xs (x ∷ ys)

abbrev pub add_to_first : ℕ → List Bytes → List Bytes
add_to_first c [] = (c ∷ []) ∷ []
add_to_first c (part ∷ parts) = (c ∷ part) ∷ parts

-- `strings.Split` at a byte
unfoldable pub split : ℕ → Bytes → List Bytes
split sep [] = [] ∷ []
split sep (c ∷ s) = let parts = split sep s in if c == sep then [] ∷ parts else add_to_first c parts

-- `strings.Join`
unfoldable pub join : ℕ → List Bytes → Bytes
join sep [] = []
join sep (part ∷ []) = part
join sep (part ∷ more ∷ parts) = part ++ (sep ∷ join sep (more ∷ parts))

abbrev pub has_suffix : Bytes → Bytes → Bool
has_suffix s p = has_prefix (reverse_onto s []) (reverse_onto p [])

abbrev pub drop_prefix : Bytes → Bytes → Bytes
drop_prefix s [] = s
drop_prefix [] (y ∷ p) = []
drop_prefix (x ∷ s) (y ∷ p) = drop_prefix s p

-- `strings.TrimPrefix`
abbrev pub trim_prefix : Bytes → Bytes → Bytes
trim_prefix s p = if has_prefix s p then drop_prefix s p else s

-- `strings.TrimSuffix`
unfoldable pub trim_suffix : Bytes → Bytes → Bytes
trim_suffix s p =
    if has_suffix s p
    then reverse_onto (drop_prefix (reverse_onto s []) (reverse_onto p [])) []
    else s

-- `strings.TrimLeft` of a byte
abbrev pub trim_left : ℕ → Bytes → Bytes
trim_left c [] = []
trim_left c (x ∷ s) = if x == c then trim_left c s else x ∷ s

abbrev pub trim_right : ℕ → Bytes → Bytes
trim_right c s = reverse_onto (trim_left c (reverse_onto s [])) []

abbrev is_rooted : Bytes → Bool
is_rooted [] = false
is_rooted (c ∷ s) = c == b'/'

-- an element `..` takes away the last of the elements, which stand in reverse
abbrev parent : Bool → List Bytes → List Bytes
parent rooted [] = if rooted then [] else codes ".." ∷ []
parent rooted (e ∷ out) = if bytes_beq e (codes "..") then codes ".." ∷ e ∷ out else out

abbrev element : Bool → Bytes → List Bytes → List Bytes
element rooted e out =
    if bytes_beq e [] || bytes_beq e (codes ".")
    then out
    else if bytes_beq e (codes "..")
    then parent rooted out
    else e ∷ out

abbrev elements : Bool → List Bytes → List Bytes → List Bytes
elements rooted [] out = out
elements rooted (e ∷ es) out = elements rooted es (element rooted e out)

abbrev or_dot : Bytes → Bytes
or_dot [] = codes "."
or_dot (c ∷ s) = c ∷ s

-- `filepath.Clean`
unfoldable pub clean : Bytes → Bytes
unfolding split join
clean p =
    let body = join b'/' (reverse_onto (elements (is_rooted p) (split b'/' p) []) []) in
    or_dot (if is_rooted p then b'/' ∷ body else body)

abbrev last_or : Bytes → List Bytes → Bytes
last_or d [] = d
last_or d (e ∷ es) = last_or e es

abbrev but_last : List Bytes → List Bytes
but_last [] = []
but_last (e ∷ []) = []
but_last (e ∷ f ∷ es) = e ∷ but_last (f ∷ es)

-- `filepath.Base`
unfoldable pub base : Bytes → Bytes
unfolding split
base [] = codes "."
base (c ∷ s) =
    let e = last_or [] (split b'/' (trim_right b'/' (c ∷ s))) in
    if bytes_beq e [] then codes "/" else e

-- `filepath.Dir`: what is before the last slash, cleaned
unfoldable pub dir : Bytes → Bytes
unfolding split join clean
dir p =
    let parts = but_last (split b'/' p) in
    clean (if bytes_beq (join b'/' parts) [] && is_rooted p then codes "/" else join b'/' parts)

-- the suffix from the last dot of an element on
abbrev dot_suffix : Bytes → Option Bytes
dot_suffix [] = none
dot_suffix (c ∷ s) = elim (dot_suffix s) [
  | none ↦ if c == b'.' then some (c ∷ s) else none
  | some t ↦ some t
]

abbrev or_empty : Option Bytes → Bytes
or_empty none = []
or_empty (some s) = s

-- `filepath.Ext`
unfoldable pub ext : Bytes → Bytes
unfolding split
ext p = or_empty (dot_suffix (last_or [] (split b'/' p)))

-- `filepath.Join` of two elements
unfoldable pub join_paths : Bytes → Bytes → Bytes
unfolding clean
join_paths [] [] = []
join_paths [] (y ∷ b) = clean (y ∷ b)
join_paths (x ∷ a) [] = clean (x ∷ a)
join_paths (x ∷ a) (y ∷ b) = clean ((x ∷ a) ++ (b'/' ∷ y ∷ b))

clean_dots : clean (codes "a//b/../c/./d/") ≡ codes "a/c/d"
unfolding clean
clean_dots = refl

clean_parents : clean (codes "../../a/../..") ≡ codes "../../.."
unfolding clean
clean_parents = refl

clean_root : (clean (codes "/../a") ≡ codes "/a") × (clean (codes "//") ≡ codes "/")
unfolding clean
clean_root = (refl, refl)

dirs :
    (dir (codes "a/b.py") ≡ codes "a")
    × (dir (codes "b.py") ≡ codes ".")
    × (dir (codes "/b") ≡ codes "/")
    × (dir (codes "/a/b") ≡ codes "/a")
unfolding dir
dirs = (refl, refl, refl, refl)

extensions :
    (ext (codes "a.b/c.test.ts") ≡ codes ".ts")
    × (ext (codes "a.b/c") ≡ [])
    × (base (codes "a/b//") ≡ codes "b")
    × (trim_suffix (codes "a.ts") (codes ".ts") ≡ codes "a")
unfolding ext base trim_suffix
extensions = (refl, refl, refl, refl)
