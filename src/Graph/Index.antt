-- ===== src/Graph/Index.antt =====
-- The index of files and packages of internal/graph/graph.go: its paths, how it is built, and the
-- edges at a node. The lists of the maps that Go walks stand in the order of the walk.
mod Tests
use semidx.Prelude.{
  ℕ, zero, suc, ◌+◌, Bool, true, false, not, ◌&&◌, ◌||◌, Option, none, some, List, [], ◌∷◌, ◌++◌,
  map, ◌==◌, if◌then◌else◌,
}
use semidx.Prelude.Eq.{contains}
use semidx.Prelude.Bytes.{Bytes, codes, bytes_beq, bytes_eq, bytes_lt, nat_eq}
use semidx.Prelude.Map
use semidx.Prelude.Map.{Map, has}
use semidx.Prelude.Paths.{clean, base, dir, has_suffix, trim_prefix}
use semidx.Chunker.Space.{trim_space}
use semidx.Graph.Walk.{Edge, Graph}

-- `strings.ReplaceAll(p, "\\", "/")`
abbrev pub to_slashes : Bytes → Bytes
to_slashes [] = []
to_slashes (c ∷ p) = (if c == b'\\' then b'/' else c) ∷ to_slashes p

abbrev pub ends_in_slash : Bytes → Bool
ends_in_slash p = has_suffix p (b'/' ∷ [])

-- a path with a slash at its end
abbrev pub with_slash : Bytes → Bytes
with_slash p = if ends_in_slash p then p else p ++ (b'/' ∷ [])

abbrev pub normalize_clean : Bool → Bytes → Bytes
normalize_clean keep_slash p =
    if bytes_beq p (codes ".")
    then []
    else (let q = trim_prefix p (codes "./") in
        if keep_slash && not (bytes_beq q []) then with_slash q else q)

unfoldable pub normalize : Bytes → Bytes
unfolding trim_space clean
normalize path =
    let p = to_slashes (trim_space path) in
    if bytes_beq p [] || bytes_beq p (codes ".")
    then []
    else normalize_clean (ends_in_slash p) (clean p)

unfoldable pub package_dir : Bytes → Bytes
unfolding normalize base dir
package_dir path =
    let p = normalize path in
    if bytes_beq p []
    then []
    else if ends_in_slash p
    then p
    else if not (contains (base p) b'.')
    then p ++ (b'/' ∷ [])
    else if bytes_beq (dir p) (codes ".") || bytes_beq (dir p) []
    then []
    else dir p ++ (b'/' ∷ [])

unfoldable pub is_package_dir : Bytes → Bool
unfolding normalize
is_package_dir path = let p = normalize path in bytes_beq p [] || ends_in_slash p

pub record Index : Type 0 where
  pub out : Map Bytes (List Bytes)
  pub files_in_pkg : Map Bytes (List Bytes)
  pub files : List Bytes

-- `sort.Strings`
abbrev pub insert_string : Bytes → List Bytes → List Bytes
insert_string a [] = a ∷ []
insert_string a (b ∷ xs) = if bytes_lt b a then b ∷ insert_string a xs else a ∷ b ∷ xs

abbrev pub sort_strings : List Bytes → List Bytes
sort_strings [] = []
sort_strings (a ∷ xs) = insert_string a (sort_strings xs)

abbrev pub or_none : Option (List Bytes) → List Bytes
or_none none = []
or_none (some xs) = xs

-- `addFile`; the files that were seen are those of the index
unfoldable pub add_file : Bytes → Index → Index
unfolding normalize package_dir is_package_dir
add_file path idx =
    let file = normalize path in
    if bytes_beq file [] || is_package_dir file || contains idx.files file
    then idx
    else (let pkg = package_dir file in
        record idx {
          files = idx.files ++ (file ∷ []);
          files_in_pkg =
              if bytes_beq pkg []
              then idx.files_in_pkg
              else Map.insert pkg (or_none (Map.lookup pkg idx.files_in_pkg) ++ (file ∷ []))
                  idx.files_in_pkg;
        })

-- the form of a target in the index
abbrev pub target_form : Bytes → Bytes
target_form t =
    if not (contains (base t) b'.') && not (ends_in_slash t) then t ++ (b'/' ∷ []) else t

-- the loop of `normalizeTargets`; the targets that were seen are those that are kept
pub unique_targets : List Bytes → List Bytes → List Bytes
unfolding normalize base
unique_targets uniq [] = uniq
unique_targets uniq (path ∷ targets) =
    let t = target_form (normalize path) in
    unique_targets
      (if bytes_beq (normalize path) [] || contains uniq t then uniq else uniq ++ (t ∷ [])) targets

unfoldable pub normalize_targets : List Bytes → List Bytes
unfolding unique_targets
normalize_targets targets = sort_strings (unique_targets [] targets)

abbrev pub add_sources : Map Bytes (List Bytes) → Index → Index
add_sources [] idx = idx
add_sources ((src, targets) ∷ neighbors) idx =
    let s = normalize src in
    let with_file = add_file s idx in
    add_sources neighbors (
      if bytes_beq s []
      then idx
      else record with_file { out = Map.insert s (normalize_targets targets) with_file.out })

abbrev pub add_files : List Bytes → Index → Index
add_files [] idx = idx
add_files (file ∷ files) idx = add_files files (add_file file idx)

abbrev pub sort_lists : Map Bytes (List Bytes) → Map Bytes (List Bytes)
sort_lists [] = []
sort_lists ((pkg, files) ∷ m) = (pkg, sort_strings files) ∷ sort_lists m

unfoldable pub build : Map Bytes (List Bytes) → List Bytes → Index
unfolding add_file normalize normalize_targets
build neighbors files =
    let empty : Index = record { out = []; files_in_pkg = []; files = [] } in
    let idx = add_files files (add_sources neighbors empty) in
    record idx { files = sort_strings idx.files; files_in_pkg = sort_lists idx.files_in_pkg }

abbrev pub edge_to : Bytes → Bytes → Bool → Bytes → Edge
edge_to source kind reverse target = record {
  source = source;
  target = target;
  kind = kind;
  reverse = reverse;
}

unfoldable pub neighbors_directed : Index → Bytes → List Edge
unfolding normalize is_package_dir
neighbors_directed idx path =
    let node = normalize path in
    if bytes_beq node []
    then []
    else if is_package_dir node
    then map (edge_to (with_slash node) (codes "contains") false)
        (or_none (Map.lookup (with_slash node) idx.files_in_pkg))
    else map (edge_to node (codes "imports") false) (or_none (Map.lookup node idx.out))

-- a path with a slash at its end, unless it is empty
abbrev pub slashed : Bytes → Bytes
slashed p = if bytes_beq p [] then [] else with_slash p

unfoldable pub package_equal : Bytes → Bytes → Bool
unfolding normalize
package_equal a b = bytes_beq (slashed (normalize a)) (slashed (normalize b))

abbrev pub any_equal : List Bytes → Bytes → Bool
any_equal [] pkg = false
any_equal (target ∷ targets) pkg = package_equal target pkg || any_equal targets pkg

abbrev pub importers : Bytes → Map Bytes (List Bytes) → List Edge
importers pkg [] = []
importers pkg ((source, targets) ∷ out) =
    let rest = importers pkg out in
    if any_equal targets pkg then edge_to pkg (codes "imports") true source ∷ rest else rest

unfoldable pub reverse_package_edges : Index → Bytes → List Edge
unfolding normalize package_equal
reverse_package_edges idx path = importers (slashed (normalize path)) idx.out

unfoldable pub reverse_file_edge : Bytes → List Edge
unfolding package_dir
reverse_file_edge file =
    let pkg = package_dir file in
    if bytes_beq pkg [] then [] else edge_to file (codes "contains") true pkg ∷ []

unfoldable pub neighbors_undirected : Index → Bytes → List Edge
unfolding normalize is_package_dir neighbors_directed reverse_package_edges reverse_file_edge
neighbors_undirected idx path =
    let node = normalize path in
    neighbors_directed idx node
    ++ (if is_package_dir node then reverse_package_edges idx node else reverse_file_edge node)

-- `walkNeighbors` and `sortedNeighbors`: the graph that the walks of the index go through, for an
-- order in which `sort.Slice` leaves the edges
abbrev pub graph_of : (List Edge → List Edge) → Index → Graph
graph_of order idx = record {
  sorted_neighbors = λ undirected node.
      order (if undirected then neighbors_undirected idx node else neighbors_directed idx node);
  normalize = normalize;
}
