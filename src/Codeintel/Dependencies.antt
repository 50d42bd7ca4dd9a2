-- ===== src/Codeintel/Dependencies.antt =====
-- Which files import the package of a file (internal/codeintel/callers.go). The graph has the files
-- with the directories that each imports; its order is the order in which Go's map is walked.
use semidx.Prelude.{Bool, false, ◌||◌, List, [], ◌∷◌, ◌++◌, ◌≡◌, refl, map, if◌then◌else◌}
use semidx.Prelude.Eq.{contains}
use semidx.Prelude.Bytes.{Bytes, bytes_beq, bytes_eq, codes, lower}
use semidx.Prelude.Map.{Map}
use semidx.Prelude.Paths.{
  split, join, trim_suffix, trim_left, trim_right, clean, base, dir, ext, join_paths,
}

abbrev pub ImportGraph : Type 0
ImportGraph = Map Bytes (List Bytes)

unfoldable pub normalize_dependency_dir : Bytes → Bytes
unfolding clean trim_suffix
normalize_dependency_dir d =
    if bytes_beq (clean d) (codes ".")
    then codes "./"
    else trim_suffix (clean d) (codes "/") ++ codes "/"

abbrev pub is_python_source_root : Bytes → Bool
is_python_source_root name =
    bytes_beq name (codes "lib")
    || bytes_beq name (codes "python")
    || bytes_beq name (codes "source")
    || bytes_beq name (codes "src")

abbrev pub is_js_family_ext : Bytes → Bool
is_js_family_ext e =
    bytes_beq e (codes ".ts")
    || bytes_beq e (codes ".tsx")
    || bytes_beq e (codes ".js")
    || bytes_beq e (codes ".jsx")
    || bytes_beq e (codes ".mjs")
    || bytes_beq e (codes ".cjs")

-- `add` of `dependencyDirs`
unfoldable pub add_dir : List Bytes → Bytes → List Bytes
unfolding normalize_dependency_dir
add_dir result value =
    let v = normalize_dependency_dir value in
    if contains result v then result else result ++ (v ∷ [])

-- the loop of `dependencyDirs` over the parts
unfoldable pub add_roots : List Bytes → List Bytes → List Bytes
unfolding add_dir join
add_roots result [] = result
add_roots result (part ∷ []) = result
add_roots result (part ∷ more ∷ parts) =
    add_roots
      (if is_python_source_root part then add_dir result (join b'/' (more ∷ parts)) else result)
      (more ∷ parts)

unfoldable pub dependency_dirs : Bytes → List Bytes
unfolding add_roots add_dir clean split
dependency_dirs d =
    let dir = if bytes_beq (clean d) (codes ".") then [] else clean d in
    add_roots (add_dir [] dir) (split b'/' (trim_right b'/' (trim_left b'/' dir)))

unfoldable pub js_family_dependency_dirs : Bytes → Bytes → Bytes → List Bytes
unfolding normalize_dependency_dir base trim_suffix join_paths
js_family_dependency_dirs dir cleaned ext =
    let first = normalize_dependency_dir dir in
    let name = trim_suffix (base cleaned) ext in
    let alias = normalize_dependency_dir (join_paths dir name) in
    if bytes_beq name [] || bytes_beq name (codes ".")
    then first ∷ []
    else if bytes_beq alias first
    then first ∷ []
    else first ∷ alias ∷ []

unfoldable pub dependency_dirs_for_file : Bytes → List Bytes
unfolding dependency_dirs js_family_dependency_dirs normalize_dependency_dir clean dir ext
dependency_dirs_for_file file =
    let cleaned = clean file in
    let e = lower (ext cleaned) in
    if bytes_beq e (codes ".py")
    then dependency_dirs (dir cleaned)
    else if is_js_family_ext e
    then js_family_dependency_dirs (dir cleaned) cleaned e
    else normalize_dependency_dir (dir cleaned) ∷ []

-- whether a target is among the wanted directories
unfoldable pub imports_one_of : List Bytes → List Bytes → Bool
unfolding normalize_dependency_dir
imports_one_of [] wanted = false
imports_one_of (target ∷ targets) wanted =
    contains wanted (normalize_dependency_dir target) || imports_one_of targets wanted

abbrev pub callers_among : ImportGraph → List Bytes → List Bytes
callers_among [] wanted = []
callers_among ((src, targets) ∷ graph) wanted =
    if imports_one_of targets wanted
    then src ∷ callers_among graph wanted
    else callers_among graph wanted

unfoldable pub find_direct_callers_for_dirs : ImportGraph → List Bytes → List Bytes
unfolding imports_one_of normalize_dependency_dir
find_direct_callers_for_dirs graph dirs = callers_among graph (map normalize_dependency_dir dirs)

-- a set of strings to which the callers of one file are added
abbrev pub add_callers : List Bytes → Bytes → List Bytes → List Bytes
add_callers [] exclude set = set
add_callers (src ∷ callers) exclude set =
    add_callers callers exclude
      (if bytes_beq src exclude || contains set src then set else src ∷ set)

abbrev pub callers_of_all : ImportGraph → List Bytes → Bytes → List Bytes → List Bytes
callers_of_all graph [] exclude set = set
callers_of_all graph (dc ∷ direct) exclude set =
    callers_of_all graph direct exclude
      (add_callers (find_direct_callers_for_dirs graph (dependency_dirs_for_file dc)) exclude set)

abbrev pub without : List Bytes → List Bytes → List Bytes
without direct [] = []
without direct (x ∷ set) = if contains direct x then without direct set else x ∷ without direct set

-- the set before it is sorted
unfoldable pub collect_transitive_callers : ImportGraph → List Bytes → Bytes → List Bytes
unfolding find_direct_callers_for_dirs dependency_dirs_for_file
collect_transitive_callers graph direct exclude =
    without direct (callers_of_all graph direct exclude [])

python_root :
    dependency_dirs_for_file (codes "app/src/pkg/mod.PY") ≡ codes "app/src/pkg/" ∷ codes "pkg/" ∷ []
unfolding dependency_dirs_for_file
python_root = refl

script_alias :
    dependency_dirs_for_file (codes "./pages/Library.tsx")
    ≡ codes "pages/" ∷ codes "pages/Library/" ∷ []
unfolding dependency_dirs_for_file
script_alias = refl

root_file : dependency_dirs_for_file (codes "main.go") ≡ codes "./" ∷ []
unfolding dependency_dirs_for_file
root_file = refl
