-- ===== src/Projects.antt =====
-- How a reference to a project is resolved (internal/projectref/resolve.go). What the file system and
-- git answer is a parameter, as is the folding of the case of Unicode.
pub mod Above
pub mod Closest
pub mod Named
pub mod Resolved
mod Tests
use semidx.Prelude.{
  ℕ, suc, Bool, true, false, not, ◌&&◌, ◌||◌, Option, none, some, List, [], ◌∷◌, ◌++◌, length, ltb,
  leb, if◌then◌else◌,
}
use semidx.Prelude.Bytes.{Bytes, bytes_beq, codes, has_prefix}
use semidx.Prelude.Paths.{clean}
use semidx.Chunker.Space.{trim_space}
use semidx.Search.Multi.{Project}

pub record World : Type 0 where
  -- `filepath.Abs` and `filepath.EvalSymlinks`
  pub abs : Bytes → Option Bytes
  pub eval_symlinks : Bytes → Option Bytes
  -- the identity of the repository of git at a path, by `gitmeta.Resolve`
  pub git_identity : Bytes → Option Bytes
  -- `strings.EqualFold`
  pub equal_fold : Bytes → Bytes → Bool

-- a project, the error of an ambiguous name with the identities, `store.ErrNotFound`, or an error of
-- the store
pub data Resolution : Type 0 where
  found : Project → Resolution
  ambiguous : Bytes → List Bytes → Resolution
  not_found : Resolution
  store_failed : Resolution

-- `projects[i]` for the first `i` that passes
abbrev pub find_first : (Project → Bool) → List Project → Option Project
find_first test [] = none
find_first test (p ∷ ps) = if test p then some p else find_first test ps

unfoldable pub find_by_identity : List Project → Bytes → Option Project
find_by_identity projects identity =
    if bytes_beq identity [] then none else find_first (λ p. bytes_beq p.identity identity) projects

abbrev pub resolved_forms : Bytes → Option Bytes → List Bytes
resolved_forms abs none = abs ∷ []
resolved_forms abs (some r) = if bytes_beq (clean r) abs then abs ∷ [] else abs ∷ clean r ∷ []

abbrev pub last_form : List Bytes → Option Bytes
last_form [] = none
last_form (form ∷ []) = some form
last_form (form ∷ more ∷ forms) = last_form (more ∷ forms)

abbrev pub named_or : Bytes → Option Project × List Bytes → Resolution → Resolution
named_or ref (matched, identities) otherwise =
    if ltb 1 (length identities)
    then ambiguous ref identities
    else elim matched [ none ↦ otherwise | some p ↦ found p ]

abbrev pub project_of : Option (Project × ℕ) → Option Project
project_of none = none
project_of (some b) = some b.0

abbrev pub found_or : Option Project → Resolution → Resolution
found_or none otherwise = otherwise
found_or (some p) otherwise = found p

-- the first form of a path under which there is a project
abbrev pub by_forms : (Bytes → Option Project) → List Bytes → Option Project
by_forms by_identity [] = none
by_forms by_identity (form ∷ forms) = elim (by_identity (codes "path:" ++ form)) [
  | none ↦ by_forms by_identity forms
  | some p ↦ some p
]

-- the longer of the best so far and a project with the length of its path
unfoldable pub better : Project → Option ℕ → Option (Project × ℕ) → Option (Project × ℕ)
better p none best = best
better p (some n) none = some (p, n)
better p (some n) (some b) = if ltb b.1 n then some (p, n) else some b

module _ (w : World) where
  abbrev pub absolute_forms : Option Bytes → List Bytes
  absolute_forms none = []
  absolute_forms (some a) = resolved_forms (clean a) (w.eval_symlinks (clean a))

  unfoldable pub equivalent_path_forms : Bytes → List Bytes
  unfolding trim_space clean
  equivalent_path_forms path =
      if bytes_beq (trim_space path) [] then [] else absolute_forms (w.abs path)

  unfoldable pub canonical_path : Bytes → Option Bytes
  unfolding equivalent_path_forms
  canonical_path path = last_form (equivalent_path_forms path)

  unfoldable pub is_named : Bytes → Project → Bool
  is_named ref p = bytes_beq p.name ref || w.equal_fold p.name ref

  -- the loop of `findByName`
  pub scan_names : Bytes → List Project → Option Project → List Bytes → Option Project × List Bytes
  unfolding is_named
  scan_names ref [] matched identities = (matched, identities)
  scan_names ref (p ∷ ps) matched identities =
      if is_named ref p
      then scan_names ref ps (elim matched [ none ↦ some p | some q ↦ some q ])
          (identities ++ ((if bytes_beq p.identity [] then p.path else p.identity) ∷ []))
      else scan_names ref ps matched identities

  abbrev pub is_at : Option Bytes → Project → Bool
  is_at none p = false
  is_at (some path) p = elim (canonical_path p.path) [ none ↦ false | some q ↦ bytes_beq q path ]

  unfoldable pub find_by_indexed_path : Bytes → List Project → Option Project
  unfolding canonical_path
  find_by_indexed_path ref projects = find_first (is_at (canonical_path ref)) projects

  -- the length of the path of the project if it has the directory in it
  unfoldable pub enclosing_length : Bytes → Project → Option ℕ
  unfolding canonical_path
  enclosing_length cwd p = elim (canonical_path p.path) [
    | none ↦ none
    | some q ↦ if bytes_beq cwd q || has_prefix cwd (q ++ codes "/") then some (length q) else none
  ]

  -- the loop of `Enclosing`; the best so far has its length with it
  pub closest : Bytes → List Project → Option (Project × ℕ) → Option (Project × ℕ)
  unfolding better enclosing_length
  closest cwd [] best = best
  closest cwd (p ∷ ps) best = closest cwd ps (better p (enclosing_length cwd p) best)

  abbrev pub enclosing_at : List Project → Option Bytes → Option Project
  enclosing_at projects none = none
  enclosing_at projects (some c) = project_of (closest c projects none)

  unfoldable pub enclosing : Bytes → List Project → Option Project
  unfolding canonical_path closest
  enclosing cwd projects = enclosing_at projects (canonical_path cwd)

  pub resolve_in_list : Bytes → Bytes → List Project → Resolution
  unfolding find_by_identity find_by_indexed_path enclosing scan_names
  resolve_in_list ref cwd projects = named_or ref (scan_names ref projects none []) (
      found_or (find_by_identity projects ref) (
        found_or (find_by_indexed_path ref projects)
          (found_or (if bytes_beq cwd [] then none else enclosing cwd projects) not_found)))

  -- `lookupByPathOrIdentity` and `lookupInListByPathOrIdentity`, by the lookup of an identity
  unfoldable pub lookup_by_path_or_identity : (Bytes → Option Project) → Bytes → Option Project
  unfolding equivalent_path_forms
  lookup_by_path_or_identity by_identity arg =
      let by_path = by_forms by_identity (equivalent_path_forms arg) in
      elim (w.git_identity arg) [
        | none ↦ by_path
        | some identity ↦ elim (by_identity identity) [ none ↦ by_path | some p ↦ some p ]
      ]

  -- `ResolveInList`
  unfoldable pub resolve_in_fetched_list : Bytes → Bytes → List Project → Resolution
  unfolding resolve_in_list lookup_by_path_or_identity find_by_identity trim_space
  resolve_in_fetched_list ref cwd projects =
      let ref = trim_space ref in
      if bytes_beq ref []
      then not_found
      else found_or (lookup_by_path_or_identity (find_by_identity projects) ref)
          (resolve_in_list ref cwd projects)

-- the calls of the store
pub record Lookups : Type 0 where
  pub get_project_by_identity : Bytes → Option Project
  pub list_projects : Option (List Project)
  pub get_project : Bytes → Option Project

abbrev pub resolve_listed : World → Lookups → Bytes → Option (List Project) → Resolution
resolve_listed w db ref (some (p ∷ ps)) = resolve_in_list w ref [] (p ∷ ps)
resolve_listed w db ref (some []) = found_or (db.get_project ref) not_found
resolve_listed w db ref none = found_or (db.get_project ref) store_failed

unfoldable pub resolve : World → Lookups → Bytes → Resolution
unfolding resolve_in_list lookup_by_path_or_identity trim_space
resolve w db ref =
    let ref = trim_space ref in
    if bytes_beq ref []
    then not_found
    else found_or (lookup_by_path_or_identity w db.get_project_by_identity ref)
        (resolve_listed w db ref db.list_projects)
