-- ===== src/Graph/Index/Tests.antt =====
-- The edges of an index of internal/graph/graph.go with two files, of which one imports a package.
use semidx.Prelude.{◌≡◌, refl, true, false, [], ◌∷◌}
use semidx.Prelude.Bytes.{codes}
use semidx.Prelude.Map
use semidx.Graph.Index.{
  Index, normalize, package_dir, build, neighbors_directed, neighbors_undirected, edge_to,
}

abbrev two_files : Index
two_files = build ((codes "a.go", codes "lib" ∷ []) ∷ []) (codes "./lib/b.go" ∷ [])

normalize_slash : normalize (codes " ./lib/x/../ ") ≡ codes "lib/"
unfolding normalize
normalize_slash = refl

package_of_file : package_dir (codes "lib/b.go") ≡ codes "lib/"
unfolding package_dir
package_of_file = refl

package_holds_file :
    neighbors_directed two_files (codes "lib/")
    ≡ edge_to (codes "lib/") (codes "contains") false (codes "lib/b.go") ∷ []
unfolding neighbors_directed build Map.lookup Map.insert
package_holds_file = refl

package_neighbors :
    neighbors_undirected two_files (codes "lib/")
    ≡ edge_to (codes "lib/") (codes "contains") false (codes "lib/b.go")
      ∷ edge_to (codes "lib/") (codes "imports") true (codes "a.go")
      ∷ []
unfolding neighbors_undirected build Map.lookup Map.insert
package_neighbors = refl
