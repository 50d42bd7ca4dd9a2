-- ===== src/Codeintel/Tests.antt =====
-- A command that imports a package, which imports another.
use semidx.Prelude.{◌≡◌, refl, [], ◌∷◌, false, ◌↔◌, true}
use semidx.Prelude.Int.{pos}
use semidx.Prelude.Eq.{contains}
use semidx.Prelude.Bytes.{Bytes, codes, bytes_eq, bytes_beq}
use semidx.Prelude.Map
use semidx.Codeintel.Dependencies.{
  ImportGraph, dependency_dirs_for_file, find_direct_callers_for_dirs, collect_transitive_callers,
}
use semidx.Codeintel.Impact.{impact}
use semidx.Codeintel.Impact.Reached.{imports}
use semidx.Codeintel.Impact.Affected.{IsAffected, impact-IsAffected}
use semidx.Codeintel.Transitive.{collect_transitive_callers_iff}

abbrev chain : ImportGraph
chain =
    (codes "cmd/main.go", codes "app/" ∷ codes "lib/" ∷ [])
    ∷ (codes "app/b.go", codes "lib" ∷ [])
    ∷ (codes "app/a.go", codes "./lib/" ∷ [])
    ∷ (codes "tool/t.go", codes "cmd" ∷ [])
    ∷ []

impact-IsAffected_example :
    IsAffected chain
      (codes "lib/x.go")
      (dependency_dirs_for_file (codes "lib/x.go"))
      5
      (impact chain (codes "lib/x.go") (pos 0))
impact-IsAffected_example = impact-IsAffected chain (codes "lib/x.go") (pos 0)

sorted_by_depth :
    impact chain (codes "lib/x.go") (pos 0)
    ≡ record { file = codes "app/a.go"; depth = 1 }
      ∷ record { file = codes "app/b.go"; depth = 1 }
      ∷ record { file = codes "cmd/main.go"; depth = 1 }
      ∷ record { file = codes "tool/t.go"; depth = 2 }
      ∷ []
unfolding impact Map.lookup Map.insert find_direct_callers_for_dirs
sorted_by_depth = refl

collect_transitive_callers_iff_example :
    (contains
        (collect_transitive_callers chain (codes "app/a.go" ∷ []) (codes "lib/x.go"))
        (codes "cmd/main.go")
      ≡ true)
    ↔ ((contains (codes "app/a.go" ∷ []) (codes "cmd/main.go") ≡ false)
        × (bytes_beq (codes "cmd/main.go") (codes "lib/x.go") ≡ false)
        × ((g : Bytes) × (d : Bytes) × (contains (codes "app/a.go" ∷ []) g ≡ true)
            × (contains (dependency_dirs_for_file g) d ≡ true)
            × (imports chain (codes "cmd/main.go") d ≡ true)))
collect_transitive_callers_iff_example =
    collect_transitive_callers_iff chain (codes "app/a.go" ∷ []) (codes "lib/x.go")
      (codes "cmd/main.go")
