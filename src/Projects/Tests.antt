-- ===== src/Projects/Tests.antt =====
-- Three projects on a file system without links, one inside another.
use semidx.Prelude.{◌≡◌, refl, none, some, List, [], ◌∷◌}
use semidx.Prelude.Bytes.{codes, bytes_beq, lower}
use semidx.Projects.{
  World, Project, found, ambiguous, resolve_in_list, resolve_in_fetched_list, canonical_path,
  enclosing,
}
use semidx.Projects.Closest.{IsEnclosing, enclosing-IsEnclosing}
use semidx.Projects.Resolved.{IsResolved, resolve_in_list-IsResolved}

abbrev plain : World
plain = record {
  abs = λ p. some p;
  eval_symlinks = λ p. none;
  git_identity = λ p. none;
  equal_fold = λ a b. bytes_beq (lower a) (lower b);
}

abbrev three : List Project
three =
    record { name = codes "all"; identity = codes "id1"; path = codes "/src" }
    ∷ record { name = codes "Tool"; identity = codes "id2"; path = codes "/src/tool" }
    ∷ record { name = codes "tool"; identity = []; path = codes "/old/tool" }
    ∷ []

enclosing-IsEnclosing_example :
    IsEnclosing plain three
      (canonical_path plain (codes "/src/tool/cmd"))
      (enclosing plain (codes "/src/tool/cmd") three)
enclosing-IsEnclosing_example = enclosing-IsEnclosing plain (codes "/src/tool/cmd") three

resolve_in_list-IsResolved_example :
    IsResolved plain (codes "TOOL") [] three (resolve_in_list plain (codes "TOOL") [] three)
resolve_in_list-IsResolved_example = resolve_in_list-IsResolved plain (codes "TOOL") [] three

two_tools :
    resolve_in_fetched_list plain (codes " TOOL ") [] three
    ≡ ambiguous (codes "TOOL") (codes "id2" ∷ codes "/old/tool" ∷ [])
unfolding resolve_in_fetched_list
two_tools = refl

inner_project :
    resolve_in_fetched_list plain (codes "none") (codes "/src/tool/cmd") three
    ≡ found (record { name = codes "Tool"; identity = codes "id2"; path = codes "/src/tool" })
unfolding resolve_in_fetched_list
inner_project = refl
