-- ===== src/Rag/Context/Tests.antt =====
-- Two sources, and a budget for a part of them.
use semidx.Prelude.{◌≡◌, refl, false, List, [], ◌∷◌}
use semidx.Prelude.Bytes.{Bytes, codes}
use semidx.Prelude.Int.{pos}
use semidx.Rag.Runes.{runes, replacement}
use semidx.Rag.Context.{Source, assemble_context}
use semidx.Rag.Context.Budget.{IsContext, assemble_context-IsContext}

abbrev source : Bytes → Bytes → Source Unit
source file content = record {
  file = file;
  start_line = pos 1;
  end_line = pos 2;
  content = content;
  score = tt;
  keyword = false;
  project = [];
}

abbrev two_sources : List (Source Unit)
two_sources = source (codes "a.go") (codes "a := 1") ∷ source (codes "b.go") (codes "b := 2") ∷ []

assemble_context-IsContext_example :
    IsContext 80 two_sources (assemble_context two_sources (pos 20))
assemble_context-IsContext_example = assemble_context-IsContext two_sources 20

first_source_only :
    assemble_context two_sources (pos 20) ≡ codes "--- File: a.go (lines 1-2) ---\na := 1\n---\n\n"
unfolding assemble_context
first_source_only = refl

-- an a with a tilde, and the first byte of one
two_runes : runes (0xc3 ∷ 0xa3 ∷ 0xc3 ∷ []) ≡ (0xc3 ∷ 0xa3 ∷ []) ∷ replacement ∷ []
unfolding runes
two_runes = refl
