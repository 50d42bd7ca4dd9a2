-- ===== src/Search/Multi/Tests.antt =====
-- A search over an identity and a project by name, of which the second fails.
use semidx.Prelude.{
  ℕ, ◌+◌, ◌≡◌, refl, arith, false, Option, none, some, List, [], ◌∷◌, ltb, if◌then◌else◌,
}
use semidx.Prelude.Bytes.{codes, bytes_beq}
use semidx.Prelude.Int.{pos}
use semidx.Search.Fusion.{Scores, Response, MultiResponse}
use semidx.Search.Multi.{MultiScopeRequest, Request, Project, search_multi, unique_by_identity}
use semidx.Search.Multi.Totals.{IsCounted, search_multi-IsCounted}
use semidx.Search.Multi.Identities.{with_identity, with_identity-unique_by_identity}

abbrev scores : Scores ℕ
scores = record { gt = λ a b. ltb b a; add = λ a b. a + b; inverse = λ n. n }

abbrev one_hit : Response ℕ
one_hit = record {
  results =
      record {
        file_path = codes "a.go";
        score = 1;
        start_line = 1;
        end_line = 2;
        source = [];
        rest = [];
      }
      ∷ [];
  fallback = false;
  keyword = false;
  degraded = false;
  retry_after = 0;
  route = [];
}

abbrev search_one : Request → ℕ → Option (Response ℕ) × ℕ
search_one r w = (if bytes_beq r.identity [] then none else some one_hit, w + 1)

abbrev two_scopes : MultiScopeRequest
two_scopes = record {
  identities = codes "git" ∷ [];
  projects = codes "docs" ∷ [];
  all = false;
  query = codes "q";
  top_k = pos 3;
  graph = false;
  graph_max_depth = pos 0;
  keyword_only = false;
  max_per_file = pos 0;
  max_per_project = pos 0;
}

search_multi-IsCounted_example :
    (r : MultiResponse ℕ) × ((search_multi scores search_one (λ cmp rs. rs) two_scopes none 0).0
      ≡ some r)
    × IsCounted (some one_hit ∷ none ∷ []) r
    × (r.project_count ≡ 2)
search_multi-IsCounted_example =
    search_multi-IsCounted scores search_one (λ cmp rs. rs) two_scopes none 0 refl (omega arith)

abbrev three_projects : List Project
three_projects =
    record { name = codes "a"; identity = codes "git"; path = codes "/a" }
    ∷ record { name = codes "b"; identity = codes "git"; path = codes "/b" }
    ∷ record { name = codes "c"; identity = []; path = codes "/c" }
    ∷ []

with_identity-unique_by_identity_example :
    with_identity (codes "git") (unique_by_identity three_projects) ≡ 1
with_identity-unique_by_identity_example =
    with_identity-unique_by_identity (codes "git") three_projects
