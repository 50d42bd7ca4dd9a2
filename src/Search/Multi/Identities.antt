-- ===== src/Search/Multi/Identities.antt =====
-- The projects that are searched once.
use semidx.Prelude.{ℕ, suc, ◌≡◌, min, List, [], ◌∷◌, if◌then◌else◌, arith}
use semidx.Prelude.Eq.{contains}
use semidx.Prelude.Bytes.{Bytes, bytes_beq, bytes_beq_iff, bytes_eq}
use semidx.Search.Multi.{Project, unique_from, unique_by_identity}

-- how many of the projects have this identity
abbrev pub with_identity : Bytes → List Project → ℕ
with_identity i [] = 0
with_identity i (p ∷ ps) = let n = with_identity i ps in if bytes_beq p.identity i then suc n else n

with_identity-unique_from :
    (i : Bytes) (seen : List Bytes) (ps : List Project)
    → with_identity i (unique_from seen ps) ≡ (
        if bytes_beq i []
        then with_identity i ps
        else if contains seen i
        then 0
        else min 1 (with_identity i ps))
unfolding unique_from
with_identity-unique_from i seen [] = ground arith
with_identity-unique_from i seen (p ∷ ps) = ground (
  arith,
  with_identity-unique_from i seen ps,
  with_identity-unique_from i (p.identity ∷ seen) ps,
  bytes_beq_iff p.identity i,
  bytes_beq_iff p.identity [],
  bytes_beq_iff i [],
)

-- `UniqueByIdentity` keeps one project of each identity that there is, and every project without an
-- identity.
pub with_identity-unique_by_identity :
    (i : Bytes) (ps : List Project)
    → with_identity i (unique_by_identity ps)
      ≡ (if bytes_beq i [] then with_identity i ps else min 1 (with_identity i ps))
unfolding unique_by_identity
with_identity-unique_by_identity i ps = with_identity-unique_from i [] ps
