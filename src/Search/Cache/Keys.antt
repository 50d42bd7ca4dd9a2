-- ===== src/Search/Cache/Keys.antt =====
-- The scan of a cache key for a project's id.
use semidx.Prelude.{◌≡◌, ◌↔◌, refl, ◌++◌, [], ◌∷◌, arith, true}
use semidx.Prelude.Bytes.{Bytes, has_infix, has_infix-append, has_infix-split}
use semidx.Prelude.Int.{ℤ}
use semidx.Search.Cache.{contains_target, contains_project_id, project_target}

contains_target-has_infix :
    (key rest : Bytes) → contains_target key (b'|' ∷ rest) ≡ has_infix key (b'|' ∷ rest)
unfolding contains_target
contains_target-has_infix [] rest = refl
contains_target-has_infix (c ∷ s) rest = ground (arith, contains_target-has_infix s rest)

contains_project_id-has_infix :
    (key : Bytes) (id : ℤ) → contains_project_id key id ≡ has_infix key (project_target id)
unfolding contains_project_id
contains_project_id-has_infix key id = contains_target-has_infix key _

-- The scan finds a project's id in a key exactly when `|id|`, in decimal between pipes, stands
-- somewhere in the key.
pub contains_project_id_iff :
    (key : Bytes) (id : ℤ)
    → (contains_project_id key id ≡ true)
      ↔ ((before : Bytes) × (after : Bytes) × (key ≡ before ++ (project_target id ++ after)))
contains_project_id_iff key id = (
  λ h. has_infix-split key (project_target id) (rw contains_project_id-has_infix at h),
  λ (before, after, e).
      rw (contains_project_id-has_infix, e) (has_infix-append before (project_target id) after),
)
