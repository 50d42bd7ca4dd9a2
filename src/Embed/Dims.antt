-- ===== src/Embed/Dims.antt =====
-- The dimensions that internal/embed/embed.go infers from the name of a model.
use semidx.Prelude.{ℕ, Bool, ◌||◌, List, [], ◌∷◌, if◌then◌else◌, false, ◌≡◌, refl}
use semidx.Prelude.Bytes.{Bytes, codes, has_infix, lower}

abbrev pub names_any : Bytes → List Bytes → Bool
names_any model [] = false
names_any model (part ∷ parts) = has_infix model part || names_any model parts

-- 0 for a model that is not known
unfoldable pub infer_dims : Bytes → ℕ
infer_dims name =
    let model = lower name in
    if names_any model (codes "nomic" ∷ [])
    then 768
    else if names_any model
        (codes "bge-m3" ∷ codes "bge-large" ∷ codes "mxbai" ∷ codes "qwen3" ∷ [])
    then 1024
    else if names_any model (codes "e5-large" ∷ codes "gte-large" ∷ codes "arctic-large" ∷ [])
    then 1024
    else if names_any model (codes "e5-base" ∷ codes "gte-base" ∷ [])
    then 768
    else if names_any model (codes "e5-small" ∷ codes "gte-small" ∷ codes "all-minilm" ∷ [])
    then 384
    else if names_any model (codes "gemini-embedding-2" ∷ codes "text-embedding-3-large" ∷ [])
    then 3072
    else if names_any model (
        codes "text-embedding-3-small"
        ∷ codes "text-embedding-ada-002"
        ∷ codes "gemini-embedding-001"
        ∷ [])
    then 1536
    else 0

known_model : infer_dims (codes "BGE-M3:latest") ≡ 1024
unfolding infer_dims
known_model = refl
