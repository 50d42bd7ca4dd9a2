-- ===== src/Embed/Chain/Models.antt =====
-- The union of the model lists.
use semidx.Prelude.{
  ◌≡◌, Bool, false, ◌||◌, List, [], ◌∷◌, ◌++◌, if◌then◌else◌, Bool-cases, inl, inr, arith, subst,
}
use semidx.Prelude.Eq.{contains, Distinct, contains-append, Distinct-concat}
use semidx.Prelude.Bytes.{Bytes, bytes_eq, bytes_beq_iff}
use semidx.Embed.Errors.{Res, ok, err}
use semidx.Embed.Chain.{
  ProviderInstance, ChainEmbedder, skip, add_models, add_listed, collect_models, models_or_error,
  list_models,
}

pub contains-add_models :
    (models list : List Bytes) (m : Bytes)
    → contains (add_models models list) m ≡ (contains models m || contains list m)
unfolding add_models
contains-add_models models [] m = ground arith
contains-add_models models (x ∷ list) m = ground (
  arith,
  contains-add_models (if contains models x then models else models ++ (x ∷ [])) list m,
  contains-append models (x ∷ []) m,
  bytes_beq_iff x m,
)

pub add_models-Distinct :
    (models list : List Bytes) → Distinct models → Distinct (add_models models list)
unfolding add_models
add_models-Distinct models [] d = d
add_models-Distinct models (x ∷ list) d = elim (Bool-cases (contains models x)) [
  | inl old ↦ rw old (add_models-Distinct models list d)
  | inr new ↦
      rw new (add_models-Distinct (models ++ (x ∷ [])) list (Distinct-concat models x d new))
]

-- what a provider lists, or nothing if it fails
abbrev pub listed : Res (List Bytes) → List Bytes
listed (ok list) = list
listed (err e) = []

contains-add_listed :
    (models : List Bytes) (r : Res (List Bytes)) (m : Bytes)
    → contains (add_listed models r) m ≡ (contains models m || contains (listed r) m)
unfolding add_listed
contains-add_listed models (ok list) m = contains-add_models models list m
contains-add_listed models (err e) m = ground arith

add_listed-Distinct :
    (models : List Bytes) (r : Res (List Bytes)) → Distinct models → Distinct (add_listed models r)
unfolding add_listed
add_listed-Distinct models (ok list) d = add_models-Distinct models list d
add_listed-Distinct models (err e) d = d

module _ {W V : Type 0} (privacy force_local : Bool) where
  -- some provider that the chain may call lists `m`, each asked in the world that those before it
  -- leave
  abbrev pub offers : List (ProviderInstance W V) → Bytes → W → Bool
  offers [] m w = false
  offers (p ∷ ps) m w =
      let later = offers ps m (p.embedder.list_models w).1 in
      let skipped = offers ps m w in
      if skip privacy force_local p
      then skipped
      else contains (listed (p.embedder.list_models w).0) m || later

  collected :
      (ps : List (ProviderInstance W V)) (models : List Bytes) (m : Bytes) (w : W)
      → Distinct models
      → Distinct (collect_models privacy force_local ps models w).0
        × (contains (collect_models privacy force_local ps models w).0 m
            ≡ (contains models m || offers ps m w))
  unfolding collect_models
  collected [] models m w d = (d, ground arith)
  collected (p ∷ ps) models m w d = elim (Bool-cases (skip privacy force_local p)) [
    | inl skipped ↦ rw (skipped, collect_models) (collected ps models m w d)
    | inr called ↦
        let r = p.embedder.list_models w in
        let (d', h) =
          collected ps (add_listed models r.0) m r.1 (add_listed-Distinct models r.0 d) in
        rw (called, collect_models) (d', ground (arith, h, contains-add_listed models r.0 m))
  ]

models_of_ok : (op : Bytes) (l models : List Bytes) → models_or_error op l ≡ ok models → l ≡ models
unfolding models_or_error
models_of_ok op [] models h = cc
models_of_ok op (m ∷ l) models h = cc

-- `ListModels` returns each model once, and exactly the models that some provider allowed by the
-- privacy restriction lists; a provider that fails is passed over.
pub list_models_union :
    {W V : Type 0} (force_local : Bool) (ce : ChainEmbedder W V) (w : W) {models : List Bytes}
    → (list_models force_local ce w).0 ≡ ok models
    → Distinct models
      × ((m : Bytes) → contains models m ≡ offers ce.privacy force_local ce.providers m w)
unfolding list_models
list_models_union force_local ce w {models} h =
    let l = (collect_models ce.privacy force_local ce.providers [] w).0 in
    let same : l ≡ models = models_of_ok _ l models h in
    (
      subst Distinct same (collected ce.privacy force_local ce.providers [] [] w tt).0,
      λ m.
          subst (λ ms. contains ms m ≡ offers ce.privacy force_local ce.providers m w) same
            (collected ce.privacy force_local ce.providers [] m w tt).1,
    )
