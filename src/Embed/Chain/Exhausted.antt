-- ===== src/Embed/Chain/Exhausted.antt =====
-- What an error of the chain says of the calls of its providers.
use semidx.Prelude.{
  ℕ, ◌≡◌, refl, sym, ◌∙◌, ap, Bool, true, false, not, ◌&&◌, ◌||◌, none, List, [], ◌∷◌, ◌++◌,
  if◌then◌else◌, Bool-cases, inl, inr, arith, subst,
}
use semidx.Prelude.Bytes.{Bytes}
use semidx.Embed.Errors.{
  Err, Failures, nil, cons, append_failure, no_failures, Res, ok, err, chain_error,
}
use semidx.Embed.Provider.{Embedder, Context}
use semidx.Embed.Chain.{
  ProviderInstance, ChainEmbedder, skip, loop, after_call, call, try_each, exhausted, no_model,
  remote_timeout,
}
use semidx.Embed.Chain.Privacy.{loop-skip, loop-call}

-- the names of the recorded failures
abbrev pub failure_names : Failures → List Bytes
failure_names nil = []
failure_names (cons name e fs) = name ∷ failure_names fs

failure_names-append_failure :
    (fs : Failures) (name : Bytes) (e : Err)
    → failure_names (append_failure fs name e) ≡ failure_names fs ++ (name ∷ [])
unfolding append_failure
failure_names-append_failure nil name e = refl
failure_names-append_failure (cons n x fs) name e =
    ap (λ t. n ∷ t) (failure_names-append_failure fs name e)

module _ {W V : Type 0} where
  -- the names of the providers that the chain may call, in order
  abbrev pub eligible : Bool → Bool → List (ProviderInstance W V) → List Bytes
  eligible privacy force_local [] = []
  eligible privacy force_local (p ∷ ps) =
      let rest = eligible privacy force_local ps in
      if skip privacy force_local p then rest else p.name ∷ rest

module _ {W V : Type 0} (privacy force_local : Bool) where
  eligible-skip :
      (p : ProviderInstance W V) (ps : List (ProviderInstance W V))
      → skip privacy force_local p ≡ true
      → eligible privacy force_local (p ∷ ps) ≡ eligible privacy force_local ps
  eligible-skip p ps h = rw h

  eligible-call :
      (p : ProviderInstance W V) (ps : List (ProviderInstance W V))
      → skip privacy force_local p ≡ false
      → eligible privacy force_local (p ∷ ps) ≡ p.name ∷ eligible privacy force_local ps
  eligible-call p ps h = rw h

-- the error for these failures
abbrev pub error_for : Bytes → Failures → Err
error_for op nil = no_model op
error_for op (cons name e fs) = chain_error op (cons name e fs)

error_for-exhausted : (op : Bytes) (fs : Failures) → error_for op fs ≡ exhausted op fs
unfolding no_failures
error_for-exhausted op nil = refl
error_for-exhausted op (cons name e fs) = refl

abbrev append_failures : Failures → Failures → Failures
append_failures nil gs = gs
append_failures (cons name e fs) gs = cons name e (append_failures fs gs)

append_failures-nil : (fs : Failures) → append_failures fs nil ≡ fs
append_failures-nil nil = refl
append_failures-nil (cons name e fs) = ap (cons name e) (append_failures-nil fs)

append_failures-append_failure :
    (fs gs : Failures) (name : Bytes) (e : Err)
    → append_failures (append_failure fs name e) gs ≡ append_failures fs (cons name e gs)
unfolding append_failure
append_failures-append_failure nil gs name e = refl
append_failures-append_failure (cons n x fs) gs name e =
    ap (cons n x) (append_failures-append_failure fs gs name e)

module _ {W V A : Type 0} (ctx : Context W) (local_timeout : ℕ) (op : Bytes)
    (fn : Embedder W V → W → Res A × W) where
  -- the providers were gone through from the first world to the last: those that the privacy
  -- restriction bars were passed over, and each of the others was called once, under its timeout and
  -- in the world that the one before left, and failed with the error of the list
  pub data Tried (privacy force_local : Bool)
      : List (ProviderInstance W V) → W → Failures → W → Type 0 where
    all_tried : (w : W) → Tried privacy force_local [] w nil w
    barred :
        (p : ProviderInstance W V) {ps : List (ProviderInstance W V)} {w v : W} {fs : Failures}
        → (privacy || force_local) ≡ true
        → p.local ≡ false
        → Tried privacy force_local ps w fs v
        → Tried privacy force_local (p ∷ ps) w fs v
    failed :
        (p : ProviderInstance W V) {ps : List (ProviderInstance W V)} {w u v : W} {fs : Failures}
        (e : Err)
        → ((privacy || force_local) && not p.local) ≡ false
        → fn p.embedder (ctx.with_timeout (if p.local then local_timeout else remote_timeout) w)
          ≡ (err e, u)
        → Tried privacy force_local ps (ctx.cancel u) fs v
        → Tried privacy force_local (p ∷ ps) w (cons p.name e fs) v

  -- the error `e` and the last world of a chain of which no provider worked
  abbrev pub Exhausted : Bool → ChainEmbedder W V → W → Err → W → Type 0
  Exhausted force_local ce w e v =
      (fs : Failures) × Tried ce.privacy force_local ce.providers w fs v
      × (e ≡ error_for op fs)
      × (failure_names fs ≡ eligible ce.privacy force_local ce.providers)

  Tried-names :
      (privacy force_local : Bool) {ps : List (ProviderInstance W V)} {w v : W} {fs : Failures}
      → Tried privacy force_local ps w fs v
      → failure_names fs ≡ eligible privacy force_local ps
  Tried-names privacy force_local (all_tried w) = refl
  Tried-names privacy force_local (barred p {ps = ps} on remote t) =
      Tried-names privacy force_local t
      ∙ sym (eligible-skip privacy force_local p ps (ground arith))
  Tried-names privacy force_local (failed p {ps = ps} e allowed called t) =
      ap (λ names. p.name ∷ names) (Tried-names privacy force_local t)
      ∙ sym (eligible-call privacy force_local p ps allowed)

  module _ (live : (w : W) → ctx.err w ≡ none) (privacy force_local : Bool) where
    -- the loop, from failures that are recorded already, ends with this outcome
    abbrev Ends : List (ProviderInstance W V) → Failures → W → Res A × W → Type 0
    Ends ps fs w (ok a, v) = Unit
    Ends ps fs w (err e, v) =
        (gs : Failures) × Tried privacy force_local ps w gs v
        × (e ≡ error_for op (append_failures fs gs))

    after_call_live :
        (name : Bytes) (fs : Failures) (next : Failures → W → Res A × W) (x : Err) (w : W)
        → after_call ctx local_timeout fn privacy force_local op name fs next (err x, w)
          ≡ next (append_failure fs name x) w
    unfolding after_call
    after_call_live name fs next x w = rw (live w, after_call)

    failed-Ends :
        (p : ProviderInstance W V) (ps : List (ProviderInstance W V)) (fs : Failures) (w u : W)
        (x : Err) (out : Res A × W)
        → skip privacy force_local p ≡ false
        → fn p.embedder (ctx.with_timeout (if p.local then local_timeout else remote_timeout) w)
          ≡ (err x, u)
        → Ends ps (append_failure fs p.name x) (ctx.cancel u) out
        → Ends (p ∷ ps) fs w out
    failed-Ends p ps fs w u x (ok a, v) allowed called ends = tt
    failed-Ends p ps fs w u x (err e, v) allowed called (gs, t, is) = (
      cons p.name x gs,
      failed p x allowed called t,
      is ∙ ap (error_for op) (append_failures-append_failure fs gs p.name x),
    )

    barred-Ends :
        (p : ProviderInstance W V) (ps : List (ProviderInstance W V)) (fs : Failures) (w : W)
        (out : Res A × W)
        → skip privacy force_local p ≡ true
        → Ends ps fs w out
        → Ends (p ∷ ps) fs w out
    barred-Ends p ps fs w (ok a, v) skipped ends = tt
    barred-Ends p ps fs w (err e, v) skipped (gs, t, is) =
        (gs, barred p (ground arith) (ground arith) t, is)

    loop-Ends :
        (ps : List (ProviderInstance W V)) (fs : Failures) (w : W)
        → Ends ps fs w (loop ctx local_timeout fn privacy force_local op ps fs w)
    unfolding loop call after_call
    loop-Ends [] fs w = (
      nil,
      all_tried w,
      sym (ap (error_for op) (append_failures-nil fs) ∙ error_for-exhausted op fs),
    )
    loop-Ends (p ∷ ps) fs w = elim (Bool-cases (skip privacy force_local p)) [
      | inl skipped ↦
          subst (Ends (p ∷ ps) fs w)
            (sym (loop-skip ctx local_timeout fn privacy force_local op p ps fs w skipped))
            (barred-Ends p ps fs w (loop ctx local_timeout fn privacy force_local op ps fs w)
              skipped (loop-Ends ps fs w))
      | inr allowed ↦
          subst (Ends (p ∷ ps) fs w)
            (sym (loop-call ctx local_timeout fn privacy force_local op p ps fs w allowed))
            (called-Ends allowed
              (fn p.embedder
                (ctx.with_timeout (if p.local then local_timeout else remote_timeout) w))
              refl (loop-Ends ps))
    ]
      where
        called-Ends :
            skip privacy force_local p ≡ false
            → (r : Res A × W)
            → fn p.embedder (ctx.with_timeout (if p.local then local_timeout else remote_timeout) w)
              ≡ r
            → ((gs : Failures) (v : W)
                → Ends ps gs v (loop ctx local_timeout fn privacy force_local op ps gs v))
            → Ends (p ∷ ps) fs w (
                after_call ctx local_timeout fn privacy force_local op p.name fs
                  (loop ctx local_timeout fn privacy force_local op ps)
                  (r.0, ctx.cancel r.1))
        called-Ends allowed (ok a, u) called rest = unfold after_call in tt
        called-Ends allowed (err x, u) called rest =
            rw
              (after_call_live p.name fs (loop ctx local_timeout fn privacy force_local op ps) x
                (ctx.cancel u))
              (failed-Ends p ps fs w u x
                (loop ctx local_timeout fn privacy force_local op ps (append_failure fs p.name x)
                  (ctx.cancel u))
                allowed called (rest (append_failure fs p.name x) (ctx.cancel u)))

  -- While the context stays live: when the chain fails, every provider that the privacy restriction
  -- allows was called once, in order, under its timeout and in the world that the one before left,
  -- and failed; no other was called, and the chain leaves the world of the last. The error is "no
  -- embedding model available" if there is no such provider, and otherwise a `ChainError` that has
  -- the error of each of these calls, in order, with the name of its provider.
  pub try_each_error :
      (live : (w : W) → ctx.err w ≡ none) (force_local : Bool) (ce : ChainEmbedder W V) (w : W)
      {e : Err}
      → (try_each ctx local_timeout force_local op fn ce w).0 ≡ err e
      → Exhausted force_local ce w e (try_each ctx local_timeout force_local op fn ce w).1
  unfolding try_each
  try_each_error live force_local ce w {e} h =
      let out = loop ctx local_timeout fn ce.privacy force_local op ce.providers nil w in
      let ends =
        subst (λ r. Ends live ce.privacy force_local ce.providers nil w (r, out.1)) h
          (loop-Ends live ce.privacy force_local ce.providers nil w) in
      (ends.0, ends.1, ends.2, Tried-names ce.privacy force_local ends.1)
