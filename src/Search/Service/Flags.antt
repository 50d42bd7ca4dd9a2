-- ===== src/Search/Service/Flags.antt =====
-- The kinds of responses, with their flags and their routes (internal/search/service.go).
use semidx.Prelude.{ℕ, ◌≡◌, Bool, true, false, not, ◌&&◌, ◌||◌, none, some, []}
use semidx.Prelude.Bytes.{Bytes, codes}
use semidx.Embed.Errors.{Err, Res, ok, err, as_retryable, summarize_failure}
use semidx.Embed.Provider.{Embedder}
use semidx.Search.Routing.{classify_query, routes_to_keyword}
use semidx.Search.Service.{SearchRequest, SearchResponse, Backend}
use semidx.Search.Service.Answer.{Ranking}

-- all of a response but its project, its model and its results
pub record Flags : Type 0 where
  pub route : Bytes
  pub fallback : Bool
  pub keyword : Bool
  pub degraded : Bool
  pub retry_after : ℕ
  pub fallback_reason : Bytes

abbrev pub flags_of : {S : Type 0} → SearchResponse S → Flags
flags_of r = record {
  route = r.route;
  fallback = r.fallback;
  keyword = r.keyword;
  degraded = r.degraded;
  retry_after = r.retry_after;
  fallback_reason = r.fallback_reason;
}

-- how a response came about
pub data Kind : Type 0 where
  by_keyword : Kind
  by_vector : Kind
  by_both : Kind
  by_vector_alone : Kind
  fell_back : Err → Kind

abbrev pub calm : Bytes → Bool → Flags
calm route keyword = record {
  route = route;
  fallback = false;
  keyword = keyword;
  degraded = false;
  retry_after = 0;
  fallback_reason = [];
}

-- a fallback for an error, with the wait of an open circuit if there is one
abbrev pub fallen : Bytes → Err → Flags
fallen route e = record {
  route = route;
  fallback = true;
  keyword = true;
  degraded = elim (as_retryable e) [ none ↦ false | some after ↦ true ];
  retry_after = elim (as_retryable e) [ none ↦ 0 | some after ↦ after ];
  fallback_reason = summarize_failure (some e);
}

abbrev pub flags_for : Kind → Flags
flags_for by_keyword = calm (codes "keyword") true
flags_for by_vector = calm (codes "vector") false
flags_for by_both = calm (codes "hybrid") false
flags_for by_vector_alone = calm (codes "vector") false
flags_for (fell_back e) = fallen (codes "fallback") e

-- the same before the route is filled in
abbrev pub draft_for : Kind → Flags
draft_for by_keyword = calm [] true
draft_for by_vector = calm [] false
draft_for by_both = calm (codes "hybrid") false
draft_for by_vector_alone = calm (codes "vector") false
draft_for (fell_back e) = fallen [] e

abbrev pub asks_keyword : SearchRequest → Bool
asks_keyword req =
    req.keyword_only || (not req.vector_only && routes_to_keyword (classify_query req.query))

abbrev pub asks_vector : SearchRequest → Bool
asks_vector req = not req.keyword_only && req.vector_only

abbrev pub asks_both : SearchRequest → Bool
asks_both req =
    not req.keyword_only
    && not req.vector_only
    && not (routes_to_keyword (classify_query req.query))

module _ {W V S : Type 0} (b : Backend W V S) (ranking : Ranking S) (emb : Embedder W V) where
  -- which requests get which responses; a fallback has the error of the provider
  abbrev pub Fits : SearchRequest → Kind → Type 0
  Fits req by_keyword = asks_keyword req ≡ true
  Fits req by_vector = asks_vector req ≡ true
  Fits req by_both = asks_both req ≡ true
  Fits req by_vector_alone = asks_both req ≡ true
  Fits req (fell_back e) =
      (asks_both req ≡ true)
      × ((model : Bytes) × (w : W) × ((emb.embed_single model req.query w).0 ≡ err e))

  abbrev pub IsDraft : SearchRequest → Res (SearchResponse S) → Type 0
  IsDraft req (ok r) = (k : Kind) × Fits req k × (flags_of r ≡ draft_for k)
  IsDraft req (err e) = Unit

  -- The response to a request: its flags and its route are those of one of the kinds that fit it.
  abbrev pub IsCoherent : SearchRequest → Res (SearchResponse S) → Type 0
  IsCoherent req (ok r) = (k : Kind) × Fits req k × (flags_of r ≡ flags_for k)
  IsCoherent req (err e) = Unit
