-- ===== src/Embed/Tests/Chains.antt =====
-- Chains and plans of concrete providers.
use semidx.Prelude.{ℕ, ◌≡◌, refl, true, false, List, [], ◌∷◌, arith, All}
use semidx.Prelude.Bytes.{Bytes, bytes_eq, codes}
use semidx.Prelude.Eq.{Distinct, contains}
use semidx.Prelude.Int.{pos}
use semidx.Embed.Errors.{nil, cons, no_failures, append_failure, chain_error, ok, err}
use semidx.Embed.Provider.{Embedder}
use semidx.Embed.Chain.{ProviderInstance, ChainEmbedder, try_each, list_models}
use semidx.Embed.Chain.Privacy.{Agree, operations_local}
use semidx.Embed.Chain.Exhausted.{Exhausted, try_each_error}
use semidx.Embed.Chain.Models.{offers, list_models_union}
use semidx.Embed.Config.{ChainConfig, new_chain_from_config}
use semidx.Embed.Config.Reach.{
  IsOllama, HasKey, reached, private_chain-IsOllama, pool_reaches_openai,
}
use semidx.Embed.Tests.{live_context, failing, no_route, working, provider, remote_provider}

abbrev local_only : List (ProviderInstance ℕ ℕ)
local_only = provider (codes "ollama") working ∷ []

abbrev remote_first : List (ProviderInstance ℕ ℕ)
remote_first = remote_provider (codes "groq") working ∷ local_only

abbrev single : Bytes
single = codes "EmbedSingle"

operations_local_example :
    Agree live_context 9 false
      (record { providers = remote_first; privacy = true })
      (record { providers = local_only; privacy = true })
operations_local_example =
    operations_local live_context 9 false true remote_first local_only refl refl

abbrev all_failing : ChainEmbedder ℕ ℕ
all_failing = record {
  providers =
      provider (codes "ollama") (failing no_route)
      ∷ remote_provider (codes "groq") (failing no_route)
      ∷ [];
  privacy = false;
}

failing_error :
    (try_each live_context 9 false single
      (λ (e : Embedder ℕ ℕ). e.embed_single (codes "m") (codes "text"))
      all_failing
      0).0
    ≡ err (chain_error single (cons (codes "ollama") no_route (cons (codes "groq") no_route nil)))
unfolding try_each no_failures append_failure
failing_error = refl

try_each_error_example :
    Exhausted live_context 9 single
      (λ (e : Embedder ℕ ℕ). e.embed_single (codes "m") (codes "text"))
      false
      all_failing
      0
      (chain_error single (cons (codes "ollama") no_route (cons (codes "groq") no_route nil)))
      (try_each live_context 9 false single
        (λ (e : Embedder ℕ ℕ). e.embed_single (codes "m") (codes "text"))
        all_failing
        0).1
try_each_error_example =
    try_each_error live_context 9 single (λ e. e.embed_single (codes "m") (codes "text"))
      (λ w. refl) false all_failing 0 failing_error

abbrev two_working : ChainEmbedder ℕ ℕ
two_working = record { providers = remote_first; privacy = false }

two_list : (list_models false two_working 0).0 ≡ ok (codes "bge-m3" ∷ codes "nomic" ∷ [])
unfolding list_models
two_list = refl

list_models_union_example :
    Distinct (codes "bge-m3" ∷ codes "nomic" ∷ [])
    × ((m : Bytes)
        → contains (codes "bge-m3" ∷ codes "nomic" ∷ []) m
          ≡ offers false false two_working.providers m 0)
list_models_union_example = list_models_union false two_working 0 two_list

-- keys for Groq and for a custom provider, and these Ollama URLs
abbrev config : List Bytes → ChainConfig
config urls = record {
  ollama_url = codes "http://one";
  ollama_urls = urls;
  provider = codes "openai";
  endpoint = [];
  api_key = codes "secret";
  gemini_api_key = [];
  gemini_base_url = [];
  groq_api_key = codes "groq-key";
  groq_base_url = codes "http://groq";
  open_router_api_key = [];
  open_router_base_url = [];
  ollama_cloud_api_key = [];
  ollama_cloud_base_url = [];
  privacy = true;
  circuit_threshold = pos 3;
  circuit_cooldown = pos 30;
}

private_chain-IsOllama_example :
    All IsOllama (reached false (new_chain_from_config (config (codes "http://one" ∷ []))))
private_chain-IsOllama_example =
    private_chain-IsOllama (config (codes "http://one" ∷ [])) false (omega arith) refl

pool_reaches_openai_example :
    HasKey
      (codes "secret")
      (reached true (new_chain_from_config (config (codes "http://one" ∷ codes "http://two" ∷ []))))
pool_reaches_openai_example =
    pool_reaches_openai (config (codes "http://one" ∷ codes "http://two" ∷ [])) true (omega arith)
      refl
