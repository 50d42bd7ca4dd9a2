-- ===== src/Embed/Config.antt =====
-- How internal/embed/chain.go builds the embedder from the configuration. A plan is the tree of
-- embedders that the constructors build; a client stands for the HTTP client of a provider.
pub mod Reach
use semidx.Prelude.{
  ℕ, Bool, true, false, Option, none, some, List, [], ◌∷◌, ◌++◌, length, leb, if◌then◌else◌,
}
use semidx.Prelude.Bytes.{Bytes, codes, bytes_beq}
use semidx.Prelude.Int.{ℤ}

pub record ChainConfig : Type 0 where
  pub ollama_url : Bytes
  pub ollama_urls : List Bytes
  pub provider : Bytes
  pub endpoint : Bytes
  pub api_key : Bytes
  pub gemini_api_key : Bytes
  pub gemini_base_url : Bytes
  pub groq_api_key : Bytes
  pub groq_base_url : Bytes
  pub open_router_api_key : Bytes
  pub open_router_base_url : Bytes
  pub ollama_cloud_api_key : Bytes
  pub ollama_cloud_base_url : Bytes
  pub privacy : Bool
  pub circuit_threshold : ℤ
  pub circuit_cooldown : ℤ

-- `NewOllamaClient(url)` and `NewOpenAIClient(url, key)`
pub data Client : Type 0 where
  ollama : Bytes → Client
  openai : Bytes → Bytes → Client

-- `with_circuit` is `wrapWithCircuit`, `chain` is `NewChainEmbedder`, `pool` is
-- `NewParallelEmbedder`; a provider has its name, its embedder and its `Local` mark.
mutual
  pub data Plan : Type 0 where
    client : Client → Plan
    with_circuit : Bytes → Plan → ℤ → ℤ → Plan
    chain : Providers → Bool → Plan
    pool : Plans → Plan

  pub data Providers : Type 0 where
    nil : Providers
    cons : Bytes → Plan → Bool → Providers → Providers

  pub data Plans : Type 0 where
    end : Plans
    entry : Plan → Plans → Plans

module _ (cfg : ChainConfig) where
  pub wrapped : Bytes → Plan → Plan
  wrapped name inner = with_circuit name inner cfg.circuit_threshold cfg.circuit_cooldown

  -- `if key != "" { providers = append(providers, …) }` in front of those that follow
  pub with_key : Bytes → Bytes → Bytes → Providers → Providers
  with_key name url key rest =
      if bytes_beq key []
      then rest
      else cons name (wrapped name (client (openai url key))) false rest

  -- the cloud providers with a key, in order, and then `rest`
  pub cloud_providers : Providers → Providers
  cloud_providers rest = with_key (codes "gemini") cfg.gemini_base_url cfg.gemini_api_key (
      with_key (codes "groq") cfg.groq_base_url cfg.groq_api_key (
        with_key (codes "openrouter") cfg.open_router_base_url cfg.open_router_api_key (
          with_key (codes "ollama-cloud") cfg.ollama_cloud_base_url cfg.ollama_cloud_api_key rest)))

  -- the endpoint of the custom provider; `fallback` is the URL of a custom "ollama"
  pub custom_endpoint : Bytes → Bytes
  custom_endpoint fallback =
      if bytes_beq cfg.endpoint []
      then (if bytes_beq cfg.provider (codes "ollama")
          then fallback
          else codes "https://api.openai.com/v1")
      else cfg.endpoint

  pub custom_client : Bytes → Client
  custom_client fallback =
      if bytes_beq cfg.provider (codes "openai")
      then openai (custom_endpoint fallback) cfg.api_key
      else ollama (custom_endpoint fallback)

  -- `providers` behind the custom override, if one is configured
  pub with_custom : Providers → Providers
  with_custom rest =
      if bytes_beq cfg.provider []
      then rest
      else cons (codes "custom") (wrapped (codes "custom") (client (custom_client cfg.ollama_url)))
          (bytes_beq cfg.provider (codes "ollama")) rest

  unfoldable pub single_chain : Plan
  unfolding with_custom cloud_providers with_key wrapped custom_client custom_endpoint
  single_chain =
      chain
        (with_custom (
          cloud_providers (
            cons (codes "ollama") (wrapped (codes "ollama") (client (ollama cfg.ollama_url))) true
              nil)))
        cfg.privacy

  -- `buildCloudChain`
  pub cloud_entry : Providers → Plans → Plans
  cloud_entry nil rest = rest
  cloud_entry (cons name plan local ps) rest =
      entry (wrapped (codes "cloud") (chain (cons name plan local ps) cfg.privacy)) rest

  -- `OllamaURLs[0]`; the pool is built with two URLs or more
  pub first_url : List Bytes → Bytes
  first_url [] = []
  first_url (url ∷ urls) = url

  -- `customPoolEntry`
  pub custom_entry : Plans
  custom_entry =
      if bytes_beq cfg.provider []
      then end
      else entry (wrapped (codes "custom") (client (custom_client (first_url cfg.ollama_urls)))) end

  pub url_entries : List Bytes → Plans → Plans
  url_entries [] rest = rest
  url_entries (url ∷ urls) rest = entry (wrapped url (client (ollama url))) (url_entries urls rest)

  unfoldable pub build_pool : Plan
  unfolding url_entries cloud_entry cloud_providers with_key custom_entry first_url wrapped
  build_pool = pool (url_entries cfg.ollama_urls (cloud_entry (cloud_providers nil) custom_entry))

  unfoldable pub new_chain_from_config : Plan
  unfolding build_pool single_chain
  new_chain_from_config = if leb 2 (length cfg.ollama_urls) then build_pool else single_chain
