-- ===== src/Embed/Config/Reach.antt =====
-- Which providers a plan may send text to.
use semidx.Prelude.{
  ◌≤◌, ◌<◌, ◌≡◌, ◌⊎◌, inl, inr, refl, ap, ◌∙◌, Bool, true, false, not, ◌&&◌, ◌||◌, List, [], ◌∷◌,
  ◌++◌, length, leb, arith, if◌then◌else◌, All, Bool-cases,
}
use semidx.Prelude.Bytes.{Bytes, codes, bytes_beq, bytes_beq_iff}
use semidx.Embed.Config.{
  ChainConfig, Client, ollama, openai, Plan, Providers, Plans, client, with_circuit, chain, pool,
  nil, cons, end, entry, wrapped, with_key, cloud_providers, custom_endpoint, custom_client,
  with_custom, cloud_entry, custom_entry, url_entries, new_chain_from_config,
}

-- The clients that a call may reach: a chain passes over its remote providers if its privacy is set
-- or the context forces local; a pool calls all of its entries.
unfoldable mutual
  pub reached : Bool → Plan → List Client
  reached force_local (client c) = c ∷ []
  reached force_local (with_circuit name inner threshold cooldown) = reached force_local inner
  reached force_local (chain ps privacy) = reached_providers force_local ps privacy
  reached force_local (pool es) = reached_entries force_local es

  pub reached_providers : Bool → Providers → Bool → List Client
  reached_providers force_local nil privacy = []
  reached_providers force_local (cons name plan local ps) privacy =
      if (privacy || force_local) && not local
      then reached_providers force_local ps privacy
      else reached force_local plan ++ reached_providers force_local ps privacy

  pub reached_entries : Bool → Plans → List Client
  reached_entries force_local end = []
  reached_entries force_local (entry plan es) =
      reached force_local plan ++ reached_entries force_local es

abbrev pub IsOllama : Client → Type 0
IsOllama (ollama url) = Unit
IsOllama (openai url key) = ⊥

-- some client of the list is an OpenAI client with this key
abbrev pub HasKey : Bytes → List Client → Type 0
HasKey key [] = ⊥
HasKey key (ollama url ∷ cs) = HasKey key cs
HasKey key (openai url k ∷ cs) = (k ≡ key) ⊎ HasKey key cs

module _ (cfg : ChainConfig) where
  with_key_hidden :
      (force_local privacy : Bool) (name url key : Bytes) (rest : Providers)
      → (privacy || force_local) ≡ true
      → reached_providers force_local (with_key cfg name url key rest) privacy
        ≡ reached_providers force_local rest privacy
  unfolding reached_providers with_key wrapped
  with_key_hidden force_local privacy name url key rest on = ground arith

  cloud_providers_hidden :
      (force_local privacy : Bool) (rest : Providers)
      → (privacy || force_local) ≡ true
      → reached_providers force_local (cloud_providers cfg rest) privacy
        ≡ reached_providers force_local rest privacy
  unfolding cloud_providers
  cloud_providers_hidden force_local privacy rest on =
      with_key_hidden force_local privacy _ _ _ _ on
      ∙ with_key_hidden force_local privacy _ _ _ _ on
      ∙ with_key_hidden force_local privacy _ _ _ _ on
      ∙ with_key_hidden force_local privacy _ _ _ _ on

  custom_ollama :
      (url : Bytes)
      → bytes_beq cfg.provider (codes "ollama") ≡ true
      → custom_client cfg url ≡ ollama (custom_endpoint cfg url)
  unfolding custom_client
  custom_ollama url h =
      let same : cfg.provider ≡ codes "ollama" = (bytes_beq_iff _ _).0 h in
      let differs : bytes_beq cfg.provider (codes "openai") ≡ false =
        ap (λ p. bytes_beq p (codes "openai")) same in
      rw differs

  with_custom-IsOllama :
      (force_local : Bool) (rest : Providers)
      → (cfg.privacy || force_local) ≡ true
      → All IsOllama (reached_providers force_local rest cfg.privacy)
      → All IsOllama (reached_providers force_local (with_custom cfg rest) cfg.privacy)
  unfolding with_custom
  with_custom-IsOllama force_local rest on h = elim (Bool-cases (bytes_beq cfg.provider [])) [
    | inl absent ↦ rw absent h
    | inr given ↦ elim (Bool-cases (bytes_beq cfg.provider (codes "ollama"))) [
      | inl local ↦
          rw (given, local, custom_ollama cfg.ollama_url local)
            (unfold reached wrapped in rw on (tt, h))
      | inr remote ↦ rw (given, remote) (unfold reached in rw on h)
    ]
  ]

  single_chain-IsOllama :
      (force_local : Bool)
      → (cfg.privacy || force_local) ≡ true
      → All IsOllama (
          reached_providers force_local
            (with_custom cfg (
              cloud_providers cfg (
                cons
                  (codes "ollama")
                  (wrapped cfg (codes "ollama") (client (ollama cfg.ollama_url)))
                  true
                  nil)))
            cfg.privacy)
  single_chain-IsOllama force_local on = with_custom-IsOllama force_local _ on (
      rw (cloud_providers_hidden force_local cfg.privacy _ on)
        (unfold reached wrapped in rw on (tt, tt)))

  -- With fewer than two Ollama URLs and with privacy set, or in a context that forces local, every
  -- provider that may be called is an Ollama client: no text goes to a provider with an API key.
  pub private_chain-IsOllama :
      (force_local : Bool)
      → length cfg.ollama_urls < 2
      → (cfg.privacy || force_local) ≡ true
      → All IsOllama (reached force_local (new_chain_from_config cfg))
  private_chain-IsOllama force_local few on =
      let single : leb 2 (length cfg.ollama_urls) ≡ false = ground arith in
      unfold new_chain_from_config in
      rw single (unfold reached in single_chain-IsOllama force_local on)

  HasKey-append_right : (key : Bytes) (cs ds : List Client) → HasKey key ds → HasKey key (cs ++ ds)
  HasKey-append_right key [] ds h = h
  HasKey-append_right key (ollama url ∷ cs) ds h = HasKey-append_right key cs ds h
  HasKey-append_right key (openai url k ∷ cs) ds h = inr (HasKey-append_right key cs ds h)

  HasKey-url_entries :
      (key : Bytes) (force_local : Bool) (urls : List Bytes) (rest : Plans)
      → HasKey key (reached_entries force_local rest)
      → HasKey key (reached_entries force_local (url_entries cfg urls rest))
  unfolding url_entries reached_entries wrapped
  HasKey-url_entries key force_local [] rest h = h
  HasKey-url_entries key force_local (url ∷ urls) rest h =
      HasKey-url_entries key force_local urls rest h

  HasKey-cloud_entry :
      (key : Bytes) (force_local : Bool) (ps : Providers) (rest : Plans)
      → HasKey key (reached_entries force_local rest)
      → HasKey key (reached_entries force_local (cloud_entry cfg ps rest))
  unfolding cloud_entry reached_entries
  HasKey-cloud_entry key force_local nil rest h = h
  HasKey-cloud_entry key force_local (cons name plan local ps) rest h =
      HasKey-append_right key
        (reached force_local
          (wrapped cfg (codes "cloud") (chain (cons name plan local ps) cfg.privacy)))
        (reached_entries force_local rest) h

  HasKey-custom_entry :
      (force_local : Bool)
      → cfg.provider ≡ codes "openai"
      → HasKey cfg.api_key (reached_entries force_local (custom_entry cfg))
  unfolding custom_entry custom_client reached_entries wrapped
  HasKey-custom_entry force_local custom =
      let given : bytes_beq cfg.provider [] ≡ false = ap (λ p. bytes_beq p []) custom in
      let is_openai : bytes_beq cfg.provider (codes "openai") ≡ true =
        ap (λ p. bytes_beq p (codes "openai")) custom in
      rw (given, is_openai) (inl refl)

  -- With two Ollama URLs or more, a custom provider "openai" is a pool entry that calls may reach
  -- with its API key, whatever the privacy setting and the context say.
  pub pool_reaches_openai :
      (force_local : Bool)
      → 2 ≤ length cfg.ollama_urls
      → cfg.provider ≡ codes "openai"
      → HasKey cfg.api_key (reached force_local (new_chain_from_config cfg))
  pool_reaches_openai force_local many custom =
      let pooled : leb 2 (length cfg.ollama_urls) ≡ true = ground arith in
      unfold new_chain_from_config in
      rw pooled (
        unfold reached in
        HasKey-url_entries cfg.api_key force_local cfg.ollama_urls _ (
          HasKey-cloud_entry cfg.api_key force_local (cloud_providers cfg nil) _
            (HasKey-custom_entry force_local custom)))
