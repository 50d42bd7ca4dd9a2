-- ===== src/Lib.antt =====
-- semidx indexes the files of projects for semantic search: files are cut into chunks, the chunks
-- are embedded as vectors by one of several providers, and a search embeds the query and ranks the
-- chunks. This library models the parts of it that decide, as functions over explicit state.
--
-- Parts and files:
--   Prelude           bytes, association lists, integers, decimal numbers, the lemmas that the
--                     parts share
--   Chunker           internal/chunker/chunker.go. Chunker/Prose.antt has `chunkText`, `proseCutEnd`,
--                     `proseNextStart` and `lineOf`; Chunker/Runes.antt has `splitRunes`;
--                     Chunker/Code.antt has `chunkCode` and the `codeAccumulator`;
--                     Chunker/Space.antt has what they use of Go's `strings` and `utf8`, written
--                     out on bytes
--   Chat/History      internal/chat/history.go: the history of a conversation and its trim
--   Codeintel         internal/codeintel: Codeintel/Dependencies.antt has the directories of a file and
--                     its callers (callers.go), Codeintel/Impact.antt the affected files (impact.go)
--   Embed/Errors      the error types of internal/embed/embed.go and circuit.go, their texts,
--                     `isTransient`, `failureClass` and `SummarizeFailure`
--   Embed/Dims        `InferDims` of embed.go
--   Embed/Provider    the interface `Embedder`, and the clock, the context and the timers
--   Embed/Circuit     the `circuitBreaker` of internal/embed/circuit.go
--   Embed/Retry       `waitOrCancel` and `retryTransient` of circuit.go
--   Embed/Guard       the `circuitEmbedder` of circuit.go: a provider behind a breaker
--   Embed/Chain       the `ChainEmbedder` of embed.go: providers in order, with the privacy
--                     restriction
--   Embed/Parallel    the `ParallelEmbedder` of internal/embed/parallel.go: a pool in round robin
--   Embed/Config      internal/embed/chain.go: the tree of embedders for a configuration
--   Graph/Index       internal/graph/graph.go: `Normalize` and `PackageDir`, the `Index` that `Build`
--                     makes, and the edges at a node
--   Graph/Walk        `ShortestPath` of graph.go, for any graph; `graph_of` of Graph/Index gives the
--                     graph of an index
--   Graph/Neighborhood  `Neighborhood` and `Subgraph` of graph.go: the walk around seeds
--   Projects          internal/projectref/resolve.go: the project that a reference means
--   Rag               internal/rag: Rag/Context.antt has `assembleContext` of context.go, and Rag/Runes.antt
--                     Go's runes of a string
--   Search/Routing    internal/search/routing.go and limits.go: the classes of queries
--   Search/Hybrid     internal/search/hybrid.go: the fusion of vector and keyword results
--   Search/Service    internal/search/service.go: `Search`, which searches one project;
--                     Search/Service/Answer.antt puts it together from its steps
--   Search/Cache      internal/search/cache.go: the cache of query results
--   Search/Diversity  internal/search/multiscope.go: the limits per project and per file
--   Search/Fusion     multiscope.go: the flags of the response and the fusion of ranked results
--   Search/Multi      multiscope.go: `SearchMulti` and `SearchAllProjects`, with
--                     `UniqueByIdentity` of internal/projectref/resolve.go
--
-- How they interact: `NewChainFromConfig` builds a chain, or a pool of chains and single providers.
-- Each provider stands behind a breaker, whose calls `Embed` and `EmbedSingle` go through
-- `retryTransient`. A chain gathers the failures of its providers into a `ChainError`.
-- `Search` classifies its query by the routing, embeds it, searches by vector, by keyword or both,
-- fuses the results, and falls back to keywords when the query cannot be embedded.
-- `SearchMulti` searches its projects one after another, tags each result with its project, fuses
-- the results that share a place, and limits them by `applyRankedDiversity`.
--
-- State: a method that changes an object returns the object. A provider is a record of functions
-- over the state `W` of the world, which its calls change; nothing is assumed of them except where
-- a theorem says so. Calls come one after another. A lock makes each method of the breaker and of
-- the pool's counter one step, and each of the cache but `Get`, which reads an entry and deletes it
-- when it has expired under two locks. Times are natural numbers of nanoseconds, and the clock of
-- each call is an argument or a function of the world. Sizes and counters are natural numbers,
-- which do not wrap: they count things that are in memory.
--
-- Loops are recursion on the list that the source ranges over. The loops of `chunkText` and of
-- `splitRunes` are on fuel, and `none` is fuel that ran out: one more round than the bytes that are
-- left is enough for `splitRunes`, and for `chunkText` on every text that has the start of a
-- character within each budget. `bfs` and `bfsWalk` count down the visits of their budgets, and the
-- depth limit is fuel enough for `reconstruct`. A string has at most as many runes as bytes, which
-- is the fuel of `runes`. The buffer of the line scanner is 64 KiB, Go's default.
--
-- Not modelled: HTTP, databases, files, logging, tracing and metrics; the clients of the providers;
-- the split of code by symbols; in the search of one project, the expansion by the graph, the
-- rerankers by a model, the notes on staleness and the formatters; the sorts of the results of
-- `Neighborhood`; the rest of internal/codeintel, internal/chat and internal/rag; and the indexing, the stores, the
-- servers, the access rules, the command line and the client.
pub mod Prelude
pub mod Chat
pub mod Chunker
pub mod Codeintel
pub mod Embed
pub mod Graph
pub mod Projects
pub mod Rag
pub mod Search
