-- ===== src/Graph.antt =====
-- internal/graph: the graph of files and packages.
pub mod Walk
pub mod Index
pub mod Neighborhood
