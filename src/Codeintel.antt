-- ===== src/Codeintel.antt =====
-- Code intelligence over the graph of imports (internal/codeintel).
pub mod Dependencies
pub mod Impact
pub mod Transitive
mod Tests
