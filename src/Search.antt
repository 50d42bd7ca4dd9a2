-- ===== src/Search.antt =====
-- internal/search
pub mod Cache
pub mod Diversity
pub mod Routing
pub mod Fusion
pub mod Hybrid
pub mod Multi
pub mod Service
