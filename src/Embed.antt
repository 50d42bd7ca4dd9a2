-- ===== src/Embed.antt =====
-- internal/embed: embedding providers behind circuit breakers, in fallback chains and pools.
pub mod Errors
pub mod Dims
pub mod Provider
pub mod Circuit
pub mod Retry
pub mod Guard
pub mod Chain
pub mod Parallel
pub mod Config
mod Tests
