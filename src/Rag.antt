-- ===== src/Rag.antt =====
-- internal/rag: the retrieval for answers.
pub mod Runes
pub mod Context
