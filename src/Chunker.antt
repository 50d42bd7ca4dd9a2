-- ===== src/Chunker.antt =====
-- internal/chunker/chunker.go: the split of a file's content into chunks. `max_chars` counts bytes.
pub mod Space
pub mod Prose
pub mod Runes
pub mod Code
