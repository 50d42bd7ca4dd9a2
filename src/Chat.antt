-- ===== src/Chat.antt =====
-- internal/chat: the conversation with the language model.
pub mod History
