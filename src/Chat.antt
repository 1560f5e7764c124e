-- ===== src/Chat.antt =====
-- The vocabulary of a conversation: src/core_types/chat_ids.hpp and `ChatMessage` of
-- src/chat/types.hpp. Message ids are uint64_t counters that start at 1, tool-call and approval
-- ids are strings.
pub mod Message
pub mod Mode
pub mod Block
pub mod Event
pub mod Config
