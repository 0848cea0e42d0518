-- ===== src/Chat.antt =====
-- The answer on its way to the reader: prorag/chat.
pub mod Guard
pub mod Feedback
pub mod Citations
mod Tests
