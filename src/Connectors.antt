-- ===== src/Connectors.antt =====
-- Pulling documents from object storage: prorag/connectors.
pub mod Sync
pub mod Scheduler
mod Tests
