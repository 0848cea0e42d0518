-- ===== src/Retrieve.antt =====
-- Retrieval (prorag/retrieve/*.py, prorag/operations/retrieval.py).
pub mod Hit
pub mod Fuse
pub mod Visibility
pub mod Plan
pub mod Arms
pub mod Rerank
pub mod Pipeline
pub mod Crop
pub mod Samples
mod Tests
