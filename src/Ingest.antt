-- ===== src/Ingest.antt =====
-- From a file's text to the rows that retrieval searches: prorag/ingest.
pub mod Chunk
pub mod Core
pub mod Embed
pub mod Files
pub mod Mime
pub mod Parse
pub mod Rows
pub mod Samples
pub mod Store
pub mod TableText
