-- ===== src/Knowledge.antt =====
-- apps/ai-service/src/knowledge: documents that are cut into chunks and stored with their embeddings.
pub mod Splitting
pub mod Offsets
pub mod Document
pub mod Vectors
pub mod Ingest
mod Tests
