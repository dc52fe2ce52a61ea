-- ===== src/Qa.antt =====
-- apps/ai-service/src/qa: questions answered from documents.
pub mod Budget
pub mod Chunks
pub mod Fusion
pub mod Siblings
pub mod Filtering
pub mod Rewriter
pub mod Decomposer
pub mod Embeddings
pub mod Hybrid
pub mod Ask
pub mod Agentic
mod Tests
