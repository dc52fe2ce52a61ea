-- ===== src/Prompt.antt =====
-- apps/ai-service/src/prompt: prompt templates in versions, one of them active.
pub mod Template
pub mod Collection
pub mod Repository
pub mod UseCases
mod Tests
