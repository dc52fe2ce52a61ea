-- ===== src/Llm.antt =====
-- apps/ai-service/src/llm-gateway: the gateway to the LLM providers.
pub mod Breaker
pub mod BreakerStore
pub mod Models
pub mod Fallback
pub mod Routing
pub mod Calls
mod Tests
