-- ===== src/Gateway.antt =====
-- Parts of apps/gateway/src: the guard, the jobs for the AI service and the streams of their events.
pub mod Redis
pub mod Jobs
pub mod Auth
pub mod Stream
mod Tests
