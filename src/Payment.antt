-- ===== src/Payment.antt =====
-- apps/payment: the payment service.
pub mod Model
pub mod Lifecycle
pub mod Database
pub mod Repository
pub mod Retry
pub mod Cache
pub mod Idempotency
pub mod Gateway
pub mod CreatePayment
pub mod Webhook
pub mod Outbox
pub mod Queries
pub mod Reconciliation
pub mod Memory
mod Tests
