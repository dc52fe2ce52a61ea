-- ===== src/Payment/Gateway.antt =====
-- The port IPgAdapter (domain/port/pg-adapter.port.ts): the use cases are given an adapter, which
-- keeps a state of its own.
use public_nest_server.Base.{ℕ, Option, List, String, Bool, ℤ, Action}
use public_nest_server.Payment.Model.{PaymentError}

pub record PgApprovalRequest : Type 0 where
  pub payment_id : Option ℕ
  pub amount : ℤ
  pub currency : String
  pub payment_method : String

pub record PgApprovalResult : Type 0 where
  pub approved : Bool
  pub pg_transaction_id : String
  pub reason : Option String

pub record PgTransactionRecord : Type 0 where
  pub pg_transaction_id : String
  pub payment_id : Option ℕ
  pub amount : ℤ
  pub approved : Bool
  pub approved_at : ℕ

pub data WebhookStatus : Type 0 where
  approved failed : WebhookStatus

pub record PgWebhookPayload : Type 0 where
  pub pg_transaction_id : String
  pub payment_id : ℕ
  pub status : WebhookStatus

pub record PgAdapter : Type 1 where
  pub Pg : Type 0
  pub request_approval : PgApprovalRequest → Action PaymentError Pg PgApprovalResult
  pub list_transactions : ℕ → ℕ → Action PaymentError Pg (List PgTransactionRecord)
  pub verify_webhook_signature : PgWebhookPayload → String → Bool
