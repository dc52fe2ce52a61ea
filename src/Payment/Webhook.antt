-- ===== src/Payment/Webhook.antt =====
-- HandlePgWebhookUseCase (application/handle-pg-webhook.use-case.ts) and PgWebhookController
-- (presentation/pg-webhook.controller.ts).
pub mod Laws
pub mod Verdicts
use public_nest_server.Base.{
  ℕ, Option, none, some, String, Bool, true, false, Result, err, Action, pure, throw, lift, ◌>>=◌,
  ◌>>◌, ⊤, if◌then◌else◌,
}
use public_nest_server.Payment.Model.{
  Payment, PaymentError, payment_not_found, invalid_signature, is_pending, complete, fail,
  pull_domain_events,
}
use public_nest_server.Payment.Database.{Database}
use public_nest_server.Payment.Repository.{find_payment_by_id, persist_with_events}
use public_nest_server.Payment.Gateway.{PgAdapter, PgWebhookPayload, WebhookStatus}

pub record HandlePgWebhookCommand : Type 0 where
  pub payment_id : ℕ
  pub pg_transaction_id : String
  pub approved : Bool

module _ (base : Database) where
  open base use {Db}

  -- `payment.complete()` or `payment.fail()`, stored with its events
  unfoldable pub resolve : ℕ → Bool → Payment → Action PaymentError Db ⊤
  resolve now approved payment = do
    outcome ← lift (if approved then complete now payment else fail now payment)
    let (pulled, events) = pull_domain_events outcome
    persist_with_events base pulled events
    pure tt

  -- the body of `execute`, once the payment has been looked up
  unfoldable pub handle_found :
      ℕ → HandlePgWebhookCommand → Option Payment → Action PaymentError Db ⊤
  handle_found now command none = throw (payment_not_found command.payment_id)
  handle_found now command (some payment) =
      if is_pending payment.status then resolve now command.approved payment else pure tt

  unfoldable pub handle_pg_webhook : ℕ → HandlePgWebhookCommand → Action PaymentError Db ⊤
  handle_pg_webhook now command = do
    payment ← find_payment_by_id base command.payment_id
    handle_found now command payment

  abbrev is_approved : WebhookStatus → Bool
  is_approved WebhookStatus.approved = true
  is_approved WebhookStatus.failed = false

  -- the route `POST payment/webhook/pg`
  unfoldable pub receive_webhook :
      (pg : PgAdapter) → ℕ → PgWebhookPayload → String → Action PaymentError Db ⊤
  receive_webhook pg now dto signature =
      if pg.verify_webhook_signature dto signature
      then handle_pg_webhook now (record {
        payment_id = dto.payment_id;
        pg_transaction_id = dto.pg_transaction_id;
        approved = is_approved dto.status;
      })
      else throw invalid_signature
