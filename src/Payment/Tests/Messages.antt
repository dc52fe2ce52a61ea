-- ===== src/Payment/Tests/Messages.antt =====
-- Webhooks and the outbox relay, on a database in memory and a broker that refuses some events.
use public_nest_server.Base.{
  ℕ, ◌≡◌, refl, Option, none, some, List, [], ◌∷◌, ◌++◌, String, true, false, pos, ok, err, Action,
  ⊤, ◌⊎◌, arith, All, find, is_blank, ◌&&◌, if◌then◌else◌, leb, length,
}
use public_nest_server.Payment.Model.{
  Payment, pending, completed, PaymentError, external, DomainEvent, payment_completed, money_of,
  restore, complete, fail, with_status, add_domain_event, payload_of, pull_domain_events,
}
use public_nest_server.Payment.Database.{
  PaymentOrmEntity, PaymentOutboxOrmEntity, OutboxStatus, has_id,
}
use public_nest_server.Payment.Memory.{memory, Tables}
use public_nest_server.Payment.Repository.{
  persist_with_events, save_all, save_events, to_domain, to_orm_entity, to_outbox_entity,
  event_type, find_payment_by_id, row_to_domain,
}
use public_nest_server.Payment.Webhook.{
  HandlePgWebhookCommand, resolve, handle_found, handle_pg_webhook,
}
use public_nest_server.Payment.Webhook.Laws.{handle_pg_webhook_idempotent}
use public_nest_server.Payment.Outbox.{
  Relay, to_record, published_row, failed_row, relay_one, relay_all, poll_batch, poll_once,
  publish_and_mark, in_db, in_kafka, find_pending_batch, mark_published, update_by_id,
  mark_failed_attempt, find_row, mark_row, max_attempts,
}
use public_nest_server.Payment.Outbox.Rows.{IsWithinAttempts}
use public_nest_server.Payment.Outbox.Relaying.{
  Offer, poll_once-IsWithinAttempts, relay_one-accounts,
}

abbrev unpaid_row : PaymentOrmEntity
unpaid_row = record {
  id = some 1;
  user_id = 7;
  amount = pos 1500;
  currency = "KRW";
  payment_method = "CARD";
  product_id = "sku-1";
  quantity = "2";
  status = pending;
  created_at = some 0;
}

abbrev unpaid : Payment
unpaid = record {
  id = some 1;
  user_id = 7;
  money = record { amount = pos 1500; currency = "KRW" };
  payment_method = "CARD";
  product_id = "sku-1";
  quantity = "2";
  status = pending;
  created_at = some 0;
  domain_events = [];
}

abbrev tables : Tables
tables = record { rows = unpaid_row ∷ []; events = [] }

abbrev approving : HandlePgWebhookCommand
approving = record { payment_id = 1; pg_transaction_id = "pg-1"; approved = true }

abbrev failing : HandlePgWebhookCommand
failing = record { payment_id = 1; pg_transaction_id = "pg-2"; approved = false }

unpaid-read : to_domain unpaid_row ≡ ok unpaid
unfolding to_domain restore money_of is_blank
unpaid-read = refl

webhook-done : (handle_pg_webhook memory 100 approving tables).0 ≡ ok tt
unfolding handle_pg_webhook handle_found resolve find_payment_by_id row_to_domain to_domain restore
    money_of is_blank complete with_status add_domain_event payload_of pull_domain_events
    persist_with_events save_all save_events to_orm_entity to_outbox_entity event_type
webhook-done = refl

abbrev completed_row : PaymentOrmEntity
completed_row = record unpaid_row { status = completed }

completed-read :
    memory.query_payment 1 (handle_pg_webhook memory 100 approving tables).1
    ≡ ok (some completed_row)
unfolding handle_pg_webhook handle_found resolve find_payment_by_id row_to_domain to_domain restore
    money_of is_blank complete with_status add_domain_event payload_of pull_domain_events
    persist_with_events save_all save_events to_orm_entity to_outbox_entity event_type
completed-read = refl

handle_pg_webhook_idempotent_example :
    let db' = (handle_pg_webhook memory 100 approving tables).1 in
    handle_pg_webhook memory 900 failing db' ≡ (ok tt, db')
handle_pg_webhook_idempotent_example =
    handle_pg_webhook_idempotent memory 100 900 approving failing tt (some completed_row) tables
      refl webhook-done completed-read

resolve-both :
    ((resolve memory 100 true unpaid tables).0 ≡ ok tt)
    × ((resolve memory 101 false unpaid (resolve memory 100 true unpaid tables).1).0 ≡ ok tt)
unfolding resolve to_domain restore money_of is_blank complete fail with_status add_domain_event
    payload_of pull_domain_events persist_with_events save_all save_events to_orm_entity
    to_outbox_entity event_type
resolve-both = (refl, refl)

unpaid-IsPayable : money_of unpaid.money.amount unpaid.money.currency ≡ ok unpaid.money
unfolding money_of is_blank
unpaid-IsPayable = refl

abbrev event_row : ℕ → OutboxStatus → ℕ → PaymentOutboxOrmEntity
event_row i status attempts = record {
  id = some i;
  aggregate_id = some i;
  event_type = "payment.completed";
  payload = payment_completed (payload_of unpaid) 0;
  status = status;
  attempts = attempts;
  published_at = none;
}

-- A broker that keeps what it was asked to publish, and refuses the second event.
abbrev publish : Option ℕ → String → DomainEvent → Action PaymentError (List Offer) ⊤
publish k t p log = (
  if leb 1 (length log) && leb (length log) 1 then err (external "down") else ok tt,
  log ++ (k, t, p) ∷ [],
)

abbrev row : ℕ → PaymentOutboxOrmEntity
row i = event_row i OutboxStatus.pending 4

abbrev relay : Relay memory publish
relay = record {
  db = record { rows = []; events = row 1 ∷ row 2 ∷ event_row 3 OutboxStatus.failed 5 ∷ [] };
  kafka = [];
  polling = false;
}

rows-IsWithinAttempts : All IsWithinAttempts relay.db.events
rows-IsWithinAttempts = ground arith

poll_once-IsWithinAttempts_example :
    All IsWithinAttempts (poll_once memory publish 100 relay).1.db.events
poll_once-IsWithinAttempts_example =
    poll_once-IsWithinAttempts memory publish 100 relay rows-IsWithinAttempts

round-done : (relay_one memory publish 100 (to_record (row 1)) relay).0 ≡ ok tt
unfolding relay_one publish_and_mark in_db in_kafka mark_published update_by_id
round-done = refl

relay_one-accounts_example :
    let after =
      find (has_id 1) (relay_one memory publish 100 (to_record (row 1)) relay).1.db.events in
    ((after ≡ some (published_row 100 (row 1)))
      × ((publish (some 1) "payment.completed" (row 1).payload []).0 ≡ ok tt))
    ⊎ (after ≡ some (failed_row 5 max_attempts (row 1)))
relay_one-accounts_example =
    relay_one-accounts memory publish 100 1 (row 1) tt relay refl refl round-done

poll-done : (poll_once memory publish 100 relay).0 ≡ ok tt
unfolding poll_once poll_batch find_pending_batch relay_all relay_one publish_and_mark in_db
    in_kafka mark_published update_by_id mark_failed_attempt find_row mark_row
poll-done = refl
