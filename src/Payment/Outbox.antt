-- ===== src/Payment/Outbox.antt =====
-- PaymentOutboxRepositoryImpl (infrastructure/persistence/payment-outbox.repository-impl.ts) and
-- PaymentOutboxRelayService (infrastructure/messaging/payment-outbox-relay.service.ts).
pub mod Rows
pub mod Relaying
pub mod Offers
use public_nest_server.Base.{
  ℕ, ◌+◌, Option, none, some, List, [], ◌∷◌, String, Bool, true, false, Result, ok, err, Action,
  pure, throw, ◌>>=◌, ◌>>◌, map, leb, ⊤, if◌then◌else◌,
}
use public_nest_server.Payment.Model.{PaymentError, external, DomainEvent}
use public_nest_server.Payment.Database.{Database, PaymentOutboxOrmEntity, OutboxStatus, has_id}

-- `OutboxEventRecord`
pub record OutboxEventRecord : Type 0 where
  pub id : Option ℕ
  pub aggregate_id : Option ℕ
  pub event_type : String
  pub payload : DomainEvent
  pub attempts : ℕ

abbrev pub to_record : PaymentOutboxOrmEntity → OutboxEventRecord
to_record row = record {
  id = row.id;
  aggregate_id = row.aggregate_id;
  event_type = row.event_type;
  payload = row.payload;
  attempts = row.attempts;
}

abbrev pub is_pending_row : PaymentOutboxOrmEntity → Bool
is_pending_row row = elim row.status [
  | OutboxStatus.pending ↦ true
  | OutboxStatus.published ↦ false
  | OutboxStatus.failed ↦ false
]

abbrev pub published_row : ℕ → PaymentOutboxOrmEntity → PaymentOutboxOrmEntity
published_row now row = record row { status = OutboxStatus.published; published_at = some now }

abbrev pub failed_row : ℕ → ℕ → PaymentOutboxOrmEntity → PaymentOutboxOrmEntity
failed_row attempts max_attempts row = record row {
  attempts = attempts;
  status = if leb max_attempts attempts then OutboxStatus.failed else OutboxStatus.pending;
}

abbrev pub batch_size : ℕ
batch_size = 50

abbrev pub max_attempts : ℕ
max_attempts = 5

abbrev db_update_failed : PaymentError
db_update_failed = external "PAYMENT_OUTBOX_DB_UPDATE_FAILED"

module _ (base : Database) where
  open base use {Db, select_outbox, update_outbox}

  unfoldable pub find_pending_batch : ℕ → Action PaymentError Db (List OutboxEventRecord)
  find_pending_batch limit = do rows ← select_outbox is_pending_row limit; pure (map to_record rows)

  -- `AbstractRepository.updateById`, which throws if no row was affected
  unfoldable pub update_by_id :
      Option ℕ → (PaymentOutboxOrmEntity → PaymentOutboxOrmEntity) → Action PaymentError Db ⊤
  update_by_id none change = throw db_update_failed
  update_by_id (some i) change = do
    affected ← update_outbox i change
    if affected then pure tt else throw db_update_failed

  unfoldable pub mark_published : ℕ → Option ℕ → Action PaymentError Db ⊤
  mark_published now id = update_by_id id (published_row now)

  -- the rows that `findById` returns: one or none
  unfoldable pub find_row : Option ℕ → Action PaymentError Db (List PaymentOutboxOrmEntity)
  find_row none = pure []
  find_row (some i) = select_outbox (has_id i) 1

  unfoldable pub mark_row : Option ℕ → ℕ → List PaymentOutboxOrmEntity → Action PaymentError Db ⊤
  mark_row id limit [] = pure tt
  mark_row id limit (row ∷ _) = update_by_id id (failed_row (row.attempts + 1) limit)

  unfoldable pub mark_failed_attempt : Option ℕ → ℕ → Action PaymentError Db ⊤
  mark_failed_attempt id limit = do rows ← find_row id; mark_row id limit rows

  -- `PaymentKafkaProducerService.publish`, over the state of the broker
  module _ {Kafka : Type 0}
      (publish : Option ℕ → String → DomainEvent → Action PaymentError Kafka ⊤) where
    pub record Relay : Type 0 where
      pub db : Db
      pub kafka : Kafka
      pub polling : Bool

    unfoldable pub in_db : {A : Type 0} → Action PaymentError Db A → Action PaymentError Relay A
    in_db m w = let (r, db) = m w.db in (r, record w { db = db })

    unfoldable pub in_kafka :
        {A : Type 0} → Action PaymentError Kafka A → Action PaymentError Relay A
    in_kafka m w = let (r, kafka) = m w.kafka in (r, record w { kafka = kafka })

    -- one round of the loop: the `try` block, and its handler
    unfoldable pub publish_and_mark : ℕ → OutboxEventRecord → Action PaymentError Relay ⊤
    publish_and_mark now e = do
      in_kafka (publish e.aggregate_id e.event_type e.payload)
      in_db (mark_published now e.id)

    unfoldable pub relay_one : ℕ → OutboxEventRecord → Action PaymentError Relay ⊤
    relay_one now e w =
        let (r, w') = publish_and_mark now e w in
        elim r [ ok u ↦ (ok u, w') | err error ↦ in_db (mark_failed_attempt e.id max_attempts) w' ]

    unfoldable pub relay_all : ℕ → List OutboxEventRecord → Action PaymentError Relay ⊤
    relay_all now [] = pure tt
    relay_all now (e ∷ events) = do relay_one now e; relay_all now events

    unfoldable pub poll_batch : ℕ → Action PaymentError Relay ⊤
    poll_batch now = do events ← in_db (find_pending_batch batch_size); relay_all now events

    -- `pollOnce`; the `finally` block runs on every way out of the `try`
    unfoldable pub poll_once : ℕ → Action PaymentError Relay ⊤
    poll_once now w =
        let (r, w') = poll_batch now (record w { polling = true }) in
        if w.polling then (ok tt, w) else (r, record w' { polling = false })
