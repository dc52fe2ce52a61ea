-- ===== src/Payment/Repository.antt =====
-- PaymentMapper, PaymentOutboxMapper and PaymentRepositoryImpl (infrastructure/mapper/*.ts,
-- infrastructure/persistence/payment.repository-impl.ts), over the database.
pub mod Laws
use public_nest_server.Base.{
  ℕ, Option, none, some, List, [], ◌∷◌, Bool, String, Result, ok, err, Action, result_map,
  result_bind, lift, pure, ◌>>=◌, ◌>>◌, map, ⊤,
}
use public_nest_server.Payment.Model.{
  Payment, PaymentError, StoredPayment, DomainEvent, payment_completed, payment_failed, restore,
}
use public_nest_server.Payment.Database.{
  PaymentOrmEntity, PaymentOutboxOrmEntity, OutboxStatus, Database,
}

-- `PaymentMapper.toDomain`
unfoldable pub to_domain : PaymentOrmEntity → Result PaymentError Payment
unfolding restore
to_domain orm = restore (record {
  id = orm.id;
  user_id = orm.user_id;
  amount = orm.amount;
  currency = orm.currency;
  payment_method = orm.payment_method;
  product_id = orm.product_id;
  quantity = orm.quantity;
  status = orm.status;
  created_at = orm.created_at;
})

-- `PaymentMapper.toOrmEntity`, which leaves `createdAt` to the database
unfoldable pub to_orm_entity : Payment → PaymentOrmEntity
to_orm_entity p = record {
  id = p.id;
  user_id = p.user_id;
  amount = p.money.amount;
  currency = p.money.currency;
  payment_method = p.payment_method;
  product_id = p.product_id;
  quantity = p.quantity;
  status = p.status;
  created_at = none;
}

-- `PaymentOutboxMapper.resolve`: the EVENT_TYPE of the event's class
unfoldable pub event_type : DomainEvent → String
event_type (payment_completed payload occurred_at) = "payment.completed"
event_type (payment_failed payload occurred_at) = "payment.failed"

-- `PaymentOutboxMapper.toOrmEntity`
unfoldable pub to_outbox_entity : Option ℕ → DomainEvent → PaymentOutboxOrmEntity
unfolding event_type
to_outbox_entity aggregate_id event = record {
  id = none;
  aggregate_id = aggregate_id;
  event_type = event_type event;
  payload = event;
  status = OutboxStatus.pending;
  attempts = 0;
  published_at = none;
}

module _ (base : Database) where
  open base use {Db, query_payment, save_payment, save_outbox, transaction}

  unfoldable pub persist : Payment → Action PaymentError Db Payment
  persist payment = do saved ← save_payment (to_orm_entity payment); lift (to_domain saved)

  -- `if (events.length > 0) …`
  unfoldable pub save_events : Option ℕ → List DomainEvent → Action PaymentError Db ⊤
  save_events aggregate_id [] = pure tt
  save_events aggregate_id (e ∷ events) =
      save_outbox (map (to_outbox_entity aggregate_id) (e ∷ events))

  -- the callback of the transaction
  unfoldable pub save_all :
      PaymentOrmEntity → List DomainEvent → Action PaymentError Db PaymentOrmEntity
  save_all orm events = do saved ← save_payment orm; save_events saved.id events; pure saved

  unfoldable pub persist_with_events : Payment → List DomainEvent → Action PaymentError Db Payment
  unfolding save_all
  persist_with_events payment events = do
    saved ← transaction (save_all (to_orm_entity payment) events)
    lift (to_domain saved)

  -- `orm ? PaymentMapper.toDomain(orm) : null`
  unfoldable pub row_to_domain : Option PaymentOrmEntity → Result PaymentError (Option Payment)
  row_to_domain none = ok none
  row_to_domain (some orm) = result_map some (to_domain orm)

  unfoldable pub find_payment_by_id : ℕ → Action PaymentError Db (Option Payment)
  unfolding row_to_domain
  find_payment_by_id i db = (result_bind (query_payment i db) row_to_domain, db)
