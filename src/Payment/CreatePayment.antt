-- ===== src/Payment/CreatePayment.antt =====
-- CreatePaymentUseCase (application/create-payment.use-case.ts).
pub mod Settling
pub mod Created
pub mod Processed
pub mod Replay
pub mod Failing
use public_nest_server.Base.{
  ℕ, Option, none, some, String, Bool, true, false, List, [], ◌∷◌, ◌*◌, ℤ, Result, ok, err, Action,
  pure, throw, lift, ◌>>=◌, ◌>>◌, ⊤, if◌then◌else◌,
}
use public_nest_server.Payment.Model.{
  Payment, Money, PaymentError, in_flight, nothing_thrown, DomainEvent, money_of, create, complete,
  fail, pull_domain_events,
}
use public_nest_server.Payment.Database.{Database}
use public_nest_server.Payment.Cache.{Redis}
use public_nest_server.Payment.Gateway.{PgAdapter, PgApprovalRequest, PgApprovalResult}
use public_nest_server.Payment.Repository.{persist, persist_with_events}
use public_nest_server.Payment.Idempotency.{CachedText, find_by_key, try_claim, save}
use public_nest_server.Payment.Retry.{RetryOptions, retry_with_backoff}

pub record CreatePaymentCommand : Type 0 where
  pub user_id : ℕ
  pub amount : ℤ
  pub currency : String
  pub payment_method : String
  pub product_id : String
  pub quantity : String
  pub idempotency_key : String

abbrev pub idempotency_ttl_seconds : ℕ
idempotency_ttl_seconds = 60 * 60 * 24

abbrev pub pg_retry_options : RetryOptions
pg_retry_options = record { max_attempts = 3; base_delay_ms = 200 }

abbrev pub new_payment : CreatePaymentCommand → Money → Payment
new_payment command money = create (record {
  user_id = command.user_id;
  money = money;
  payment_method = command.payment_method;
  product_id = command.product_id;
  quantity = command.quantity;
})

abbrev pub approval_request : Payment → PgApprovalRequest
approval_request pending = record {
  payment_id = pending.id;
  amount = pending.money.amount;
  currency = pending.money.currency;
  payment_method = pending.payment_method;
}

-- `catch (error) { outcome = pending.fail(); }`
unfoldable pub or_fail : ℕ → Payment → Result PaymentError Payment → Result PaymentError Payment
or_fail now pending (ok outcome) = ok outcome
or_fail now pending (err error) = fail now pending

-- The `try` block and its handler: what the payment becomes after the retries.
unfoldable pub outcome_of :
    ℕ → Payment → Result (Option PaymentError) PgApprovalResult → Result PaymentError Payment
unfolding or_fail
outcome_of now pending (ok approval) =
    or_fail now pending (if approval.approved then complete now pending else fail now pending)
outcome_of now pending (err last) = fail now pending

module _ (base : Database) (redis : Redis CachedText) (pg : PgAdapter) where
  -- What a request reads and writes; `slept` are the delays of the retries, in order.
  pub record World : Type 0 where
    pub db : base.Db
    pub store : redis.Store
    pub ledger : pg.Pg
    pub slept : List ℕ

  unfoldable pub on_db : {A : Type 0} → Action PaymentError base.Db A → Action PaymentError World A
  on_db m w = let (r, db) = m w.db in (r, record w { db = db })

  unfoldable pub on_store :
      {A : Type 0} → Action PaymentError redis.Store A → Action PaymentError World A
  on_store m w = let (r, store) = m w.store in (r, record w { store = store })

  unfoldable pub on_ledger :
      {A : Type 0} → Action PaymentError pg.Pg A → Action PaymentError World A
  on_ledger m w = let (r, ledger) = m w.ledger in (r, record w { ledger = ledger })

  unfoldable pub sleep : ℕ → World → World
  sleep ms w = record w { slept = ms ∷ w.slept }

  unfoldable pub request_approval : Payment → Action PaymentError World PgApprovalResult
  request_approval pending = on_ledger (pg.request_approval (approval_request pending))

  unfoldable pub settle : ℕ → Payment → Action PaymentError World Payment
  settle now pending w =
      let (r, w') = retry_with_backoff (request_approval pending) sleep pg_retry_options w in
      (outcome_of now pending r, w')

  -- from `pullDomainEvents` to the end
  unfoldable pub store_outcome : CreatePaymentCommand → Payment → Action PaymentError World Payment
  store_outcome command outcome = do
    let (pulled, events) = pull_domain_events outcome
    saved ← on_db (persist_with_events base pulled events)
    on_store (save redis command.idempotency_key saved idempotency_ttl_seconds)
    pure saved

  -- from the `try` to the end, with the payment stored as PENDING
  unfoldable pub finish : ℕ → CreatePaymentCommand → Payment → Action PaymentError World Payment
  finish now command pending = do outcome ← settle now pending; store_outcome command outcome

  -- from `Payment.create` to the end, once the key is claimed
  unfoldable pub process : ℕ → CreatePaymentCommand → Action PaymentError World Payment
  process now command = do
    money ← lift (money_of command.amount command.currency)
    pending ← on_db (persist base (new_payment command money))
    finish now command pending

  -- the branch in which another request holds the key
  unfoldable pub in_flight_result : CreatePaymentCommand → Action PaymentError World Payment
  in_flight_result command = do
    result ← on_store (find_by_key redis command.idempotency_key)
    elim result [ some payment ↦ pure payment | none ↦ throw (in_flight command.idempotency_key) ]

  unfoldable pub claim_and_process : ℕ → CreatePaymentCommand → Action PaymentError World Payment
  claim_and_process now command = do
    claimed ← on_store (try_claim redis command.idempotency_key idempotency_ttl_seconds)
    if claimed then process now command else in_flight_result command

  unfoldable pub execute : ℕ → CreatePaymentCommand → Action PaymentError World Payment
  execute now command = do
    existing ← on_store (find_by_key redis command.idempotency_key)
    elim existing [ some payment ↦ pure payment | none ↦ claim_and_process now command ]
