-- ===== src/Payment/Model.antt =====
-- The domain objects of the payment service: Money (domain/vo/money.vo.ts), the aggregate Payment
-- (domain/model/payment.ts) with its base class AggregateRoot, and the two domain events.
-- An `undefined` field is `none`; a `Date` is a number of milliseconds, and `new Date()` an argument.
use public_nest_server.Base.{
  ℕ, Option, none, List, [], ◌∷◌, ◌++◌, String, Bool, true, false, ◌||◌, if◌then◌else◌, ℤ,
  is_negative, Result, ok, err, result_bind, is_blank, text_eq,
}

pub data PaymentStatus : Type 0 where
  pending completed failed : PaymentStatus

abbrev pub is_pending : PaymentStatus → Bool
is_pending pending = true
is_pending completed = false
is_pending failed = false

abbrev pub status_eq : PaymentStatus → PaymentStatus → Bool
status_eq pending pending = true
status_eq completed completed = true
status_eq failed failed = true
status_eq _ _ = false

-- What the service throws, by the class and the text of the exception.
pub data PaymentError : Type 0 where
  negative_amount missing_currency : PaymentError
  not_pending : PaymentStatus → PaymentError
  in_flight : String → PaymentError
  payment_not_found : ℕ → PaymentError
  rpc_not_found : ℕ → PaymentError
  invalid_signature : PaymentError
  invalid_json : PaymentError
  -- an error of the database, of the payment gateway or of Kafka, by its message
  external : String → PaymentError
  -- `throw undefined`
  nothing_thrown : PaymentError

pub record Money : Type 0 where
  pub amount : ℤ
  pub currency : String

-- `Money.of`, with `Money.validate`; `!value.currency` holds of the empty text only
unfoldable pub money_of : ℤ → String → Result PaymentError Money
money_of amount currency =
    if is_negative amount
    then err negative_amount
    else (if text_eq currency "" || is_blank currency
        then err missing_currency
        else ok (record { amount = amount; currency = currency }))

pub record EventPayload : Type 0 where
  pub payment_id : Option ℕ
  pub user_id : ℕ
  pub amount : ℤ
  pub currency : String
  pub product_id : String

pub data DomainEvent : Type 0 where
  payment_completed payment_failed : EventPayload → ℕ → DomainEvent

pub record Payment : Type 0 where
  pub id : Option ℕ
  pub user_id : ℕ
  pub money : Money
  pub payment_method : String
  pub product_id : String
  pub quantity : String
  pub status : PaymentStatus
  pub created_at : Option ℕ
  -- `AggregateRoot._domainEvents`
  pub domain_events : List DomainEvent

unfoldable pub add_domain_event : DomainEvent → Payment → Payment
add_domain_event e p = record p { domain_events = p.domain_events ++ e ∷ [] }

-- `AggregateRoot.pullDomainEvents`: the emptied aggregate, and its events
unfoldable pub pull_domain_events : Payment → Payment × List DomainEvent
pull_domain_events p = (record p { domain_events = [] }, p.domain_events)

pub record NewPayment : Type 0 where
  pub user_id : ℕ
  pub money : Money
  pub payment_method : String
  pub product_id : String
  pub quantity : String

unfoldable pub create : NewPayment → Payment
create props = record {
  id = none;
  user_id = props.user_id;
  money = props.money;
  payment_method = props.payment_method;
  product_id = props.product_id;
  quantity = props.quantity;
  status = pending;
  created_at = none;
  domain_events = [];
}

pub record StoredPayment : Type 0 where
  pub id : Option ℕ
  pub user_id : ℕ
  pub amount : ℤ
  pub currency : String
  pub payment_method : String
  pub product_id : String
  pub quantity : String
  pub status : PaymentStatus
  pub created_at : Option ℕ

unfoldable pub restore : StoredPayment → Result PaymentError Payment
restore props = result_bind (money_of props.amount props.currency) λ money. ok (record {
  id = props.id;
  user_id = props.user_id;
  money = money;
  payment_method = props.payment_method;
  product_id = props.product_id;
  quantity = props.quantity;
  status = props.status;
  created_at = props.created_at;
  domain_events = [];
})

-- the payload that `complete` and `fail` give their events
unfoldable pub payload_of : Payment → EventPayload
payload_of p = record {
  payment_id = p.id;
  user_id = p.user_id;
  amount = p.money.amount;
  currency = p.money.currency;
  product_id = p.product_id;
}

-- the `new Payment(…)` of `complete` and `fail`: no event is carried over
unfoldable pub with_status : PaymentStatus → Payment → Payment
with_status status p = record p { status = status; domain_events = [] }

unfoldable pub complete : ℕ → Payment → Result PaymentError Payment
unfolding with_status add_domain_event payload_of
complete now p =
    if is_pending p.status
    then ok (add_domain_event (payment_completed (payload_of p) now) (with_status completed p))
    else err (not_pending p.status)

unfoldable pub fail : ℕ → Payment → Result PaymentError Payment
unfolding with_status add_domain_event payload_of
fail now p =
    if is_pending p.status
    then ok (add_domain_event (payment_failed (payload_of p) now) (with_status failed p))
    else err (not_pending p.status)
