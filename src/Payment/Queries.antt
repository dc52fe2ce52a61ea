-- ===== src/Payment/Queries.antt =====
-- PaymentGrpcController (rpc/payment.grpc-controller.ts) with its mapper, and the list query of
-- PaymentRepositoryImpl. A time is left as its milliseconds, where the reply has the ISO text.
pub mod Laws
use public_nest_server.Base.{
  ℕ, zero, suc, ◌+◌, ◌-◌, ◌*◌, ◌/◌, Option, none, some, List, [], ◌∷◌, map, String, Bool, ltb, leb,
  not, ◌==◌, ℤ, pos, negsuc, Result, ok, err, Action, pure, throw, lift, ◌>>=◌, result_map,
  result_bind, if◌then◌else◌,
}
use public_nest_server.Payment.Model.{Payment, PaymentStatus, PaymentError, rpc_not_found}
use public_nest_server.Payment.Database.{Database, PaymentOrmEntity}
use public_nest_server.Payment.Repository.{to_domain, find_payment_by_id}
use public_nest_server.Payment.CreatePayment.{CreatePaymentCommand}

pub record CreatePaymentRequest : Type 0 where
  pub account_id : ℕ
  pub amount : ℤ
  pub currency : String
  pub product_id : String
  pub idempotency_key : String

pub record GetPaymentRequest : Type 0 where
  pub payment_id : ℕ
  pub account_id : ℕ

pub record ListPaymentsRequest : Type 0 where
  pub account_id : ℕ
  pub page : ℤ
  pub take : ℤ

pub record PaymentReply : Type 0 where
  pub payment_id : Option ℕ
  pub account_id : ℕ
  pub amount : ℤ
  pub currency : String
  pub product_id : String
  pub status : PaymentStatus
  pub created_at : Option ℕ

pub record ListPaymentsResponse : Type 0 where
  pub payments : List PaymentReply
  pub page : ℕ
  pub take : ℕ
  pub item_count : ℕ
  pub page_count : ℕ
  pub has_previous_page : Bool
  pub has_next_page : Bool

-- `PaymentGrpcMapper.toCommand`
unfoldable pub to_command : CreatePaymentRequest → CreatePaymentCommand
to_command request = record {
  user_id = request.account_id;
  amount = request.amount;
  currency = request.currency;
  payment_method = "gRPC";
  product_id = request.product_id;
  quantity = "1";
  idempotency_key = request.idempotency_key;
}

-- `PaymentGrpcMapper.toReply`
unfoldable pub to_reply : Payment → PaymentReply
to_reply payment = record {
  payment_id = payment.id;
  account_id = payment.user_id;
  amount = payment.money.amount;
  currency = payment.money.currency;
  product_id = payment.product_id;
  status = payment.status;
  created_at = payment.created_at;
}

-- `n > 0 ? n : fallback`
unfoldable pub positive_or : ℕ → ℤ → ℕ
positive_or fallback (pos n) = if ltb 0 n then n else fallback
positive_or fallback (negsuc n) = fallback

-- `Math.ceil(n / d)`
abbrev pub ceil_div : ℕ → ℕ → ℕ
ceil_div n d = (n + d - 1) / d

-- `Math.max(n, 1)`
abbrev pub at_least_one : ℕ → ℕ
at_least_one n = if leb 1 n then n else 1

-- `orms.map(PaymentMapper.toDomain)`
unfoldable pub to_domain_all : List PaymentOrmEntity → Result PaymentError (List Payment)
to_domain_all [] = ok []
to_domain_all (row ∷ rows) =
    result_bind (to_domain row) λ p. result_map (λ ps. p ∷ ps) (to_domain_all rows)

module _ (base : Database) where
  open base use {Db, select_of_user}

  unfoldable pub find_payments_by_user_id : ℕ → ℕ → ℕ → Action PaymentError Db (List Payment × ℕ)
  find_payments_by_user_id user_id limit skip = do
    (rows, count) ← select_of_user user_id limit skip
    payments ← lift (to_domain_all rows)
    pure (payments, count)

  -- the owner check of `getPayment`
  unfoldable pub reply_to_owner :
      GetPaymentRequest → Option Payment → Action PaymentError Db PaymentReply
  unfolding to_reply
  reply_to_owner request none = throw (rpc_not_found request.payment_id)
  reply_to_owner request (some payment) =
      if not (payment.user_id == request.account_id)
      then throw (rpc_not_found request.payment_id)
      else pure (to_reply payment)

  unfoldable pub get_payment : GetPaymentRequest → Action PaymentError Db PaymentReply
  get_payment request = do
    payment ← find_payment_by_id base request.payment_id
    reply_to_owner request payment

  abbrev pub page_of_replies : ℕ → ℕ → List Payment × ℕ → ListPaymentsResponse
  page_of_replies page limit (payments, item_count) =
      let page_count = at_least_one (ceil_div item_count limit) in
      record {
        payments = map to_reply payments;
        page = page;
        take = limit;
        item_count = item_count;
        page_count = page_count;
        has_previous_page = ltb 1 page;
        has_next_page = ltb page page_count;
      }

  unfoldable pub list_payments : ListPaymentsRequest → Action PaymentError Db ListPaymentsResponse
  unfolding positive_or
  list_payments request = do
    let page = positive_or 1 request.page
    let limit = positive_or 20 request.take
    found ← find_payments_by_user_id request.account_id limit ((page - 1) * limit)
    pure (page_of_replies page limit found)
