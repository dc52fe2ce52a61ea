-- ===== src/Payment/Tests/Reads.antt =====
-- The queries and the reconciliation, on a database in memory.
use public_nest_server.Base.{
  ℕ, ◌-◌, ◌≡◌, ◌≢◌, ◌↔◌, refl, none, some, List, [], ◌∷◌, true, false, pos, negsuc, ok, err, All,
  length, is_blank,
}
use public_nest_server.Payment.Model.{Payment, completed, PaymentError, money_of, restore}
use public_nest_server.Payment.Database.{PaymentOrmEntity}
use public_nest_server.Payment.Memory.{memory, Tables}
use public_nest_server.Payment.Gateway.{PgAdapter, PgTransactionRecord}
use public_nest_server.Payment.Repository.{to_domain, row_to_domain, find_payment_by_id}
use public_nest_server.Payment.Queries.{
  GetPaymentRequest, ListPaymentsRequest, PaymentReply, ListPaymentsResponse, get_payment,
  list_payments, positive_or, to_domain_all, to_reply, find_payments_by_user_id,
}
use public_nest_server.Payment.Queries.Laws.{get_payment_hides_others}
use public_nest_server.Payment.Reconciliation.{
  ReconciliationResult, Reconciling, reconcile_once, lookback_ms, compare_listed, compare_all,
  compare_payment, find_of_tx,
}
use public_nest_server.Payment.Reconciliation.Laws.{Agrees, reconcile_once-Agrees}

abbrev row : ℕ → ℕ → PaymentOrmEntity
row i user = record {
  id = some i;
  user_id = user;
  amount = pos 1500;
  currency = "KRW";
  payment_method = "CARD";
  product_id = "sku-1";
  quantity = "2";
  status = completed;
  created_at = some 0;
}

abbrev paid : ℕ → ℕ → Payment
paid i user = record {
  id = some i;
  user_id = user;
  money = record { amount = pos 1500; currency = "KRW" };
  payment_method = "CARD";
  product_id = "sku-1";
  quantity = "2";
  status = completed;
  created_at = some 0;
  domain_events = [];
}

abbrev tables : Tables
tables = record { rows = row 3 7 ∷ row 2 8 ∷ row 1 7 ∷ []; events = [] }

paid-read : to_domain (row 2 8) ≡ ok (paid 2 8)
unfolding to_domain restore money_of is_blank
paid-read = refl

abbrev ask : GetPaymentRequest
ask = record { payment_id = 2; account_id = 7 }

get_payment_hides_others_example :
    ((paid 2 8).user_id ≢ 7
      → (get_payment memory ask tables).0
        ≡ (get_payment memory ask (record tables { rows = row 1 7 ∷ [] })).0)
    × ((reply : PaymentReply)
        → (get_payment memory ask tables).0 ≡ ok reply
        → (reply.account_id ≡ 7) × (reply.payment_id ≡ some 2))
get_payment_hides_others_example =
    get_payment_hides_others memory ask (row 2 8) (paid 2 8) (some (row 2 8)) none tables
      (record tables { rows = row 1 7 ∷ [] }) refl paid-read refl refl refl

abbrev first_page : ListPaymentsRequest
first_page = record { account_id = 7; page = negsuc 0; take = pos 1 }

abbrev shown : ListPaymentsResponse
shown = record {
  payments = to_reply (paid 3 7) ∷ [];
  page = 1;
  take = 1;
  item_count = 2;
  page_count = 2;
  has_previous_page = false;
  has_next_page = true;
}

list-shown : (list_payments memory first_page tables).0 ≡ ok shown
unfolding list_payments find_payments_by_user_id positive_or to_domain_all to_domain restore
    money_of is_blank to_reply
list-shown = refl

abbrev transaction : PgTransactionRecord
transaction = record {
  pg_transaction_id = "pg-1";
  payment_id = some 2;
  amount = pos 1500;
  approved = true;
  approved_at = 0;
}

-- A gateway that lists one transaction.
abbrev listing : PgAdapter
listing = record {
  Pg = ℕ;
  request_approval = λ request s. (err PaymentError.nothing_thrown, s);
  list_transactions = λ from to s. (ok (transaction ∷ []), s);
  verify_webhook_signature = λ payload signature. true;
}

abbrev before : Reconciling memory listing
before = record { db = tables; ledger = 0 }

abbrev clean : ReconciliationResult
clean = record { checked = 1; mismatches = [] }

reconciled : (reconcile_once memory listing 86400000 before).0 ≡ ok clean
unfolding reconcile_once compare_listed compare_all find_of_tx find_payment_by_id row_to_domain
    to_domain restore money_of is_blank compare_payment
reconciled = refl

reconcile_once-Agrees_example :
    (txs : List PgTransactionRecord) × ((listing.list_transactions
        (86400000 - lookback_ms)
        86400000
        0).0
      ≡ ok txs)
    × (clean.checked ≡ length txs)
    × ((reconcile_once memory listing 86400000 before).1.db ≡ tables)
    × ((clean.mismatches ≡ []) ↔ All (Agrees memory tables) txs)
reconcile_once-Agrees_example =
    reconcile_once-Agrees memory listing 86400000 clean before reconciled
