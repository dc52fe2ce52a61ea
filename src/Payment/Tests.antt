-- ===== src/Payment/Tests.antt =====
-- The payment service on a database and a store in memory and a gateway that answers as it is told.
mod Messages
mod Reads
use public_nest_server.Base.{
  Bool, ℕ, ◌<◌, ◌≡◌, refl, Option, none, some, List, [], ◌∷◌, ◌++◌, ◌+◌, ◌*◌, String, true, false,
  is_blank, if◌then◌else◌, leb, ℤ, pos, negsuc, Result, ok, err, Action, arith, length, ⊤, map,
}
use public_nest_server.Payment.Model.{
  Payment, NewPayment, pending, completed, failed, PaymentError, external, negative_amount,
  in_flight, Money, DomainEvent, payment_completed, money_of, restore, create, complete,
  with_status, add_domain_event, payload_of, pull_domain_events, fail,
}
use public_nest_server.Payment.Lifecycle.{Run, start, completes, pulls, IsHistory, Run-IsHistory}
use public_nest_server.Payment.Database.{PaymentOrmEntity, PaymentOutboxOrmEntity, OutboxStatus}
use public_nest_server.Payment.Memory.{memory, memory_store, Tables}
use public_nest_server.Payment.Gateway.{PgAdapter, PgApprovalRequest, PgApprovalResult}
use public_nest_server.Payment.Repository.{
  persist, persist_with_events, save_all, save_events, to_domain, to_orm_entity, to_outbox_entity,
  event_type, find_payment_by_id, row_to_domain,
}
use public_nest_server.Payment.Repository.Laws.{
  IsPayable, SamePayment, Persisted, to_domain-to_orm_entity, persist_with_events-Persisted,
}
use public_nest_server.Payment.Retry.{RetryOptions, retry_from, retry_with_backoff}
use public_nest_server.Payment.Retry.Laws.{
  Attempts, retry_with_backoff-Attempts, Costs, retry_with_backoff-Costs,
}
use public_nest_server.Payment.Idempotency.{
  text, json, processing_marker, CachedText, build_key, read_cached, stored_payment, find_by_key,
  try_claim, save,
}
use public_nest_server.Payment.Idempotency.Laws.{replayed, find_by_key-save, try_claim_exclusive}
use public_nest_server.Payment.CreatePayment.Created.{execute-IsCreated}
use public_nest_server.Payment.CreatePayment.Processed.{IsCreated}
use public_nest_server.Payment.CreatePayment.Replay.{execute-replays, negative_amount_blocks_key}
use public_nest_server.Payment.CreatePayment.Failing.{Left, execute-Left}
use public_nest_server.Payment.CreatePayment.{
  idempotency_ttl_seconds, CreatePaymentCommand, World, execute, claim_and_process, process, finish,
  settle, store_outcome, in_flight_result, request_approval, sleep, on_db, on_store, on_ledger,
  outcome_of, or_fail,
}

-- A gateway that gives its answers in order, and times out when it has none left.
abbrev answer :
    PgApprovalRequest
    → Action PaymentError (List (Result PaymentError PgApprovalResult)) PgApprovalResult
answer request [] = (err (external "timeout"), [])
answer request (a ∷ answers) = (a, answers)

abbrev scripted : PgAdapter
scripted = record {
  Pg = List (Result PaymentError PgApprovalResult);
  request_approval = answer;
  list_transactions = λ from to s. (ok [], s);
  verify_webhook_signature = λ payload signature. true;
}

abbrev approval : PgApprovalResult
approval = record { approved = true; pg_transaction_id = "pg-1"; reason = none }

abbrev order : CreatePaymentCommand
order = record {
  user_id = 7;
  amount = pos 1500;
  currency = "KRW";
  payment_method = "CARD";
  product_id = "sku-1";
  quantity = "2";
  idempotency_key = "key-1";
}

-- The gateway fails once, and then approves.
abbrev before : World memory memory_store scripted
before = record {
  db = record { rows = []; events = [] };
  store = [];
  ledger = err (external "reset") ∷ ok approval ∷ [];
  slept = [];
}

abbrev paid : Payment
paid = record {
  id = some 1;
  user_id = 7;
  money = record { amount = pos 1500; currency = "KRW" };
  payment_method = "CARD";
  product_id = "sku-1";
  quantity = "2";
  status = completed;
  created_at = some 0;
  domain_events = [];
}

execute-paid : (execute memory memory_store scripted 100 order before).0 ≡ ok paid
unfolding execute claim_and_process process finish settle store_outcome in_flight_result
    request_approval sleep on_db on_store on_ledger outcome_of or_fail find_by_key read_cached
    try_claim save money_of is_blank persist persist_with_events save_all save_events to_domain
    to_orm_entity to_outbox_entity event_type restore create complete fail with_status
    add_domain_event payload_of pull_domain_events retry_from retry_with_backoff stored_payment
    build_key
execute-paid = refl

execute-IsCreated_example :
    IsCreated memory memory_store scripted 100 order paid before
      (execute memory memory_store scripted 100 order before).1
execute-IsCreated_example =
    execute-IsCreated memory memory_store scripted 100 order paid before refl execute-paid

-- What the store holds under the key afterwards.
abbrev kept : Option CachedText
kept = some (json (stored_payment paid))

kept-read :
    memory_store.get
      (build_key "key-1")
      (execute memory memory_store scripted 100 order before).1.store
    ≡ ok kept
unfolding execute claim_and_process process finish settle store_outcome in_flight_result
    request_approval sleep on_db on_store on_ledger outcome_of or_fail find_by_key read_cached
    try_claim save money_of is_blank persist persist_with_events save_all save_events to_domain
    to_orm_entity to_outbox_entity event_type restore create complete fail with_status
    add_domain_event payload_of pull_domain_events retry_from retry_with_backoff stored_payment
    build_key
kept-read = refl

execute-replays_example :
    let w' = (execute memory memory_store scripted 100 order before).1 in
    (q : Payment) × (execute memory memory_store scripted 900 order w' ≡ (ok q, w'))
    × SamePayment paid q
    × (q.id ≡ paid.id)
execute-replays_example =
    execute-replays memory memory_store scripted 100 900 order order paid kept before refl
      execute-paid kept-read

abbrev refund : CreatePaymentCommand
refund = record order { amount = negsuc 4 }

-- A negative amount is refused, and the key stays claimed.
refund_blocks_key :
    let (r, w') = execute memory memory_store scripted 100 refund before in
    (r ≡ err negative_amount)
    × (w'.db ≡ before.db)
    × (w'.ledger ≡ before.ledger)
    × ((execute memory memory_store scripted 900 order w').0 ≡ err (in_flight "key-1"))
unfolding try_claim build_key
refund_blocks_key =
    negative_amount_blocks_key memory memory_store scripted 100 900 refund order true false
      (some (text processing_marker)) (some (text processing_marker)) before refl refl refl refl
      refl refl refl

execute-Left_example :
    Left memory memory_store scripted "key-1" negative_amount
      (try_claim memory_store "key-1" idempotency_ttl_seconds before.store).1
      before.db
      (execute memory memory_store scripted 100 refund before).1
execute-Left_example =
    execute-Left memory memory_store scripted 100 refund negative_amount before refund_blocks_key.0

paid-Run :
    Run
      (create (record {
        user_id = 7;
        money = record { amount = pos 1500; currency = "KRW" };
        payment_method = "CARD";
        product_id = "sku-1";
        quantity = "2";
      }))
      (payment_completed
          (record {
            payment_id = none;
            user_id = 7;
            amount = pos 1500;
            currency = "KRW";
            product_id = "sku-1";
          })
          5
        ∷ [])
      (record paid { id = none; created_at = none })
unfolding create complete with_status add_domain_event payload_of pull_domain_events
paid-Run = pulls (completes 5 start refl) refl refl

Run-IsHistory_example :
    IsHistory
      (record paid { id = none; created_at = none })
      (payment_completed
          (record {
            payment_id = none;
            user_id = 7;
            amount = pos 1500;
            currency = "KRW";
            product_id = "sku-1";
          })
          5
        ∷ [])
Run-IsHistory_example = Run-IsHistory _ _ _ paid-Run

paid-IsPayable : IsPayable paid
unfolding money_of is_blank
paid-IsPayable = refl

persist_with_events-Persisted_example :
    Persisted memory paid
      (payment_completed (payload_of paid) 5 ∷ [])
      before.db
      (persist_with_events memory paid (payment_completed (payload_of paid) 5 ∷ []) before.db)
persist_with_events-Persisted_example =
    persist_with_events-Persisted memory paid (payment_completed (payload_of paid) 5 ∷ []) before.db
      paid-IsPayable

-- A call that fails twice before it succeeds; the state counts the calls and adds up the sleeps.
abbrev flaky : Action String (ℕ × ℕ) ℕ
flaky (calls, slept) = (if leb 2 calls then ok calls else err "down", (calls + 1, slept))

abbrev doze : ℕ → ℕ × ℕ → ℕ × ℕ
doze ms (calls, slept) = (calls, slept + ms)

abbrev patient : RetryOptions
patient = record { max_attempts = 3; base_delay_ms = 200 }

retry-flaky : retry_with_backoff flaky doze patient (0, 0) ≡ (ok 2, (3, 600))
unfolding retry_with_backoff retry_from
retry-flaky = refl

retry_with_backoff-Attempts_example :
    Attempts flaky doze patient 1
      (0, 0)
      (retry_with_backoff flaky doze patient (0, 0)).0
      (retry_with_backoff flaky doze patient (0, 0)).1
retry_with_backoff-Attempts_example =
    retry_with_backoff-Attempts flaky doze patient (0, 0) (omega arith)

saved-key : (save memory_store "key-1" paid 60 []).0 ≡ ok tt
unfolding save
saved-key = refl

saved-read : memory_store.get (build_key "key-1") (save memory_store "key-1" paid 60 []).1 ≡ ok kept
unfolding save build_key stored_payment
saved-read = refl

find_by_key-save_example :
    let s' = (save memory_store "key-1" paid 60 []).1 in
    find_by_key memory_store "key-1" s' ≡ (ok (some (replayed paid)), s')
find_by_key-save_example =
    find_by_key-save memory_store "key-1" paid 60 tt kept [] paid-IsPayable saved-key saved-read

claimed-key : (try_claim memory_store "key-1" 60 []).0 ≡ ok true
unfolding try_claim build_key
claimed-key = refl
