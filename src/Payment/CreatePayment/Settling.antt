-- ===== src/Payment/CreatePayment/Settling.antt =====
-- What `CreatePaymentUseCase.execute` guarantees, from the laws of the database, of the store and
-- of the retries.
use mathlib.Core.Path.{subst}
use public_nest_server.Base.{
  ℕ, ◌≡◌, refl, sym, ap, ◌∙◌, Option, [], ◌∷◌, String, true, false, Result, ok, err, arith, inl,
  inr, Bool-cases, Result-cases,
}
use public_nest_server.Payment.Model.{
  Payment, pending, completed, failed, PaymentError, payment_completed, payment_failed, payload_of,
  money_of, complete, fail, pull_domain_events, with_status, add_domain_event,
}
use public_nest_server.Payment.Database.{Database, PaymentOrmEntity}
use public_nest_server.Payment.Cache.{Redis}
use public_nest_server.Payment.Gateway.{PgAdapter, PgApprovalResult}
use public_nest_server.Payment.Repository.{persist_with_events}
use public_nest_server.Payment.Repository.Laws.{
  IsPayable, SamePayment, IsStored, Persisted-ok, persist_with_events-Persisted,
}
use public_nest_server.Payment.Idempotency.{CachedText, save}
use public_nest_server.Payment.Idempotency.Laws.{Holds, save-Holds}
use public_nest_server.Payment.Retry.{retry_with_backoff}
use public_nest_server.Payment.Retry.Laws.{retry_with_backoff-keeps}
use public_nest_server.Payment.CreatePayment.{
  CreatePaymentCommand, World, on_db, on_store, on_ledger, sleep, request_approval, outcome_of,
  or_fail, settle, store_outcome, finish, pg_retry_options, idempotency_ttl_seconds,
}

-- How a pending payment is settled: completed if the gateway approved it, failed if it declined
-- it or if every attempt threw; the one event says the same.
pub data IsSettled (now : ℕ) (p q : Payment)
    : Result (Option PaymentError) PgApprovalResult → Type 0 where
  approves :
      {a : PgApprovalResult}
      → a.approved ≡ true
      → q
        ≡ record p { status = completed; domain_events = payment_completed (payload_of p) now ∷ [] }
      → IsSettled now p q (ok a)
  declines :
      {a : PgApprovalResult}
      → a.approved ≡ false
      → q ≡ record p { status = failed; domain_events = payment_failed (payload_of p) now ∷ [] }
      → IsSettled now p q (ok a)
  unreachable :
      {last : Option PaymentError}
      → q ≡ record p { status = failed; domain_events = payment_failed (payload_of p) now ∷ [] }
      → IsSettled now p q (err last)

pub outcome_of-IsSettled :
    (now : ℕ) (p : Payment) (r : Result (Option PaymentError) PgApprovalResult)
    → p.status ≡ pending
    → (q : Payment) × (outcome_of now p r ≡ ok q) × IsSettled now p q r
unfolding outcome_of or_fail complete fail with_status add_domain_event payload_of
outcome_of-IsSettled now p (err last) e = (_, ground arith, unreachable refl)
outcome_of-IsSettled now p (ok a) e = elim (Bool-cases a.approved) [
  | inl approved ↦ (_, ground arith, approves approved refl)
  | inr declined ↦ (_, ground arith, declines declined refl)
]

pub IsSettled-money :
    {now : ℕ} {p q : Payment} {r : Result (Option PaymentError) PgApprovalResult}
    → IsSettled now p q r
    → q.money ≡ p.money
IsSettled-money (approves a e) = ap (λ q. q.money) e
IsSettled-money (declines a e) = ap (λ q. q.money) e
IsSettled-money (unreachable e) = ap (λ q. q.money) e

module _ (base : Database) (redis : Redis CachedText) (pg : PgAdapter) where
  pub settle-db :
      (now : ℕ) (p : Payment) (w : World base redis pg) → (settle base redis pg now p w).1.db ≡ w.db
  unfolding settle on_ledger request_approval sleep
  settle-db now p w =
      retry_with_backoff-keeps (request_approval base redis pg p) (sleep base redis pg)
        pg_retry_options (λ w. w.db) (λ s. refl) (λ d s. refl) w

  pub settle-store :
      (now : ℕ) (p : Payment) (w : World base redis pg)
      → (settle base redis pg now p w).1.store ≡ w.store
  unfolding settle on_ledger request_approval sleep
  settle-store now p w =
      retry_with_backoff-keeps (request_approval base redis pg p) (sleep base redis pg)
        pg_retry_options (λ w. w.store) (λ s. refl) (λ d s. refl) w

  -- The state after `settle`, and the payment's verdict from the gateway's.
  abbrev pub verdict : Payment → World base redis pg → Result (Option PaymentError) PgApprovalResult
  verdict p w =
      (retry_with_backoff (request_approval base redis pg p) (sleep base redis pg) pg_retry_options
        w).0

  -- What is true when the outcome of a payment has been stored and `q` is returned.
  pub record IsRecorded (key : String) (outcome q : Payment) (db db' : base.Db)
      (store' : redis.Store) : Type 0 where
    pub saved : PaymentOrmEntity
    pub stored :
        IsStored base (pull_domain_events outcome).0 (pull_domain_events outcome).1 saved db db'
    pub same : SamePayment (pull_domain_events outcome).0 q
    pub same_id : q.id ≡ saved.id
    pub payable : IsPayable q
    pub cached : Holds redis key q store'

  pub store_outcome-IsRecorded :
      (command : CreatePaymentCommand) (outcome q : Payment) (w : World base redis pg)
      → IsPayable outcome
      → (store_outcome base redis pg command outcome w).0 ≡ ok q
      → let w' = (store_outcome base redis pg command outcome w).1 in
        IsRecorded command.idempotency_key outcome q w.db w'.db w'.store
  unfolding store_outcome on_db on_store pull_domain_events
  store_outcome-IsRecorded command outcome q w valid h =
      let pulled : Payment = (pull_domain_events outcome).0 in
      let write : Result PaymentError Payment × base.Db =
        persist_with_events base pulled outcome.domain_events w.db in
      elim (Result-cases write.0) [
        | inr (x, e) ↦ absurd (ground arith)
        | inl (r, e) ↦
            let saving = save redis command.idempotency_key r idempotency_ttl_seconds w.store in
            elim (Result-cases saving.0) [
              | inr (x, refused) ↦ absurd (ground arith)
              | inl (u, kept) ↦
                  let r_is_q : r ≡ q = ground arith in
                  let done : write.0 ≡ ok q = e ∙ ap ok r_is_q in
                  let end_db : (store_outcome base redis pg command outcome w).1.db ≡ write.1 =
                    ground arith in
                  let end_store : (store_outcome base redis pg command outcome w).1.store
                      ≡ saving.1 =
                    ground arith in
                  let (saved, stored, same, id) =
                    Persisted-ok base pulled q outcome.domain_events w.db write
                      (persist_with_events-Persisted base pulled outcome.domain_events w.db valid)
                      done in
                  record {
                    saved = saved;
                    stored = rw end_db stored;
                    same = same;
                    same_id = id;
                    payable =
                        ap (λ m. money_of m.amount m.currency) same.1 ∙ valid ∙ ap ok (sym same.1);
                    cached =
                        rw (end_store, ← r_is_q)
                          (save-Holds redis command.idempotency_key r idempotency_ttl_seconds u
                            w.store kept);
                  }
            ]
      ]

  -- `finish` settles the payment by the gateway's verdict, and records the outcome.
  pub finish-IsRecorded :
      (now : ℕ) (command : CreatePaymentCommand) (p q : Payment) (w : World base redis pg)
      → p.status ≡ pending
      → IsPayable p
      → (finish base redis pg now command p w).0 ≡ ok q
      → let w' = (finish base redis pg now command p w).1 in
        (outcome : Payment) × IsSettled now p outcome (verdict p w)
        × IsRecorded command.idempotency_key outcome q w.db w'.db w'.store
  unfolding finish settle
  finish-IsRecorded now command p q w is_pending valid h =
      let (outcome, ends, settled) = outcome_of-IsSettled now p (verdict p w) is_pending in
      let asked : World base redis pg = (settle base redis pg now p w).1 in
      let end : finish base redis pg now command p w
          ≡ store_outcome base redis pg command outcome asked =
        ground arith in
      let payable : IsPayable outcome =
        ap (λ m. money_of m.amount m.currency) (IsSettled-money settled)
        ∙ valid
        ∙ ap ok (sym (IsSettled-money settled)) in
      let key : String = command.idempotency_key in
      let stored : Result PaymentError Payment × World base redis pg =
        store_outcome base redis pg command outcome asked in
      let recorded : IsRecorded key outcome q asked.db stored.1.db stored.1.store =
        store_outcome-IsRecorded command outcome q asked payable (ap (λ r. r.0) (sym end) ∙ h) in
      let from_here : IsRecorded key outcome q w.db stored.1.db stored.1.store =
        subst (λ d. IsRecorded key outcome q d stored.1.db stored.1.store) (settle-db now p w)
          recorded in
      (
        outcome,
        settled,
        subst (λ r. IsRecorded key outcome q w.db r.1.db r.1.store) (sym end) from_here,
      )
