-- ===== src/Payment/Webhook/Laws.antt =====
-- What a webhook does to the payment that it names, once and twice.
use public_nest_server.Base.{
  ℕ, ◌≡◌, ◌≢◌, refl, sym, ap, ◌∙◌, Option, some, List, [], ◌∷◌, ◌++◌, Bool, true, false, ok, arith,
  inl, inr, Option-cases, Result, Result-cases, map, ◌⊎◌, ⊤, if◌then◌else◌,
}
use public_nest_server.Payment.Model.{
  Payment, PaymentStatus, pending, completed, failed, PaymentError, DomainEvent, payment_completed,
  payment_failed, payload_of, money_of, complete, fail, with_status, add_domain_event,
  pull_domain_events, restore,
}
use public_nest_server.Payment.Database.{
  Database, PaymentOrmEntity, PaymentOutboxOrmEntity, without_id,
}
use public_nest_server.Payment.Repository.{
  to_domain, to_outbox_entity, to_orm_entity, row_to_domain, find_payment_by_id,
  persist_with_events,
}
use public_nest_server.Payment.Repository.Laws.{
  IsPayable, SamePayment, Persisted-ok, persist_with_events-Persisted, to_domain-to_orm_entity,
}
use public_nest_server.Payment.Idempotency.Laws.{restore-IsPayable}
use public_nest_server.Payment.Webhook.{
  HandlePgWebhookCommand, resolve, handle_found, handle_pg_webhook,
}

-- The event of a verdict, and the status that it gives.
abbrev pub verdict_event : Bool → ℕ → Payment → DomainEvent
verdict_event true now p = payment_completed (payload_of p) now
verdict_event false now p = payment_failed (payload_of p) now

abbrev pub verdict_status : Bool → PaymentStatus
verdict_status approved = if approved then completed else failed

-- `complete` or `fail` of a pending payment.
resolved : Bool → ℕ → Payment → Payment
resolved approved now p = record p {
  status = verdict_status approved;
  domain_events = verdict_event approved now p ∷ [];
}

resolved_lem :
    (approved : Bool) (now : ℕ) (p : Payment)
    → p.status ≡ pending
    → (if approved then complete now p else fail now p) ≡ ok (resolved approved now p)
unfolding resolved complete fail with_status add_domain_event payload_of
resolved_lem true now p e = ground arith
resolved_lem false now p e = ground arith

pub to_domain-IsPayable :
    (row : PaymentOrmEntity) (p : Payment) → to_domain row ≡ ok p → IsPayable p
unfolding to_domain
to_domain-IsPayable row p h = restore-IsPayable _ p h

to_domain-id : (row : PaymentOrmEntity) (p : Payment) → to_domain row ≡ ok p → p.id ≡ row.id
unfolding to_domain restore
to_domain-id row p h = elim (Result-cases (money_of row.amount row.currency)) [
  | inl (m, e) ↦ ground arith
  | inr (x, e) ↦ absurd (ground arith)
]

module _ (base : Database) where
  open base use {Db, find_payment, query_payment, outbox}

  -- The payment with the id `key` has been resolved by a verdict, and one event says so.
  pub record IsResolved (approved : Bool) (now : ℕ) (key : ℕ) (p : Payment) (db db' : Db)
      : Type 0 where
    pub row : PaymentOrmEntity
    pub stored : find_payment key db' ≡ some row
    pub q : Payment
    pub read : to_domain row ≡ ok q
    pub same : SamePayment (record p { status = verdict_status approved }) q
    pub others : (i : ℕ) → i ≢ key → find_payment i db' ≡ find_payment i db
    pub added : List PaymentOutboxOrmEntity
    pub appended : outbox db' ≡ outbox db ++ added
    pub event :
        map without_id added ≡ to_outbox_entity (some key) (verdict_event approved now p) ∷ []

  -- Resolving a pending payment that has an id, on any database: it does not look at the row.
  pub resolve-IsResolved :
      (approved : Bool) (now key : ℕ) (p : Payment) (u : ⊤) (db : Db)
      → p.status ≡ pending
      → p.id ≡ some key
      → IsPayable p
      → (resolve base now approved p db).0 ≡ ok u
      → IsResolved approved now key p db (resolve base now approved p db).1
  unfolding resolve pull_domain_events resolved to_orm_entity
  resolve-IsResolved approved now key p u db is_pending id valid h =
      let outcome : Payment = resolved approved now p in
      let pulled : Payment = record outcome { domain_events = [] } in
      let write : Result PaymentError Payment × Db =
        persist_with_events base pulled outcome.domain_events db in
      let settles = resolved_lem approved now p is_pending in
      elim (Result-cases write.0) [
        | inr (x, e) ↦ absurd (ground arith)
        | inl (q, e) ↦
            let (saved, s, same, _) =
              Persisted-ok base pulled q outcome.domain_events db write
                (persist_with_events-Persisted base pulled outcome.domain_events db valid) e in
            let kept : key ≡ s.key = s.kept_key key id in
            let end : (resolve base now approved p db).1 ≡ write.1 = ground arith in
            let (r, read, same_r, _, _) =
              to_domain-to_orm_entity pulled s.row valid s.row_columns in
            rw end record {
              row = s.row;
              stored = rw kept s.stored;
              q = r;
              read = read;
              same = same_r;
              others = λ i ne. s.others i (λ c. ne (c ∙ sym kept));
              added = s.added;
              appended = s.appended;
              event = rw kept s.recorded;
            }
      ]

  pub row_id :
      (row : PaymentOrmEntity) (p : Payment) (key : ℕ) (db : Db)
      → find_payment key db ≡ some row
      → to_domain row ≡ ok p
      → p.id ≡ some key
  row_id row p key db stored read =
      to_domain-id row p read ∙ base.find_payment-key key db row stored

  -- A webhook for a payment that the query finds, by the payment's status.
  settled_ignored :
      (now : ℕ) (command : HandlePgWebhookCommand) (row : PaymentOrmEntity) (p : Payment) (db : Db)
      → query_payment command.payment_id db ≡ ok (some row)
      → to_domain row ≡ ok p
      → p.status ≢ pending
      → handle_pg_webhook base now command db ≡ (ok tt, db)
  unfolding handle_pg_webhook handle_found find_payment_by_id row_to_domain
  settled_ignored now command row p db stored read not_pending = ground arith

  pub pending_resolves :
      (now : ℕ) (command : HandlePgWebhookCommand) (row : PaymentOrmEntity) (p : Payment) (db : Db)
      → query_payment command.payment_id db ≡ ok (some row)
      → to_domain row ≡ ok p
      → p.status ≡ pending
      → handle_pg_webhook base now command db ≡ resolve base now command.approved p db
  unfolding handle_pg_webhook handle_found find_payment_by_id row_to_domain
  pending_resolves now command row p db stored read is_pending = ground arith

  -- A webhook that does not throw has found its payment.
  pub found_payment :
      (now : ℕ) (command : HandlePgWebhookCommand) (u : ⊤) (db : Db)
      → (handle_pg_webhook base now command db).0 ≡ ok u
      → (row : PaymentOrmEntity) × (p : Payment) × (query_payment command.payment_id db
          ≡ ok (some row))
        × (find_payment command.payment_id db ≡ some row)
        × (to_domain row ≡ ok p)
  unfolding handle_pg_webhook handle_found find_payment_by_id row_to_domain
  found_payment now command u db h = elim (Result-cases (query_payment command.payment_id db)) [
    | inr (x, e) ↦ absurd (ground arith)
    | inl (found, answered) ↦ elim (Option-cases found) [
      | inl missing ↦ absurd (ground arith)
      | inr (row, stored) ↦ elim (Result-cases (to_domain row)) [
        | inr (x, e) ↦ absurd (ground arith)
        | inl (p, read) ↦ (
          row,
          p,
          answered ∙ ap ok stored,
          sym (base.query_payment-ok command.payment_id found db answered) ∙ stored,
          read,
        )
      ]
    ]
  ]

  answers_with :
      (i : ℕ) (r : Option PaymentOrmEntity) (row : PaymentOrmEntity) (db : Db)
      → query_payment i db ≡ ok r
      → find_payment i db ≡ some row
      → query_payment i db ≡ ok (some row)
  answers_with i r row db answered stored =
      answered ∙ ap ok (base.query_payment-ok i r db answered ∙ stored)

  status_cases : (s : PaymentStatus) → (s ≡ pending) ⊎ (s ≢ pending)
  status_cases pending = inl refl
  status_cases completed = inr (cc)
  status_cases failed = inr (cc)

  verdict-ne-pending : (approved : Bool) → verdict_status approved ≢ pending
  verdict-ne-pending true = cc
  verdict-ne-pending false = cc

  -- Webhooks are idempotent: once one has been handled without an error, any later webhook for the
  -- same payment, approving or failing, whose query the database answers is accepted and changes
  -- nothing.
  pub handle_pg_webhook_idempotent :
      (now later : ℕ) (command again : HandlePgWebhookCommand) (u : ⊤) (r : Option PaymentOrmEntity)
      (db : Db)
      → again.payment_id ≡ command.payment_id
      → (handle_pg_webhook base now command db).0 ≡ ok u
      → let db' = (handle_pg_webhook base now command db).1 in
        query_payment command.payment_id db' ≡ ok r
        → handle_pg_webhook base later again db' ≡ (ok tt, db')
  handle_pg_webhook_idempotent now later command again u r db same h answered =
      let (row, p, queried, stored, read) = found_payment now command u db h in
      elim (status_cases p.status) [
        | inr settled ↦
            let end = settled_ignored now command row p db queried read settled in
            rw end (settled_ignored later again row p db (rw same queried) read settled)
        | inl is_pending ↦
            let end = pending_resolves now command row p db queried read is_pending in
            let done =
              resolve-IsResolved command.approved now command.payment_id p u db is_pending
                (row_id row p command.payment_id db stored read) (to_domain-IsPayable row p read)
                (ap (λ x. x.0) (sym end) ∙ h) in
            let db' : Db = (resolve base now command.approved p db).1 in
            let again_queried : query_payment command.payment_id db' ≡ ok (some done.row) =
              answers_with command.payment_id r done.row db'
                (ap (λ x. query_payment command.payment_id x.1) (sym end) ∙ answered) done.stored in
            rw end (
              settled_ignored later again done.row done.q db' (rw same again_queried) done.read
                (λ e. verdict-ne-pending command.approved (sym done.same.5 ∙ e)))
      ]
