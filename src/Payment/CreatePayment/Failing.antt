-- ===== src/Payment/CreatePayment/Failing.antt =====
-- What `CreatePaymentUseCase.execute` leaves behind when it throws.
use mathlib.Core.Path.{ap₂}
use mathlib.Core.List.{append-nil}
use public_nest_server.Base.{
  ℕ, ◌≡◌, refl, List, sym, ap, ◌∙◌, [], ◌++◌, ok, err, arith, inl, inr, Result, Result-cases,
  Option-cases, Bool-cases, String,
}
use public_nest_server.Payment.Model.{
  Payment, PaymentError, money_of, create, pull_domain_events, pending, DomainEvent,
}
use public_nest_server.Payment.Database.{Database, without_id}
use public_nest_server.Payment.Cache.{Redis}
use public_nest_server.Payment.Gateway.{PgAdapter}
use public_nest_server.Payment.Repository.{persist, persist_with_events}
use public_nest_server.Payment.Repository.Laws.{
  IsPayable, Persisted-ok, Persisted-err, persist-Persisted, persist_with_events-Persisted,
}
use public_nest_server.Payment.Idempotency.{CachedText, find_by_key, try_claim, save}
use public_nest_server.Payment.Idempotency.Laws.{money_of-fields}
use public_nest_server.Payment.CreatePayment.{
  CreatePaymentCommand, World, on_db, on_store, settle, store_outcome, finish, process,
  in_flight_result, claim_and_process, execute, new_payment, idempotency_ttl_seconds,
}
use public_nest_server.Payment.CreatePayment.Settling.{
  settle-db, settle-store, verdict, outcome_of-IsSettled, IsSettled-money,
}
use public_nest_server.Payment.CreatePayment.Processed.{nil_of_map}

module _ (base : Database) (redis : Redis CachedText) (pg : PgAdapter) where
  open base use {outbox}

  -- What a request that threw has left: the events that were there, or those that its last write of
  -- the database has added, after which the store threw when the payment that was written was to be
  -- saved under the key; `store` is what the store was before that.
  pub data Left (key : String) (x : PaymentError) (store : redis.Store) (db : base.Db)
      (w' : World base redis pg) : Type 0 where
    no_event : outbox w'.db ≡ outbox db → Left key x store db w'
    unsaved :
        (pulled q : Payment) (events : List DomainEvent) (before : base.Db)
        → outbox before ≡ outbox db
        → persist_with_events base pulled events before ≡ (ok q, w'.db)
        → save redis key q idempotency_ttl_seconds store ≡ (err x, w'.store)
        → Left key x store db w'

  Left-from :
      {key : String} {x : PaymentError} (store store₀ : redis.Store) (db db₀ : base.Db)
      (w' : World base redis pg)
      → outbox db ≡ outbox db₀
      → store ≡ store₀
      → Left key x store db w'
      → Left key x store₀ db₀ w'
  Left-from store store₀ db db₀ w' same kept (no_event e) = no_event (e ∙ same)
  Left-from store store₀ db db₀ w' same kept (unsaved pulled q events before there wrote threw) =
      unsaved pulled q events before (there ∙ same) wrote
        (ap (save redis _ q idempotency_ttl_seconds) (sym kept) ∙ threw)

  store_outcome-err :
      (command : CreatePaymentCommand) (outcome : Payment) (x : PaymentError)
      (w : World base redis pg)
      → IsPayable outcome
      → (store_outcome base redis pg command outcome w).0 ≡ err x
      → Left command.idempotency_key x w.store w.db
          (store_outcome base redis pg command outcome w).1
  unfolding store_outcome on_db on_store pull_domain_events
  store_outcome-err command outcome x w valid h =
      let pulled : Payment = (pull_domain_events outcome).0 in
      let write : Result PaymentError Payment × base.Db =
        persist_with_events base pulled outcome.domain_events w.db in
      elim (Result-cases write.0) [
        | inl (q, e) ↦
            let saving = save redis command.idempotency_key q idempotency_ttl_seconds w.store in
            elim (Result-cases saving.0) [
              | inl (u, e₂) ↦ absurd (ground arith)
              | inr (y, e₂) ↦
                  let wrote : write ≡ (ok q, write.1) = ap (λ r. (r, write.1)) e in
                  let threw : saving ≡ (err y, saving.1) = ap (λ r. (r, saving.1)) e₂ in
                  let end : store_outcome base redis pg command outcome w
                      ≡ (err y, record w { db = write.1; store = saving.1 }) =
                    ground arith in
                  let same : y ≡ x = ground arith in
                  unsaved pulled q outcome.domain_events w.db refl
                    (wrote ∙ ap (λ r. (ok q, r.1.db)) (sym end))
                    (threw
                      ∙ ap (λ z. (err z, saving.1)) same
                      ∙ ap (λ r. (err x, r.1.store)) (sym end))
            ]
        | inr (y, e) ↦
            let kept : write.1 ≡ w.db =
              Persisted-err base pulled y outcome.domain_events w.db write
                (persist_with_events-Persisted base pulled outcome.domain_events w.db valid) e in
            no_event (ground arith)
      ]

  finish-err :
      (now : ℕ) (command : CreatePaymentCommand) (p : Payment) (x : PaymentError)
      (w : World base redis pg)
      → p.status ≡ pending
      → IsPayable p
      → (finish base redis pg now command p w).0 ≡ err x
      → Left command.idempotency_key x w.store w.db (finish base redis pg now command p w).1
  unfolding finish settle
  finish-err now command p x w is_pending valid h =
      let (outcome, ends, settled) =
        outcome_of-IsSettled now p (verdict base redis pg p w) is_pending in
      let asked : World base redis pg = (settle base redis pg now p w).1 in
      let end : finish base redis pg now command p w
          ≡ store_outcome base redis pg command outcome asked =
        ground arith in
      let payable : IsPayable outcome =
        ap (λ m. money_of m.amount m.currency) (IsSettled-money settled)
        ∙ valid
        ∙ ap ok (sym (IsSettled-money settled)) in
      rw end (
        Left-from asked.store w.store asked.db w.db _ (ap outbox (settle-db base redis pg now p w))
          (settle-store base redis pg now p w)
          (store_outcome-err command outcome x asked payable (ap (λ r. r.0) (sym end) ∙ h)))

  process-err :
      (now : ℕ) (command : CreatePaymentCommand) (x : PaymentError) (w : World base redis pg)
      → (process base redis pg now command w).0 ≡ err x
      → Left command.idempotency_key x w.store w.db (process base redis pg now command w).1
  unfolding process on_db create
  process-err now command x w h = elim (Result-cases (money_of command.amount command.currency)) [
    | inr (y, e) ↦ no_event (ground arith)
    | inl (money, e) ↦
        let order : Payment = new_payment command money in
        let ordered = money_of-fields command.amount command.currency money e in
        let payable : IsPayable order = ap₂ money_of ordered.0 ordered.1 ∙ e in
        let write : Result PaymentError Payment × base.Db = persist base order w.db in
        elim (Result-cases write.0) [
          | inr (y, e₂) ↦
              let kept : write.1 ≡ w.db =
                Persisted-err base order y [] w.db write (persist-Persisted base order w.db payable)
                  e₂ in
              no_event (ground arith)
          | inl (p, e₂) ↦
              let mid : World base redis pg = record w { db = write.1 } in
              let end : process base redis pg now command w
                  ≡ finish base redis pg now command p mid =
                ground arith in
              let (first, stored, same, id) =
                Persisted-ok base order p [] w.db write (persist-Persisted base order w.db payable)
                  e₂ in
              rw end (
                Left-from mid.store w.store mid.db w.db _
                  (stored.appended
                    ∙ ap (λ l. outbox w.db ++ l)
                        (nil_of_map without_id stored.added stored.recorded)
                    ∙ append-nil _)
                  refl
                  (finish-err now command p x mid same.5
                    (ap (λ m. money_of m.amount m.currency) same.1 ∙ payable ∙ ap ok (sym same.1))
                    (ap (λ r. r.0) (sym end) ∙ h)))
        ]
  ]

  -- A request that throws has put no event in the outbox, unless what threw was the store, when the
  -- outcome, which its last write of the database had just stored with its events, was to be saved
  -- under the key that the request had claimed.
  pub execute-Left :
      (now : ℕ) (command : CreatePaymentCommand) (x : PaymentError) (w : World base redis pg)
      → (execute base redis pg now command w).0 ≡ err x
      → Left command.idempotency_key x
          (try_claim redis command.idempotency_key idempotency_ttl_seconds w.store).1
          w.db
          (execute base redis pg now command w).1
  unfolding execute claim_and_process in_flight_result on_store find_by_key
  execute-Left now command x w h =
      let key : String = command.idempotency_key in
      let claim = try_claim redis key idempotency_ttl_seconds w.store in
      let after : World base redis pg = record w { store = claim.1 } in
      elim (Result-cases (find_by_key redis key w.store).0) [
        | inr (y, e) ↦ no_event (ground arith)
        | inl (found, e) ↦ elim (Option-cases found) [
          | inr (q, there) ↦ absurd (ground arith)
          | inl absent ↦ elim (Result-cases claim.0) [
            | inr (y, e₂) ↦ no_event (ground arith)
            | inl (claimed, e₂) ↦ elim (Bool-cases claimed) [
              | inr refused ↦ no_event (ground arith)
              | inl won ↦
                  let end : execute base redis pg now command w
                      ≡ process base redis pg now command after =
                    ground arith in
                  rw end (process-err now command x after (ap (λ r. r.0) (sym end) ∙ h))
            ]
          ]
        ]
      ]
