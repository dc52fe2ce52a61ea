-- ===== src/Payment/Webhook/Verdicts.antt =====
-- Webhooks that are handled, and two that are handled at the same time.
use mathlib.Core.List.{map-append, append_assoc}
use public_nest_server.Base.{ℕ, ◌≡◌, sym, ap, ◌∙◌, some, [], ◌∷◌, ◌++◌, Bool, ok, arith, map, ⊤}
use public_nest_server.Payment.Model.{Payment, pending}
use public_nest_server.Payment.Database.{Database, PaymentOrmEntity, without_id}
use public_nest_server.Payment.Repository.{to_domain, to_outbox_entity}
use public_nest_server.Payment.Repository.Laws.{IsPayable}
use public_nest_server.Payment.Webhook.{HandlePgWebhookCommand, resolve, handle_pg_webhook}
use public_nest_server.Payment.Webhook.Laws.{
  verdict_event, to_domain-IsPayable, IsResolved, resolve-IsResolved, row_id, pending_resolves,
  found_payment,
}

module _ (base : Database) where
  open base use {Db, find_payment, query_payment, outbox}

  -- The first webhook for a PENDING payment, if it does not throw, gives the payment the status
  -- that it carries, keeps its other fields, touches no other payment and adds one event.
  pub handle_pg_webhook-IsResolved :
      (now : ℕ) (command : HandlePgWebhookCommand) (row : PaymentOrmEntity) (p : Payment) (u : ⊤)
      (db : Db)
      → find_payment command.payment_id db ≡ some row
      → to_domain row ≡ ok p
      → p.status ≡ pending
      → (handle_pg_webhook base now command db).0 ≡ ok u
      → IsResolved base command.approved now command.payment_id p db
          (handle_pg_webhook base now command db).1
  handle_pg_webhook-IsResolved now command row p u db stored read is_pending h =
      let (row', p', queried, stored', read') = found_payment base now command u db h in
      let same_row : row' ≡ row = ground arith in
      let here : query_payment command.payment_id db ≡ ok (some row) =
        queried ∙ ap (λ x. ok (some x)) same_row in
      let end = pending_resolves base now command row p db here read is_pending in
      rw end (
        resolve-IsResolved base command.approved now command.payment_id p u db is_pending
          (row_id base row p command.payment_id db stored read) (to_domain-IsPayable row p read)
          (ap (λ x. x.0) (sym end) ∙ h))

  -- Two webhooks that have both read a payment as PENDING before either has written do both write:
  -- the outbox gets the event of each verdict, also when one approves and the other fails, and the
  -- payment keeps the later verdict. Nothing in the write checks the status again.
  concurrent_webhooks_both_publish :
      (first second : Bool) (t₁ t₂ key : ℕ) (p : Payment) (u v : ⊤) (db : Db)
      → p.status ≡ pending
      → p.id ≡ some key
      → IsPayable p
      → (resolve base t₁ first p db).0 ≡ ok u
      → let db₁ = (resolve base t₁ first p db).1 in
        (resolve base t₂ second p db₁).0 ≡ ok v
        → let db₂ = (resolve base t₂ second p db₁).1 in
          (row : PaymentOrmEntity) × (find_payment key db₂ ≡ some row)
          × (map without_id (outbox db₂)
              ≡ map without_id (outbox db)
                ++ to_outbox_entity (some key) (verdict_event first t₁ p)
                  ∷ to_outbox_entity (some key) (verdict_event second t₂ p)
                  ∷ [])
  concurrent_webhooks_both_publish first second t₁ t₂ key p u v db is_pending id valid h₁ h₂ =
      let r₁ = resolve-IsResolved base first t₁ key p u db is_pending id valid h₁ in
      let r₂ = resolve-IsResolved base second t₂ key p v _ is_pending id valid h₂ in
      (
        r₂.row,
        r₂.stored,
        simp (r₂.appended, r₁.appended, map-append, r₁.event, r₂.event, append_assoc),
      )
