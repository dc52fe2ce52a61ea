-- ===== src/Payment/CreatePayment/Created.antt =====
-- The contract of `CreatePaymentUseCase.execute` for a key that no request has used.
use mathlib.Core.Path.{subst}
use public_nest_server.Base.{
  ℕ, String, Bool, true, ◌≡◌, refl, sym, ap, ◌∙◌, none, ok, arith, inl, inr, Result-cases,
}
use public_nest_server.Payment.Model.{Payment}
use public_nest_server.Payment.Database.{Database}
use public_nest_server.Payment.Cache.{Redis}
use public_nest_server.Payment.Gateway.{PgAdapter}
use public_nest_server.Payment.Idempotency.{
  CachedText, text, processing_marker, build_key, read_cached, find_by_key, try_claim,
}
use public_nest_server.Payment.CreatePayment.{
  CreatePaymentCommand, World, on_store, process, claim_and_process, execute,
  idempotency_ttl_seconds,
}
use public_nest_server.Payment.CreatePayment.Processed.{IsCreated, process-IsCreated}

module _ (base : Database) (redis : Redis CachedText) (pg : PgAdapter) where
  open base use {find_payment, outbox}

  -- Two worlds that differ in the store alone.
  IsCreated-store :
      (now : ℕ) (command : CreatePaymentCommand) (p : Payment) (w w' : World base redis pg)
      (store : redis.Store)
      → IsCreated base redis pg now command p (record w { store = store }) w'
      → IsCreated base redis pg now command p w w'
  IsCreated-store now command p w w' store c = record {
    key = c.key;
    id = c.id;
    fresh = c.fresh;
    ordered = c.ordered;
    pending = c.pending;
    asked = c.asked;
    pending_id = c.pending_id;
    same_ledger = c.same_ledger;
    status = c.status;
    row = c.row;
    stored = c.stored;
    columns = c.columns;
    others = c.others;
    added = c.added;
    appended = c.appended;
    event = c.event;
    payable = c.payable;
    cached = c.cached;
  }

  -- With nothing under its key, a request that Redis answers claims the key and goes on to create
  -- the payment.
  pub execute-claims :
      (now : ℕ) (command : CreatePaymentCommand) (reply : Bool) (w : World base redis pg)
      → redis.get (build_key command.idempotency_key) w.store ≡ ok none
      → (try_claim redis command.idempotency_key idempotency_ttl_seconds w.store).0 ≡ ok reply
      → execute base redis pg now command w
        ≡ process base redis pg now command (record w {
          store = (try_claim redis command.idempotency_key idempotency_ttl_seconds w.store).1;
        })
  unfolding execute claim_and_process find_by_key try_claim read_cached on_store
  execute-claims now command reply w unused claimed =
      let k : String = build_key command.idempotency_key in
      let nothing : redis.content k w.store ≡ none = sym (redis.get-ok k none w.store unused) in
      let won : reply ≡ true =
        (redis.set_nx-ok k k (text processing_marker) idempotency_ttl_seconds reply w.store
          claimed).0
        ∙ rw nothing refl in
      ground arith

  -- A request with nothing under its key that returns has claimed the key.
  claim_answered :
      (now : ℕ) (command : CreatePaymentCommand) (p : Payment) (w : World base redis pg)
      → redis.get (build_key command.idempotency_key) w.store ≡ ok none
      → (execute base redis pg now command w).0 ≡ ok p
      → (reply : Bool) × ((try_claim redis command.idempotency_key idempotency_ttl_seconds
            w.store).0
          ≡ ok reply)
  unfolding execute claim_and_process find_by_key read_cached on_store
  claim_answered now command p w unused h =
      elim (Result-cases
        (try_claim redis command.idempotency_key idempotency_ttl_seconds w.store).0) [
          | inl (reply, e) ↦ (reply, e)
          | inr (x, e) ↦ absurd (ground arith)
        ]

  -- A request that finds nothing under its key, if it returns, has created a payment:
  -- stored under a new id with the ordered fields, COMPLETED if the gateway approved it within the
  -- retries and FAILED otherwise, never PENDING, with exactly one event of that outcome in the
  -- outbox, no other payment changed, and the payment saved under the key.
  pub execute-IsCreated :
      (now : ℕ) (command : CreatePaymentCommand) (p : Payment) (w : World base redis pg)
      → redis.get (build_key command.idempotency_key) w.store ≡ ok none
      → (execute base redis pg now command w).0 ≡ ok p
      → IsCreated base redis pg now command p w (execute base redis pg now command w).1
  execute-IsCreated now command p w unused h =
      let claimed : redis.Store =
        (try_claim redis command.idempotency_key idempotency_ttl_seconds w.store).1 in
      let (reply, answered) = claim_answered now command p w unused h in
      let end = execute-claims now command reply w unused answered in
      subst (λ r. IsCreated base redis pg now command p w r.1) (sym end)
        (IsCreated-store now command p w _ claimed (
          process-IsCreated base redis pg now command p (record w { store = claimed })
            (ap (λ r. r.0) (sym end) ∙ h)))
