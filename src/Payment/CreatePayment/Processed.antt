-- ===== src/Payment/CreatePayment/Processed.antt =====
-- What the processing of a request with a free key leaves.
use mathlib.Core.Path.{ap₂, subst}
use mathlib.Core.List.{append-nil}
use public_nest_server.Base.{
  ℕ, ◌≡◌, ◌≢◌, refl, sym, ap, ◌∙◌, Option, none, some, List, [], ◌∷◌, ◌++◌, Result, ok, err, arith,
  inl, inr, Result-cases, map, if◌then◌else◌,
}
use public_nest_server.Payment.Model.{
  Payment, Money, PaymentStatus, completed, failed, PaymentError, DomainEvent, payment_completed,
  payment_failed, payload_of, money_of, create, pull_domain_events,
}
use public_nest_server.Payment.Database.{
  Database, PaymentOrmEntity, PaymentOutboxOrmEntity, SameColumns, without_id,
}
use public_nest_server.Payment.Cache.{Redis}
use public_nest_server.Payment.Gateway.{PgAdapter, PgApprovalResult}
use public_nest_server.Payment.Repository.{persist, to_orm_entity, to_outbox_entity}
use public_nest_server.Payment.Repository.Laws.{
  IsPayable, SamePayment, IsStored, Persisted-ok, persist-Persisted,
}
use public_nest_server.Payment.Idempotency.{CachedText}
use public_nest_server.Payment.Idempotency.Laws.{Holds, money_of-fields}
use public_nest_server.Payment.CreatePayment.{
  CreatePaymentCommand, World, on_db, finish, process, new_payment,
}
use public_nest_server.Payment.CreatePayment.Settling.{
  IsSettled, approves, declines, unreachable, verdict, IsRecorded, finish-IsRecorded,
}

-- The status that the gateway's last word asks for.
abbrev pub decided : Result (Option PaymentError) PgApprovalResult → PaymentStatus
decided (ok approval) = if approval.approved then completed else failed
decided (err last) = failed

-- The event of a payment with a final status.
abbrev pub settled_event : PaymentStatus → ℕ → Payment → DomainEvent
settled_event completed now p = payment_completed (payload_of p) now
settled_event _ now p = payment_failed (payload_of p) now

-- The payment is the one that was ordered.
abbrev pub IsOrdered : CreatePaymentCommand → Payment → Type 0
IsOrdered command p =
    (p.user_id ≡ command.user_id)
    × (p.money.amount ≡ command.amount)
    × (p.money.currency ≡ command.currency)
    × (p.payment_method ≡ command.payment_method)
    × (p.product_id ≡ command.product_id)
    × (p.quantity ≡ command.quantity)

IsSettled-id :
    {now : ℕ} {p q : Payment} {r : Result (Option PaymentError) PgApprovalResult}
    → IsSettled now p q r
    → q.id ≡ p.id
IsSettled-id (approves a e) = ap (λ q. q.id) e
IsSettled-id (declines a e) = ap (λ q. q.id) e
IsSettled-id (unreachable e) = ap (λ q. q.id) e

settled_as :
    {now : ℕ} (p q outcome : Payment) {r : Result (Option PaymentError) PgApprovalResult}
    → IsSettled now p outcome r
    → SamePayment (pull_domain_events outcome).0 q
    → q.id ≡ p.id
    → (q.status ≡ decided r)
      × (outcome.id ≡ p.id)
      × SamePayment p (record q { status = p.status })
      × (outcome.domain_events ≡ settled_event q.status now q ∷ [])
unfolding pull_domain_events payload_of
settled_as p q outcome (approves a e) same id =
    (ground arith, ground arith, ground arith, ground arith)
settled_as p q outcome (declines a e) same id =
    (ground arith, ground arith, ground arith, ground arith)
settled_as p q outcome (unreachable e) same id =
    (ground arith, ground arith, ground arith, ground arith)

pub nil_of_map {ℓ κ} : {A : Type ℓ} {B : Type κ} (f : A → B) (xs : List A) → map f xs ≡ [] → xs ≡ []
nil_of_map f [] h = refl
nil_of_map f (x ∷ xs) h = cc

-- The columns of a payment that was read back.
columns_of :
    (p q : Payment) (row : PaymentOrmEntity)
    → SamePayment p q
    → SameColumns (to_orm_entity p) row
    → SameColumns (to_orm_entity q) row
unfolding to_orm_entity
columns_of p q row same columns = ground arith

module _ (base : Database) (redis : Redis CachedText) (pg : PgAdapter) where
  open base use {find_payment, outbox}

  -- What is true when a request whose key is new has returned `p`.
  pub record IsCreated (now : ℕ) (command : CreatePaymentCommand) (p : Payment)
      (w w' : World base redis pg) : Type 0 where
    pub key : ℕ
    pub id : p.id ≡ some key
    pub fresh : find_payment key w.db ≡ none
    pub ordered : IsOrdered command p
    -- the gateway was asked about the stored payment, with its ledger as the request found it
    pub pending : Payment
    pub asked : World base redis pg
    pub pending_id : pending.id ≡ some key
    pub same_ledger : asked.ledger ≡ w.ledger
    pub status : p.status ≡ decided (verdict base redis pg pending asked)
    -- the payment is stored as it is returned, and every other payment is as before
    pub row : PaymentOrmEntity
    pub stored : find_payment key w'.db ≡ some row
    pub columns : SameColumns (to_orm_entity p) row
    pub others : (i : ℕ) → i ≢ key → find_payment i w'.db ≡ find_payment i w.db
    -- one event has joined the outbox
    pub added : List PaymentOutboxOrmEntity
    pub appended : outbox w'.db ≡ outbox w.db ++ added
    pub event :
        map without_id added ≡ to_outbox_entity (some key) (settled_event p.status now p) ∷ []
    -- and the key now holds the payment
    pub payable : IsPayable p
    pub cached : Holds redis command.idempotency_key p w'.store

  -- the two writes of a request, one after the other
  pub created :
      (now : ℕ) (command : CreatePaymentCommand) (money : Money) (p q outcome : Payment)
      (first : PaymentOrmEntity) (w mid w' : World base redis pg)
      → (money.amount ≡ command.amount) × (money.currency ≡ command.currency)
      → mid.ledger ≡ w.ledger
      → IsStored base (new_payment command money) [] first w.db mid.db
      → SamePayment (new_payment command money) p
      → p.id ≡ first.id
      → IsSettled now p outcome (verdict base redis pg p mid)
      → IsRecorded base redis pg command.idempotency_key outcome q mid.db w'.db w'.store
      → IsCreated now command q w w'
  unfolding create pull_domain_events
  created now command money p q outcome first w mid w' ordered ledger s same id settled r =
      let t = r.stored in
      let p_key : p.id ≡ some s.key = id ∙ s.saved_key in
      let key : s.key ≡ t.key = t.kept_key s.key (IsSettled-id settled ∙ p_key) in
      let q_key : q.id ≡ some s.key = r.same_id ∙ t.saved_key ∙ ap some (sym key) in
      let (status, _, unchanged, event) =
        settled_as p q outcome settled r.same (q_key ∙ sym p_key) in
      record {
        key = s.key;
        id = q_key;
        fresh = s.new_key refl;
        ordered = ground arith;
        pending = p;
        asked = mid;
        pending_id = p_key;
        same_ledger = ledger;
        status = status;
        row = t.row;
        stored = rw key t.stored;
        columns = columns_of _ q t.row r.same t.row_columns;
        others = λ i ne. t.others i (λ e. ne (e ∙ sym key)) ∙ s.others i ne;
        added = t.added;
        appended =
            t.appended
            ∙ ap (λ l. l ++ t.added)
                (s.appended
                  ∙ ap (λ l. outbox w.db ++ l) (nil_of_map without_id s.added s.recorded)
                  ∙ append-nil _);
        event = t.recorded ∙ ap₂ (λ k l. map (to_outbox_entity (some k)) l) (sym key) event;
        payable = r.payable;
        cached = r.cached;
      }

  pub process-IsCreated :
      (now : ℕ) (command : CreatePaymentCommand) (q : Payment) (w : World base redis pg)
      → (process base redis pg now command w).0 ≡ ok q
      → IsCreated now command q w (process base redis pg now command w).1
  unfolding process on_db create
  process-IsCreated now command q w h =
      elim (Result-cases (money_of command.amount command.currency)) [
        | inr (x, e) ↦ absurd (ground arith)
        | inl (money, e) ↦
            let order : Payment = new_payment command money in
            let write : Result PaymentError Payment × base.Db = persist base order w.db in
            elim (Result-cases write.0) [
              | inr (x, e₂) ↦ absurd (ground arith)
              | inl (p, e₂) ↦
                  let mid : World base redis pg = record w { db = write.1 } in
                  let end : process base redis pg now command w
                      ≡ finish base redis pg now command p mid =
                    ground arith in
                  let ordered = money_of-fields command.amount command.currency money e in
                  let payable : IsPayable order = ap₂ money_of ordered.0 ordered.1 ∙ e in
                  let (first, stored, same, id) =
                    Persisted-ok base order p [] w.db write
                      (persist-Persisted base order w.db payable) e₂ in
                  let finished : Result PaymentError Payment × World base redis pg =
                    finish base redis pg now command p mid in
                  let (outcome, settled, recorded) =
                    finish-IsRecorded base redis pg now command p q mid same.5
                      (ap (λ m. money_of m.amount m.currency) same.1 ∙ payable ∙ ap ok (sym same.1))
                      (ap (λ r. r.0) (sym end) ∙ h) in
                  subst (λ r. IsCreated now command q w r.1) (sym end)
                    (created now command money p q outcome first w mid finished.1 ordered refl
                      stored same id settled recorded)
            ]
      ]
