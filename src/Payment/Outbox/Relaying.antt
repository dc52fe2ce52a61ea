-- ===== src/Payment/Outbox/Relaying.antt =====
-- What a poll of the outbox relay does to the rows.
use mathlib.Core.Path.{ap₂}
use public_nest_server.Base.{
  ℕ, zero, suc, ◌+◌, ◌≡◌, ◌≢◌, ==_refl, refl, sym, ap, ◌∙◌, Option, some, List, [], ◌∷◌, String,
  true, false, ok, arith, inl, inr, ◌⊎◌, Bool-cases, Result-cases, keep, take, map, find, any, All,
  ⊤, Action, ◌&&◌,
}
use public_nest_server.Payment.Model.{PaymentError, DomainEvent}
use public_nest_server.Payment.Database.{Database, PaymentOutboxOrmEntity, has_id}
use public_nest_server.Payment.Outbox.{
  OutboxEventRecord, to_record, is_pending_row, published_row, failed_row, batch_size, max_attempts,
  find_pending_batch, mark_published, mark_failed_attempt, Relay, in_db, in_kafka, publish_and_mark,
  relay_one, relay_all, poll_batch, poll_once,
}
use public_nest_server.Payment.Outbox.Rows.{
  IsWithinAttempts, Updates, unchanged, Updates-IsWithinAttempts, Updates-others,
  mark_published-Updates, mark_failed_attempt-Updates, mark_published-find, mark_published-err,
  mark_failed_attempt-find,
}

All-Unit {ℓ} : {A : Type ℓ} (xs : List A) → All (λ _. Unit {0}) xs
All-Unit [] = tt
All-Unit (x ∷ xs) = (tt, All-Unit xs)

-- What `publish` is called with: the key, the type and the payload.
abbrev pub Offer : Type 0
Offer = Option ℕ × String × DomainEvent

abbrev pub as_offer : OutboxEventRecord → Offer
as_offer e = (e.aggregate_id, e.event_type, e.payload)

abbrev pub row_offer : PaymentOutboxOrmEntity → Offer
row_offer r = (r.aggregate_id, r.event_type, r.payload)

pub map_twice :
    (rows : List PaymentOutboxOrmEntity) → map as_offer (map to_record rows) ≡ map row_offer rows
map_twice [] = refl
map_twice (r ∷ rows) = ap₂ ◌∷◌ refl (map_twice rows)

-- The records of a batch have the ids of PENDING rows only.
batch-ne :
    (i limit : ℕ) (rows : List PaymentOutboxOrmEntity)
    → any (λ r. has_id i r && is_pending_row r) rows ≡ false
    → All (λ e. e.id ≢ some i) (map to_record (take limit (keep is_pending_row rows)))
batch-ne i zero rows h = tt
batch-ne i (suc limit) [] h = tt
batch-ne i (suc limit) (r ∷ rows) h = elim (Bool-cases (is_pending_row r)) [
  | inl is_pending ↦
      rw is_pending (λ e. ground (arith, ==_refl i), batch-ne i limit rows (ground arith))
  | inr settled ↦ rw settled (batch-ne i (suc limit) rows (ground arith))
]

module _ (base : Database) {Kafka : Type 0}
    (publish : Option ℕ → String → DomainEvent → Action PaymentError Kafka ⊤) where
  open base use {Db, outbox}

  -- What one round for the event `e` may do to the table, in two steps.
  publish_and_mark-Updates :
      (now : ℕ) (e : OutboxEventRecord) (w : Relay base publish)
      → Updates base e.id w.db (publish_and_mark base publish now e w).1.db
  unfolding publish_and_mark in_db in_kafka
  publish_and_mark-Updates now e w =
      elim (Result-cases (publish e.aggregate_id e.event_type e.payload w.kafka).0) [
        | inr (x, thrown) ↦
            let end : (publish_and_mark base publish now e w).1.db ≡ w.db = ground arith in
            unchanged (ap outbox end)
        | inl (u, done) ↦
            let end : (publish_and_mark base publish now e w).1.db
                ≡ (mark_published base now e.id w.db).1 =
              ground arith in
            rw end (mark_published-Updates base now e.id w.db)
      ]

  -- A property of the table that every update of the row `e.id` keeps is kept by the round.
  module _ (e : OutboxEventRecord) (P : Db → Type 0)
      (keeps : (db db' : Db) → Updates base e.id db db' → P db → P db') where
    relay_one-keeps :
        (now : ℕ) (w : Relay base publish) → P w.db → P (relay_one base publish now e w).1.db
    unfolding relay_one in_db
    relay_one-keeps now w h =
        let mid : Relay base publish = (publish_and_mark base publish now e w).1 in
        let h' : P mid.db = keeps w.db mid.db (publish_and_mark-Updates now e w) h in
        elim (Result-cases (publish_and_mark base publish now e w).0) [
          | inl (u, done) ↦
              let end : (relay_one base publish now e w).1.db ≡ mid.db = ground arith in rw end h'
          | inr (x, thrown) ↦
              let end : (relay_one base publish now e w).1.db
                  ≡ (mark_failed_attempt base e.id max_attempts mid.db).1 =
                ground arith in
              rw end (keeps mid.db _ (mark_failed_attempt-Updates base e.id mid.db) h')
        ]

  module _ (P : Db → Type 0) (Q : Option ℕ → Type 0)
      (keeps : (id : Option ℕ) (db db' : Db) → Q id → Updates base id db db' → P db → P db') where
    relay_all-keeps :
        (now : ℕ) (events : List OutboxEventRecord) (w : Relay base publish)
        → All (λ e. Q e.id) events
        → P w.db
        → P (relay_all base publish now events w).1.db
    unfolding relay_all
    relay_all-keeps now [] w all h = h
    relay_all-keeps now (e ∷ events) w (q, all) h =
        let next : Relay base publish = (relay_one base publish now e w).1 in
        let h' : P next.db = relay_one-keeps e P (λ db db' u p. keeps e.id db db' q u p) now w h in
        ground (arith, relay_all-keeps now events next all h')

    -- The rows that a poll takes on, as records.
    abbrev batch : Db → List OutboxEventRecord
    batch db = map to_record (take batch_size (keep is_pending_row (outbox db)))

    poll_batch-keeps :
        (now : ℕ) (w : Relay base publish)
        → All (λ e. Q e.id) (batch w.db)
        → P w.db
        → P (poll_batch base publish now w).1.db
    unfolding poll_batch in_db find_pending_batch
    poll_batch-keeps now w all h =
        let rows = base.select_outbox is_pending_row batch_size w.db in
        let same : rows.1 ≡ w.db = base.select_outbox-state is_pending_row batch_size w.db in
        elim (Result-cases rows.0) [
          | inr (x, e) ↦
              let end : (poll_batch base publish now w).1.db ≡ w.db = ground arith in rw end h
          | inl (l, e) ↦
              let read : l ≡ take batch_size (keep is_pending_row (outbox w.db)) =
                base.select_outbox-ok is_pending_row batch_size l w.db e in
              let end : poll_batch base publish now w
                  ≡ relay_all base publish now (map to_record l) (record w { db = rows.1 }) =
                ground arith in
              rw (end, same) (relay_all-keeps now (map to_record l) w (rw read all) h)
        ]

    poll_once-keeps :
        (now : ℕ) (w : Relay base publish)
        → All (λ e. Q e.id) (batch w.db)
        → P w.db
        → P (poll_once base publish now w).1.db
    unfolding poll_once
    poll_once-keeps now w all h =
        ground (arith, poll_batch-keeps now (record w { polling = true }) all h)

  -- However the broker and the database behave, and also if it ends by throwing, a poll leaves
  -- every row PENDING only below five attempts and FAILED only at five or more.
  pub poll_once-IsWithinAttempts :
      (now : ℕ) (w : Relay base publish)
      → All IsWithinAttempts (outbox w.db)
      → All IsWithinAttempts (outbox (poll_once base publish now w).1.db)
  poll_once-IsWithinAttempts now w h =
      poll_once-keeps (λ db. All IsWithinAttempts (outbox db)) (λ _. Unit {0})
        (λ id db db' _ u p. Updates-IsWithinAttempts base id db db' u p) now w (All-Unit _) h

  -- An id under which no row is PENDING is left alone: what is PUBLISHED or FAILED is never
  -- touched again by a poll.
  pub poll_once-settled :
      (now i : ℕ) (w : Relay base publish)
      → any (λ r. has_id i r && is_pending_row r) (outbox w.db) ≡ false
      → keep (has_id i) (outbox (poll_once base publish now w).1.db) ≡ keep (has_id i) (outbox w.db)
  poll_once-settled now i w none_pending =
      poll_once-keeps (λ db. keep (has_id i) (outbox db) ≡ keep (has_id i) (outbox w.db))
        (λ id. id ≢ some i) (λ id db db' ne u p. Updates-others base id i db db' u ne ∙ p) now w
        (batch-ne i batch_size (outbox w.db) none_pending) refl

  -- A round for a stored event that does not throw leaves its row PUBLISHED only if the broker has
  -- accepted the event; otherwise the row has one attempt more, PENDING or FAILED by the limit.
  pub relay_one-accounts :
      (now i : ℕ) (row : PaymentOutboxOrmEntity) (u : ⊤) (w : Relay base publish)
      → row.id ≡ some i
      → find (has_id i) (outbox w.db) ≡ some row
      → (relay_one base publish now (to_record row) w).0 ≡ ok u
      → let after = find (has_id i) (outbox (relay_one base publish now (to_record row) w).1.db) in
        ((after ≡ some (published_row now row))
          × ((publish row.aggregate_id row.event_type row.payload w.kafka).0 ≡ ok tt))
        ⊎ (after ≡ some (failed_row (row.attempts + 1) max_attempts row))
  unfolding relay_one publish_and_mark in_db in_kafka
  relay_one-accounts now i row u w id h e =
      let send = publish row.aggregate_id row.event_type row.payload w.kafka in
      let mark = mark_published base now (some i) w.db in
      elim (Result-cases send.0) [
        | inr (x, refused) ↦
            let end : relay_one base publish now (to_record row) w
                ≡ in_db base publish (mark_failed_attempt base (some i) max_attempts)
                    (record w { kafka = send.1 }) =
              ground arith in
            let failing : (mark_failed_attempt base (some i) max_attempts w.db).0 ≡ ok tt =
              ap (λ r. r.0) (sym end) ∙ e in
            inr (rw end (mark_failed_attempt-find base i row tt w.db h failing))
        | inl (v, accepted) ↦ elim (Result-cases mark.0) [
          | inl (v', marked) ↦
              let end : (relay_one base publish now (to_record row) w).1.db ≡ mark.1 =
                ground arith in
              inl (rw end (mark_published-find base now i row v' w.db h marked), accepted)
          | inr (x, thrown) ↦
              let kept : mark.1 ≡ w.db = mark_published-err base now i row x w.db h thrown in
              let end : relay_one base publish now (to_record row) w
                  ≡ in_db base publish (mark_failed_attempt base (some i) max_attempts)
                      (record w { kafka = send.1 }) =
                ground arith in
              let failing : (mark_failed_attempt base (some i) max_attempts w.db).0 ≡ ok tt =
                ap (λ r. r.0) (sym end) ∙ e in
              inr (rw end (mark_failed_attempt-find base i row tt w.db h failing))
        ]
      ]
