-- ===== src/Payment/Outbox/Offers.antt =====
-- What a poll offers to the broker.
use mathlib.Core.List.{append-nil, append_assoc}
use public_nest_server.Base.{
  ℕ, ◌≡◌, sym, ap, ◌∙◌, Option, List, [], ◌∷◌, ◌++◌, String, true, false, ok, arith, inl, inr,
  Result-cases, keep, take, map, ⊤, Action,
}
use public_nest_server.Payment.Model.{PaymentError, DomainEvent}
use public_nest_server.Payment.Database.{Database}
use public_nest_server.Payment.Outbox.{
  OutboxEventRecord, to_record, is_pending_row, batch_size, find_pending_batch, Relay, in_db,
  in_kafka, publish_and_mark, relay_one, relay_all, poll_batch, poll_once,
}
use public_nest_server.Payment.Outbox.Relaying.{Offer, as_offer, row_offer, map_twice}

module _ (base : Database) {Kafka : Type 0}
    (publish : Option ℕ → String → DomainEvent → Action PaymentError Kafka ⊤) where
  open base use {Db, outbox}

  -- What the broker has been asked to publish, kept by whoever watches it.
  module _ (offered : Kafka → List Offer)
      (publish_offers : (k : Option ℕ) (t : String) (p : DomainEvent) (s : Kafka)
        → offered (publish k t p s).1 ≡ offered s ++ (k, t, p) ∷ []) where
    relay_one-offers :
        (now : ℕ) (e : OutboxEventRecord) (w : Relay base publish)
        → offered (relay_one base publish now e w).1.kafka ≡ offered w.kafka ++ as_offer e ∷ []
    unfolding relay_one publish_and_mark in_db in_kafka
    relay_one-offers now e w =
        ground (arith, publish_offers e.aggregate_id e.event_type e.payload w.kafka)

    relay_all-offers :
        (now : ℕ) (events : List OutboxEventRecord) (u : ⊤) (w : Relay base publish)
        → (relay_all base publish now events w).0 ≡ ok u
        → offered (relay_all base publish now events w).1.kafka
          ≡ offered w.kafka ++ map as_offer events
    unfolding relay_all
    relay_all-offers now [] u w h = sym (append-nil _)
    relay_all-offers now (e ∷ events) u w h =
        let next : Relay base publish = (relay_one base publish now e w).1 in
        elim (Result-cases (relay_one base publish now e w).0) [
          | inr (x, thrown) ↦ absurd (ground arith)
          | inl (v, done) ↦
              let end : relay_all base publish now (e ∷ events) w
                  ≡ relay_all base publish now events next =
                ground arith in
              ap (λ r. offered r.1.kafka) end
              ∙ relay_all-offers now events u next (ap (λ r. r.0) (sym end) ∙ h)
              ∙ ap (λ l. l ++ map as_offer events) (relay_one-offers now e w)
              ∙ append_assoc (offered w.kafka) (as_offer e ∷ []) (map as_offer events)
        ]

    -- A poll that starts while none is running and does not throw offers to the broker the first
    -- 50 PENDING events, oldest first, each exactly once, whether or not the broker accepts them.
    pub poll_once-offers :
        (now : ℕ) (u : ⊤) (w : Relay base publish)
        → w.polling ≡ false
        → (poll_once base publish now w).0 ≡ ok u
        → offered (poll_once base publish now w).1.kafka
          ≡ offered w.kafka ++ map row_offer (take 50 (keep is_pending_row (outbox w.db)))
    unfolding poll_once poll_batch in_db find_pending_batch
    poll_once-offers now u w idle h =
        let rows = base.select_outbox is_pending_row batch_size w.db in
        let same : rows.1 ≡ w.db = base.select_outbox-state is_pending_row batch_size w.db in
        let start : Relay base publish = record w { polling = true; db = rows.1 } in
        elim (Result-cases rows.0) [
          | inr (x, e) ↦ absurd (ground arith)
          | inl (l, e) ↦
              let end : (poll_once base publish now w).1.kafka
                  ≡ (relay_all base publish now (map to_record l) start).1.kafka =
                ground arith in
              let done : (relay_all base publish now (map to_record l) start).0 ≡ ok u =
                ground arith in
              ap offered end
              ∙ relay_all-offers now (map to_record l) u start done
              ∙ ap (λ k. offered w.kafka ++ k)
                  (map_twice l
                    ∙ ap (map row_offer) (base.select_outbox-ok is_pending_row batch_size l w.db e))
        ]
