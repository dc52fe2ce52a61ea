-- ===== src/Payment/CreatePayment/Replay.antt =====
-- Idempotency of `CreatePaymentUseCase.execute`: what a second request with the same key does.
use public_nest_server.Base.{
  ℕ, [], ◌≡◌, refl, sym, ap, ◌∙◌, Option, none, some, true, false, Bool, String, ◌≢◌, ok, err,
  arith, inl, inr, Option-cases, Result-cases, is_negative,
}
use public_nest_server.Payment.Model.{
  Payment, PaymentError, negative_amount, in_flight, money_of, restore,
}
use public_nest_server.Payment.Database.{Database}
use public_nest_server.Payment.Cache.{Redis}
use public_nest_server.Payment.Gateway.{PgAdapter}
use public_nest_server.Payment.Repository.Laws.{IsPayable, SamePayment}
use public_nest_server.Payment.Idempotency.{
  CachedText, text, json, processing_marker, build_key, read_cached, find_by_key, try_claim,
}
use public_nest_server.Payment.Idempotency.Laws.{
  replayed, Holds, find_by_key-Holds, try_claim-content,
}
use public_nest_server.Payment.CreatePayment.{
  CreatePaymentCommand, World, on_store, process, in_flight_result, claim_and_process, execute,
  idempotency_ttl_seconds,
}
use public_nest_server.Payment.CreatePayment.Created.{execute-IsCreated, execute-claims}

read_cached-events :
    (t : Option CachedText) (p : Payment) → read_cached t ≡ ok (some p) → p.domain_events ≡ []
unfolding read_cached restore
read_cached-events none p h = cc
read_cached-events (some (text raw)) p h = ground arith
read_cached-events (some (json s)) p h = elim (Result-cases (money_of s.amount s.currency)) [
  | inl (m, e) ↦ ground arith
  | inr (x, e) ↦ ground arith
]

read_events :
    (redis : Redis CachedText) (key : String) (s : redis.Store) (p : Payment)
    → (find_by_key redis key s).0 ≡ ok (some p)
    → p.domain_events ≡ []
unfolding find_by_key
read_events redis key s p h = elim (Result-cases (redis.get (build_key key) s)) [
  | inl (r, e) ↦ read_cached-events r p (ground arith)
  | inr (x, e) ↦ absurd (ground arith)
]

claim_wins :
    (redis : Redis CachedText) (key : String) (reply : Bool) (s : redis.Store)
    → redis.get (build_key key) s ≡ ok none
    → (try_claim redis key idempotency_ttl_seconds s).0 ≡ ok reply
    → reply ≡ true
unfolding try_claim
claim_wins redis key reply s unused answered =
    let k : String = build_key key in
    let nothing : redis.content k s ≡ none = sym (redis.get-ok k none s unused) in
    (redis.set_nx-ok k k (text processing_marker) idempotency_ttl_seconds reply s answered).0
    ∙ rw nothing refl

module _ (base : Database) (redis : Redis CachedText) (pg : PgAdapter) where
  -- A request whose key holds a payment returns it and does nothing else.
  execute-found :
      (now : ℕ) (command : CreatePaymentCommand) (p : Payment) (w : World base redis pg)
      → (find_by_key redis command.idempotency_key w.store).0 ≡ ok (some p)
      → execute base redis pg now command w ≡ (ok p, w)
  unfolding execute on_store find_by_key
  execute-found now command p w h = ground arith

  -- A request whose key is being processed does not return; if Redis answers, it throws that the
  -- key is in flight.
  taken_never_returns :
      (now : ℕ) (command : CreatePaymentCommand) (p : Payment) (w : World base redis pg)
      (t : CachedText)
      → redis.get (build_key command.idempotency_key) w.store ≡ ok (some t)
      → read_cached (some t) ≡ ok none
      → (execute base redis pg now command w).0 ≢ ok p
  unfolding execute claim_and_process in_flight_result find_by_key try_claim on_store
  taken_never_returns now command p w t taken absent h =
      let k : String = build_key command.idempotency_key in
      let claim = redis.set_nx k (text processing_marker) idempotency_ttl_seconds w.store in
      let here : redis.content k w.store ≡ some t = sym (redis.get-ok k (some t) w.store taken) in
      elim (Result-cases claim.0) [
        | inr (x, e) ↦ ground arith
        | inl (reply, e) ↦
            let (refused, kept) =
              redis.set_nx-ok k k (text processing_marker) idempotency_ttl_seconds reply w.store
                e in
            let no_claim : reply ≡ false = refused ∙ rw here refl in
            elim (Result-cases (redis.get k claim.1)) [
              | inr (x, e₂) ↦ ground arith
              | inl (r, e₂) ↦
                  let same : r ≡ some t = redis.get-ok k r claim.1 e₂ ∙ kept ∙ rw no_claim here in
                  ground arith
            ]
      ]

  in_flight_throws :
      (now : ℕ) (command : CreatePaymentCommand) (reply : Bool) (r : Option CachedText)
      (w : World base redis pg) (t : CachedText)
      → redis.get (build_key command.idempotency_key) w.store ≡ ok (some t)
      → read_cached (some t) ≡ ok none
      → (try_claim redis command.idempotency_key idempotency_ttl_seconds w.store).0 ≡ ok reply
      → redis.get
          (build_key command.idempotency_key)
          (try_claim redis command.idempotency_key idempotency_ttl_seconds w.store).1
        ≡ ok r
      → (execute base redis pg now command w).0 ≡ err (in_flight command.idempotency_key)
  unfolding execute claim_and_process in_flight_result find_by_key try_claim on_store
  in_flight_throws now command reply r w t taken absent answered answered_again =
      let k : String = build_key command.idempotency_key in
      let claim = redis.set_nx k (text processing_marker) idempotency_ttl_seconds w.store in
      let here : redis.content k w.store ≡ some t = sym (redis.get-ok k (some t) w.store taken) in
      let (refused, kept) =
        redis.set_nx-ok k k (text processing_marker) idempotency_ttl_seconds reply w.store
          answered in
      let no_claim : reply ≡ false = refused ∙ rw here refl in
      let same : r ≡ some t = redis.get-ok k r claim.1 answered_again ∙ kept ∙ rw no_claim here in
      ground arith

  unreadable_throws :
      (now : ℕ) (command : CreatePaymentCommand) (p : Payment) (w : World base redis pg)
      (x : PaymentError)
      → (find_by_key redis command.idempotency_key w.store).0 ≡ err x
      → (execute base redis pg now command w).0 ≢ ok p
  unfolding execute on_store find_by_key
  unreadable_throws now command p w x e h = ground arith

  -- A request that found nothing and returned has claimed the key and stored its payment there.
  execute-Holds :
      (now : ℕ) (command : CreatePaymentCommand) (p : Payment) (w : World base redis pg)
      → (find_by_key redis command.idempotency_key w.store).0 ≡ ok none
      → (execute base redis pg now command w).0 ≡ ok p
      → IsPayable p
        × Holds redis command.idempotency_key p (execute base redis pg now command w).1.store
  unfolding find_by_key
  execute-Holds now command p w absent h =
      let k : String = build_key command.idempotency_key in
      elim (Result-cases (redis.get k w.store)) [
        | inr (x, e) ↦ absurd (ground arith)
        | inl (r, e) ↦ elim (Option-cases r) [
          | inl unused ↦
              let c = execute-IsCreated base redis pg now command p w (e ∙ ap ok unused) h in
              (c.payable, c.cached)
          | inr (t, taken) ↦
              absurd (taken_never_returns now command p w t (e ∙ ap ok taken) (ground arith) h)
        ]
      ]

  -- Once a request has returned a payment, every request with the same key, whatever else it asks
  -- for and whenever it comes (before the key expires), returns that payment with the same id, the
  -- same money and the same status, and changes nothing: no payment, no event, no approval asked.
  pub execute-replays :
      (now later : ℕ) (command again : CreatePaymentCommand) (p : Payment) (r : Option CachedText)
      (w : World base redis pg)
      → again.idempotency_key ≡ command.idempotency_key
      → (execute base redis pg now command w).0 ≡ ok p
      → let w' = (execute base redis pg now command w).1 in
        redis.get (build_key command.idempotency_key) w'.store ≡ ok r
        → (q : Payment) × (execute base redis pg later again w' ≡ (ok q, w'))
          × SamePayment p q
          × (q.id ≡ p.id)
  execute-replays now later command again p r w same_key h answered =
      let key : String = command.idempotency_key in
      elim (Result-cases (find_by_key redis key w.store).0) [
        | inr (x, e) ↦ absurd (unreadable_throws now command p w x e h)
        | inl (found, e) ↦ elim (Option-cases found) [
          | inl absent ↦
              let (valid, held) = execute-Holds now command p w (e ∙ ap ok absent) h in
              let cached = find_by_key-Holds redis key p r _ valid held answered in
              (
                replayed p,
                execute-found later again (replayed p) _ (rw same_key (ap (λ x. x.0) cached)),
                (refl, refl, refl, refl, refl, refl, refl),
                refl,
              )
          | inr (q, present) ↦
              let end : execute base redis pg now command w ≡ (ok q, w) =
                execute-found now command q w (e ∙ ap ok present) in
              let same : q ≡ p = ground arith in
              let events : q.domain_events ≡ [] =
                read_events redis key w.store q (e ∙ ap ok present) in
              rw (end, ← same)
                (
                  q,
                  execute-found later again q w (rw same_key (e ∙ ap ok present)),
                  (refl, refl, refl, refl, refl, refl, events),
                  refl,
                )
        ]
      ]

  process-negative :
      (now : ℕ) (command : CreatePaymentCommand) (w : World base redis pg)
      → is_negative command.amount ≡ true
      → process base redis pg now command w ≡ (err negative_amount, w)
  unfolding process money_of
  process-negative now command w negative = ground arith

  -- A first request with a negative amount leaves its key claimed: if Redis answers throughout, it
  -- throws, stores no payment and publishes nothing, but until the key expires every request with
  -- that key, a corrected one too, is refused as already being processed.
  pub negative_amount_blocks_key :
      (now later : ℕ) (command again : CreatePaymentCommand) (first second : Bool)
      (r r' : Option CachedText) (w : World base redis pg)
      → redis.get (build_key command.idempotency_key) w.store ≡ ok none
      → (try_claim redis command.idempotency_key idempotency_ttl_seconds w.store).0 ≡ ok first
      → is_negative command.amount ≡ true
      → again.idempotency_key ≡ command.idempotency_key
      → let key = command.idempotency_key in
        let claimed = (try_claim redis key idempotency_ttl_seconds w.store).1 in
        redis.get (build_key key) claimed ≡ ok r
        → (try_claim redis key idempotency_ttl_seconds claimed).0 ≡ ok second
        → redis.get (build_key key) (try_claim redis key idempotency_ttl_seconds claimed).1 ≡ ok r'
        → let (result, w') = execute base redis pg now command w in
          (result ≡ err negative_amount)
          × (w'.db ≡ w.db)
          × (w'.ledger ≡ w.ledger)
          × ((execute base redis pg later again w').0 ≡ err (in_flight again.idempotency_key))
  unfolding read_cached
  negative_amount_blocks_key now later command again first second r r' w unused answered negative
        same_key read refused read_again =
      let key : String = command.idempotency_key in
      let claimed : redis.Store = (try_claim redis key idempotency_ttl_seconds w.store).1 in
      let after : World base redis pg = record w { store = claimed } in
      let end : execute base redis pg now command w ≡ (err negative_amount, after) =
        execute-claims base redis pg now command first w unused answered
        ∙ process-negative now command after negative in
      let won : first ≡ true = claim_wins redis key first w.store unused answered in
      let marked : redis.content (build_key key) claimed ≡ some (text processing_marker) =
        try_claim-content redis key idempotency_ttl_seconds w.store (answered ∙ ap ok won) in
      let found : redis.get (build_key key) claimed ≡ ok (some (text processing_marker)) =
        read ∙ ap ok (redis.get-ok (build_key key) r claimed read ∙ marked) in
      rw end (
        refl,
        refl,
        refl,
        in_flight_throws later again second r' after (text processing_marker) (rw same_key found)
            refl (rw same_key refused) (rw same_key read_again),
      )
