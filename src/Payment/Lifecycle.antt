-- ===== src/Payment/Lifecycle.antt =====
-- The life of a Payment aggregate (domain/model/payment.ts): which calls of `complete`, `fail` and
-- `pullDomainEvents` can follow one another, and the events that they have raised in all.
use mathlib.Core.List.{append-nil}
use public_nest_server.Base.{ℕ, ◌≡◌, refl, List, [], ◌∷◌, ◌++◌, ok, arith}
use public_nest_server.Payment.Model.{
  Payment, NewPayment, DomainEvent, payment_completed, payment_failed, pending, completed, failed,
  payload_of, create, complete, fail, with_status, add_domain_event, pull_domain_events,
}

-- `Run p pulled q`: calls that did not throw lead from `p` to `q`, and `pulled` are the events
-- that were taken out on the way, in order.
pub data Run (p : Payment) : List DomainEvent → Payment → Type 0 where
  start : Run p [] p
  completes :
      {pulled : List DomainEvent} {q r : Payment} (now : ℕ)
      → Run p pulled q
      → complete now q ≡ ok r
      → Run p pulled r
  fails :
      {pulled : List DomainEvent} {q r : Payment} (now : ℕ)
      → Run p pulled q
      → fail now q ≡ ok r
      → Run p pulled r
  pulls :
      {pulled all : List DomainEvent} {q r : Payment}
      → Run p pulled q
      → r ≡ (pull_domain_events q).0
      → all ≡ pulled ++ (pull_domain_events q).1
      → Run p all r

-- The events that a payment must have raised by the time it has its status.
pub data IsHistory (p : Payment) : List DomainEvent → Type 0 where
  untouched : {h : List DomainEvent} → p.status ≡ pending → h ≡ [] → IsHistory p h
  paid :
      {h : List DomainEvent} (now : ℕ)
      → p.status ≡ completed
      → h ≡ payment_completed (payload_of p) now ∷ []
      → IsHistory p h
  declined :
      {h : List DomainEvent} (now : ℕ)
      → p.status ≡ failed
      → h ≡ payment_failed (payload_of p) now ∷ []
      → IsHistory p h

-- The events raised so far, pulled or still inside.
abbrev raised : List DomainEvent → Payment → List DomainEvent
raised pulled p = pulled ++ p.domain_events

complete-IsHistory :
    (now : ℕ) (pulled : List DomainEvent) (q r : Payment)
    → IsHistory q (raised pulled q)
    → complete now q ≡ ok r
    → IsHistory r (raised pulled r)
unfolding complete with_status add_domain_event payload_of
complete-IsHistory now [] q r (untouched p h) e = paid now (ground arith) (ground arith)
complete-IsHistory now (x ∷ xs) q r (untouched p h) e = cc
complete-IsHistory now pulled q r (paid t p h) e = absurd (ground arith)
complete-IsHistory now pulled q r (declined t p h) e = absurd (ground arith)

fail-IsHistory :
    (now : ℕ) (pulled : List DomainEvent) (q r : Payment)
    → IsHistory q (raised pulled q)
    → fail now q ≡ ok r
    → IsHistory r (raised pulled r)
unfolding fail with_status add_domain_event payload_of
fail-IsHistory now [] q r (untouched p h) e = declined now (ground arith) (ground arith)
fail-IsHistory now (x ∷ xs) q r (untouched p h) e = cc
fail-IsHistory now pulled q r (paid t p h) e = absurd (ground arith)
fail-IsHistory now pulled q r (declined t p h) e = absurd (ground arith)

pull-IsHistory :
    (q : Payment) (h : List DomainEvent)
    → IsHistory q h
    → IsHistory (pull_domain_events q).0 (h ++ [])
unfolding pull_domain_events payload_of
pull-IsHistory q h (untouched p e) = rw append-nil (untouched p e)
pull-IsHistory q h (paid t p e) = rw append-nil (paid t p e)
pull-IsHistory q h (declined t p e) = rw append-nil (declined t p e)

-- A payment that `create` made, whatever calls were made on it, has raised no event while it is
-- PENDING, exactly one completed event with its own data once it is COMPLETED, and exactly one
-- failed event once it is FAILED.
pub Run-IsHistory :
    (props : NewPayment) (pulled : List DomainEvent) (p : Payment)
    → Run (create props) pulled p
    → IsHistory p (pulled ++ p.domain_events)
unfolding create pull_domain_events
Run-IsHistory props pulled p start = untouched refl refl
Run-IsHistory props pulled p (completes {q = q} now r e) =
    complete-IsHistory now pulled q p (Run-IsHistory props pulled q r) e
Run-IsHistory props pulled p (fails {q = q} now r e) =
    fail-IsHistory now pulled q p (Run-IsHistory props pulled q r) e
Run-IsHistory props pulled p (pulls {pulled = before} {q = q} r e h) =
    rw (e, h) (pull-IsHistory q (before ++ q.domain_events) (Run-IsHistory props before q r))
