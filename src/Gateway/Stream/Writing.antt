-- ===== src/Gateway/Stream/Writing.antt =====
-- What the loop writes of one read, and of the reads after it.
use mathlib.Core.List.{append_assoc, append-nil}
use public_nest_server.Base.{
  ◌≡◌, refl, sym, ap, ◌∙◌, List, [], ◌∷◌, ◌++◌, String, Bool, true, false, if◌then◌else◌,
  Bool-cases, inl, inr, ok,
}
use public_nest_server.Gateway.Stream.{
  StreamEvent, Relayed, and_then, is_terminal, after_event, write_events,
}
use public_nest_server.Gateway.Stream.Places.{last_id}

module _ {D : Type 0} where
  -- The events up to the first that ends the job.
  abbrev pub until_terminal : List (StreamEvent D) → List (StreamEvent D)
  until_terminal [] = []
  until_terminal (e ∷ events) =
      let rest = until_terminal events in if is_terminal e then e ∷ [] else e ∷ rest

  -- What a read has made of its events.
  abbrev pub IsWritten :
      String → List (StreamEvent D) → List (StreamEvent D) × String × Bool → Type 0
  IsWritten last events (written, next, true) =
      (more : List (StreamEvent D)) → written ≡ until_terminal (events ++ more)
  IsWritten last events (written, next, false) =
      (written ≡ events)
      × (next ≡ last_id last events)
      × ((more : List (StreamEvent D))
          → until_terminal (events ++ more) ≡ events ++ until_terminal more)

  after_event-IsWritten :
      (last : String) (e : StreamEvent D) (events : List (StreamEvent D))
      (p : List (StreamEvent D) × String × Bool)
      → is_terminal e ≡ false
      → IsWritten e.id events p
      → IsWritten last (e ∷ events) (after_event e p)
  after_event-IsWritten last e events (written, next, true) going h =
      λ more. rw going (ap (λ l. e ∷ l) (h more))
  after_event-IsWritten last e events (written, next, false) going (all, id, on) =
      (ap (λ l. e ∷ l) all, id, λ more. rw going (ap (λ l. e ∷ l) (on more)))

  pub write_events-IsWritten :
      (last : String) (events : List (StreamEvent D))
      → IsWritten last events (write_events last events)
  unfolding write_events
  write_events-IsWritten last [] = (refl, refl, λ more. refl)
  write_events-IsWritten last (e ∷ events) = elim (Bool-cases (is_terminal e)) [
    | inl over ↦ rw over (λ more. rw over refl)
    | inr going ↦ rw going (
        after_event-IsWritten last e events (write_events e.id events) going
          (write_events-IsWritten e.id events))
  ]

  -- What a loop has written, unless it has thrown.
  abbrev pub IsWhole : {E : Type 0} → Relayed D E → List (StreamEvent D) → Type 0
  IsWhole (written, result) whole = result ≡ ok tt → written ≡ whole

  -- A list that begins with another.
  abbrev pub IsBegunBy : List (StreamEvent D) → List (StreamEvent D) → Type 0
  IsBegunBy whole beginning = (rest : List (StreamEvent D)) × (beginning ++ rest ≡ whole)

  module _ {E : Type 0} where
    pub and_then-IsBegunBy :
        (last : String) (events more : List (StreamEvent D))
        (q : List (StreamEvent D) × String × Bool) (next : String → Relayed D E)
        → IsWritten last events q
        → IsBegunBy (until_terminal more) (next (last_id last events)).0
        → IsBegunBy (until_terminal (events ++ more)) (and_then q next).0
    and_then-IsBegunBy last events more (written, id, true) next h later =
        ([], append-nil written ∙ h more)
    and_then-IsBegunBy last events more (written, id, false) next (all, same_id, on) (rest, same) =
        (
          rest,
          ap (λ w. (w ++ (next id).0) ++ rest) all
              ∙ ap (λ n. (events ++ (next n).0) ++ rest) same_id
              ∙ append_assoc events (next (last_id last events)).0 rest
              ∙ ap (λ l. events ++ l) same
              ∙ sym (on more),
        )

    pub and_then_ends :
        (last : String) (events more : List (StreamEvent D))
        (q : List (StreamEvent D) × String × Bool) (next : String → Relayed D E)
        → IsWritten last events q
        → IsWhole (next (last_id last events)) (until_terminal more)
        → IsWhole (and_then q next) (until_terminal (events ++ more))
    and_then_ends last events more (written, id, true) next h later done = h more
    and_then_ends last events more (written, id, false) next (all, same_id, on) later done =
        ap (λ w. w ++ (next id).0) all
        ∙ ap (λ n. events ++ (next n).0) same_id
        ∙ ap (λ l. events ++ l) (later (ap (λ n. (next n).1) (sym same_id) ∙ done))
        ∙ sym (on more)
