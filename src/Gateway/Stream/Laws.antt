-- ===== src/Gateway/Stream/Laws.antt =====
-- Each event of a job is written once, in order, up to the one that ends it.
use mathlib.Core.Path.{subst}
use public_nest_server.Base.{
  ℕ, zero, suc, ◌+◌, ◌≡◌, refl, sym, ap, ◌∙◌, List, [], ◌∷◌, String, take, drop, length, ◌≤◌, ◌<◌,
  arith, inl, inr, Option, some, or_else, map, length-map, Result, Result-cases, ok, ⊤, eq_refl,
}
use public_nest_server.Gateway.Stream.{
  StreamEvent, and_then, event_of, read_next, write_events, relay, streamed, start_of, stream,
}
use public_nest_server.Gateway.Stream.Places.{
  id_before, drop-split, drop-length, take_of_length-le, append-IsEmpty, last_id-id_before,
}
use public_nest_server.Gateway.Stream.Writing.{
  until_terminal, IsWhole, IsBegunBy, write_events-IsWritten, and_then-IsBegunBy, and_then_ends,
}

zero_after : (i : ℕ) → i + 0 ≡ i
zero_after i = omega arith

suc_after : (i j : ℕ) → i + suc j ≡ suc i + j
suc_after i j = omega arith

after_zero : (j : ℕ) → 0 + j ≡ j
after_zero j = omega arith

module _ {D E : Type 0} where
  module _ (log : List (StreamEvent D)) (known : ℕ → ℕ)
      (read : ℕ → String → Result E (List (StreamEvent D)))
      (reads-log : (i p : ℕ) (events : List (StreamEvent D))
        → read i (id_before "0" log p) ≡ ok events
        → events ≡ drop p (take (known i) log)) where
    relay-IsBegunBy :
        (reads i p : ℕ)
        → IsBegunBy (until_terminal (drop p log)) (relay read reads i (id_before "0" log p)).0
    unfolding relay
    relay-IsBegunBy zero i p = (until_terminal (drop p log), refl)
    relay-IsBegunBy (suc reads) i p =
        let last = id_before "0" log p in
        elim (Result-cases (read i last)) [
          | inr (e, thrown) ↦ rw thrown (until_terminal (drop p log), refl)
          | inl (events, came) ↦
              let segment = drop p (take (known i) log) in
              let more = drop (p + length segment) log in
              let next = relay read reads (suc i) in
              let later =
                subst (λ id. IsBegunBy (until_terminal more) (next id).0)
                  (sym (last_id-id_before "0" log p (known i)))
                  (relay-IsBegunBy reads (suc i) (p + length segment)) in
              let here =
                and_then-IsBegunBy last segment more (write_events last segment) next
                  (write_events-IsWritten last segment) later in
              let whole =
                subst
                  (λ l. IsBegunBy (until_terminal l) (and_then (write_events last segment) next).0)
                  (sym (drop-split log p (known i))) here in
              rw came (
                subst
                  (λ l.
                    IsBegunBy (until_terminal (drop p log)) (and_then (write_events last l) next).0)
                  (sym (reads-log i p events came)) whole)
        ]

    relay_ends :
        (reads i p : ℕ)
        → ((next : ℕ)
            → next ≡ p + length (drop p (take (known i) log))
            → IsWhole
                (relay read reads (suc i) (id_before "0" log next))
                (until_terminal (drop next log)))
        → IsWhole (relay read (suc reads) i (id_before "0" log p)) (until_terminal (drop p log))
    unfolding relay
    relay_ends reads i p later =
        let last = id_before "0" log p in
        elim (Result-cases (read i last)) [
          | inr (e, thrown) ↦ rw thrown (λ done. absurd (ground arith))
          | inl (events, came) ↦
              let segment = drop p (take (known i) log) in
              let place = p + length segment in
              let next = relay read reads (suc i) in
              let after =
                subst (λ id. IsWhole (next id) (until_terminal (drop place log)))
                  (sym (last_id-id_before "0" log p (known i))) (later place refl) in
              let here =
                and_then_ends last segment (drop place log) (write_events last segment) next
                  (write_events-IsWritten last segment) after in
              let whole =
                subst (λ l. IsWhole (and_then (write_events last segment) next) (until_terminal l))
                  (sym (drop-split log p (known i))) here in
              rw came (
                subst
                  (λ l. IsWhole (and_then (write_events last l) next) (until_terminal (drop p log)))
                  (sym (reads-log i p events came)) whole)
        ]

    relay-IsWhole :
        (j reads i p : ℕ)
        → j < reads
        → length log ≤ known (i + j)
        → IsWhole (relay read reads i (id_before "0" log p)) (until_terminal (drop p log))
    relay-IsWhole j zero i p h all = absurd (omega arith)
    relay-IsWhole zero (suc reads) i p h all = relay_ends reads i p λ next place done.
        let same = ap known (zero_after i) in
        let whole = take_of_length-le log (known i) (omega (arith, all, same)) in
        let nothing =
          ap (λ n. drop n log) place
          ∙ ap (λ l. drop (p + length (drop p l)) log) whole
          ∙ drop-length log p in
        let (rest, begun) = relay-IsBegunBy reads (suc i) next in
        append-IsEmpty (until_terminal (drop next log)) _ rest (ap until_terminal nothing) begun
        ∙ sym (ap until_terminal nothing)
    relay-IsWhole (suc j) (suc reads) i p h all = relay_ends reads i p λ next place.
        let same = ap known (suc_after i j) in
        relay-IsWhole j reads (suc i) next (omega arith) (omega (arith, all, same))

map-segment :
    {A B : Type 0} (f : A → B) (p k : ℕ) (xs : List A)
    → map f (drop p (take k xs)) ≡ drop p (take k (map f xs))
map-segment f zero zero xs = refl
map-segment f (suc p) zero xs = refl
map-segment f zero (suc k) [] = refl
map-segment f (suc p) (suc k) [] = refl
map-segment f zero (suc k) (x ∷ xs) = ap (λ l. f x ∷ l) (map-segment f zero k xs)
map-segment f (suc p) (suc k) (x ∷ xs) = map-segment f p k xs

module _ {D E : Type 0} (parse_json : String → Option D) (log : List (String × List String))
    (known : ℕ → ℕ) (xread : ℕ → String → Result E (Option (List (String × List String))))
    (xread-log : (i p : ℕ) (found : Option (List (String × List String)))
      → xread i (id_before "0" (map (event_of parse_json) log) p) ≡ ok found
      → or_else found [] ≡ drop p (take (known i) log)) where
  read_next-log :
      (i p : ℕ) (events : List (StreamEvent D))
      → read_next parse_json xread i (id_before "0" (map (event_of parse_json) log) p) ≡ ok events
      → events ≡ drop p (take (known i) (map (event_of parse_json) log))
  unfolding read_next
  read_next-log i p events h =
      elim (Result-cases (xread i (id_before "0" (map (event_of parse_json) log) p))) [
        | inr (e, thrown) ↦ absurd (ground arith)
        | inl (found, came) ↦
            let same : map (event_of parse_json) (or_else found []) ≡ events = ground arith in
            sym same
            ∙ ap (map (event_of parse_json)) (xread-log i p found came)
            ∙ map-segment (event_of parse_json) p (known i) log
      ]

  -- What the owner of a job gets is the beginning, from the event after the one that it names, of
  -- the events of the job up to the first that ends it: none is left out, repeated or put before
  -- another, and none follows the end, wherever the reads have cut them, and also if one throws;
  -- where the entries of a read are those of the log, as far as it is then known, after an id. If
  -- the whole log is known at one of the reads, and none throws, then it gets all of these events.
  pub stream-IsBegunBy :
      (reads p : ℕ) (owner : String) (last_event_id : Option String)
      → start_of last_event_id ≡ id_before "0" (map (event_of parse_json) log) p
      → (written : List (StreamEvent D)) × (result : Result E ⊤) × (stream parse_json xread reads
            (some owner)
            owner
            last_event_id
          ≡ streamed written result)
        × IsBegunBy (until_terminal (drop p (map (event_of parse_json) log))) written
        × ((j : ℕ)
            → j < reads
            → length log ≤ known j
            → result ≡ ok tt
            → written ≡ until_terminal (drop p (map (event_of parse_json) log)))
  unfolding stream
  stream-IsBegunBy reads p owner last_event_id here =
      let events = map (event_of parse_json) log in
      let read = read_next parse_json xread in
      let out = relay read reads 0 (start_of last_event_id) in
      (
        out.0,
        out.1,
        rw (eq_refl owner) refl,
        subst (λ id. IsBegunBy (until_terminal (drop p events)) (relay read reads 0 id).0)
            (sym here) (relay-IsBegunBy events known read read_next-log reads 0 p),
        λ j h all.
            let same = ap known (after_zero j) in
            let size = length-map (event_of parse_json) log in
            subst (λ id. IsWhole (relay read reads 0 id) (until_terminal (drop p events)))
              (sym here)
              (relay-IsWhole events known read read_next-log j reads 0 p h
                (omega (arith, all, same, size))),
      )
