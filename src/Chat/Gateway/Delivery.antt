-- ===== src/Chat/Gateway/Delivery.antt =====
-- What the notifications of a room deliver: every stored message once, in order, where no two have
-- the same time.
use mathlib.Core.Path.{subst}
use mathlib.Core.List.{append_assoc}
use public_nest_server.Base.{
  ℕ, ◌<◌, ◌≡◌, refl, sym, ap, ◌∙◌, Option, none, some, List, [], ◌∷◌, ◌++◌, String, ok, err, Result,
  Result-cases, Bool-cases, arith, inl, inr, text_eq, eq_iff,
}
use public_nest_server.Chat.Redis.{ZSets, members, after}
use public_nest_server.Chat.Store.Laws.{room}
use public_nest_server.Chat.Gateway.{
  Sockets, ChatServiceClient, Batch, on_shard_message, and_emitted, run_queue,
}
use public_nest_server.Chat.Gateway.Pulling.{IsStrict, IsScored}
use public_nest_server.Chat.Gateway.Flushing.{GatewayPod, IsFlushed, on_shard_message-IsFlushed}
use public_nest_server.Chat.Gateway.Emitting.{
  emitted_to, emits, on_shard_message_keeps, emits_other, emits_own, emits_nothing,
  on_shard_message_err,
}

module _ (zsets : ZSets) (sockets : Sockets zsets.Failure)
    (chat : ChatServiceClient zsets.Failure zsets.State) (message_of : zsets.Failure → String) where
  open zsets use {content, State, Failure}

  pub own_notification :
      (now : ℕ) (room_id : String) (since : ℕ) (pod : GatewayPod zsets sockets chat message_of)
      → 0 < sockets.size room_id pod.io
      → pod.room_last_flushed room_id ≡ some since
      → IsStrict (room zsets room_id pod.store)
      → IsScored (room zsets room_id pod.store)
      → IsFlushed zsets sockets chat message_of room_id since pod
          (on_shard_message zsets sockets chat message_of now room_id pod).1
          (emits zsets sockets chat message_of room_id room_id
            (on_shard_message zsets sockets chat message_of now room_id pod).0)
  own_notification now room_id since pod some_sockets h strict scored =
      let out = on_shard_message zsets sockets chat message_of now room_id pod in
      elim (Result-cases out.0) [
        | inl (batch, e) ↦
            let (_, done) =
              on_shard_message-IsFlushed zsets sockets chat message_of now room_id since batch pod
                some_sockets h strict scored e in
            subst (IsFlushed zsets sockets chat message_of room_id since pod out.1)
              (emits_own zsets sockets chat message_of room_id batch out.0 e) done
        | inr (x, e) ↦
            let (flushed, store, io) =
              on_shard_message_err zsets sockets chat message_of now room_id since x pod
                some_sockets h e in
            subst (IsFlushed zsets sockets chat message_of room_id since pod out.1)
              (emits_nothing zsets sockets chat message_of room_id room_id x out.0 e)
              record {
                latest = since;
                flushed = flushed;
                not_before = omega arith;
                pending = refl;
                store = store;
                io = io;
              }
      ]

  -- One notification, of whatever room and however it ends.
  pub notification-IsFlushed :
      (now : ℕ) (r room_id : String) (since : ℕ) (pod : GatewayPod zsets sockets chat message_of)
      → 0 < sockets.size room_id pod.io
      → pod.room_last_flushed room_id ≡ some since
      → IsStrict (room zsets room_id pod.store)
      → IsScored (room zsets room_id pod.store)
      → IsFlushed zsets sockets chat message_of room_id since pod
          (on_shard_message zsets sockets chat message_of now r pod).1
          (emits zsets sockets chat message_of room_id r
            (on_shard_message zsets sockets chat message_of now r pod).0)
  notification-IsFlushed now r room_id since pod some_sockets h strict scored =
      let out = on_shard_message zsets sockets chat message_of now r pod in
      elim (Bool-cases (text_eq r room_id)) [
        | inr other ↦
            let (flushed, store, io) =
              on_shard_message_keeps zsets sockets chat message_of now r room_id since pod h
                other in
            record {
              latest = since;
              flushed = flushed;
              not_before = omega arith;
              pending =
                  ap (λ l. l ++ members (after since (room zsets room_id pod.store)))
                    (sym (emits_other zsets sockets chat message_of room_id r out.0 other));
              store = store;
              io = io;
            }
        | inl same ↦
            let named : r ≡ room_id = (eq_iff r room_id).0 same in
            subst
              (λ x.
                IsFlushed zsets sockets chat message_of room_id since pod
                  (on_shard_message zsets sockets chat message_of now x pod).1
                  (emits zsets sockets chat message_of room_id x
                    (on_shard_message zsets sockets chat message_of now x pod).0))
              (sym named) (own_notification now room_id since pod some_sockets h strict scored)
      ]

  pub emitted_to-and_emitted :
      (room_id r : String) (out : Result Failure (Option Batch)) (batches : List (String × Batch))
      → emitted_to zsets sockets chat message_of room_id
          (and_emitted zsets sockets chat message_of r out batches)
        ≡ emits zsets sockets chat message_of room_id r out
          ++ (emitted_to zsets sockets chat message_of) room_id batches
  emitted_to-and_emitted room_id r (err e) batches = refl
  emitted_to-and_emitted room_id r (ok none) batches = ground arith
  emitted_to-and_emitted room_id r (ok (some batch)) batches = refl

  -- Whatever notifications arrive, of whatever rooms, and whichever of them throw: the sockets of a
  -- room that has some here and was flushed before get, one after another, the messages that are
  -- newer than the flush, oldest first and each once, up to those that are newer than the last
  -- flush afterwards; this holds where the messages' times differ and are their scores.
  pub run_queue-IsFlushed :
      (queue : List (ℕ × String)) (room_id : String) (since : ℕ)
      (pod : GatewayPod zsets sockets chat message_of)
      → 0 < sockets.size room_id pod.io
      → pod.room_last_flushed room_id ≡ some since
      → IsStrict (room zsets room_id pod.store)
      → IsScored (room zsets room_id pod.store)
      → IsFlushed zsets sockets chat message_of room_id since pod
          (run_queue zsets sockets chat message_of queue pod).1
          (emitted_to zsets sockets chat message_of room_id
            (run_queue zsets sockets chat message_of queue pod).0)
  unfolding run_queue
  run_queue-IsFlushed [] room_id since pod some_sockets h strict scored = record {
    latest = since;
    flushed = h;
    not_before = omega arith;
    pending = refl;
    store = refl;
    io = refl;
  }
  run_queue-IsFlushed ((now, r) ∷ queue) room_id since pod some_sockets h strict scored =
      let out = on_shard_message zsets sockets chat message_of now r pod in
      let one = notification-IsFlushed now r room_id since pod some_sockets h strict scored in
      let rest =
        run_queue-IsFlushed queue room_id one.latest out.1 (rw one.io some_sockets) one.flushed
          (rw one.store strict) (rw one.store scored) in
      let batches = (run_queue zsets sockets chat message_of queue out.1).0 in
      record {
        latest = rest.latest;
        flushed = rest.flushed;
        not_before = omega (arith, one.not_before, rest.not_before);
        pending =
            one.pending
            ∙ ap (λ l. emits zsets sockets chat message_of room_id r out.0 ++ l)
                (subst
                  (λ s.
                    members (after one.latest (room zsets room_id s))
                    ≡ emitted_to zsets sockets chat message_of room_id batches
                      ++ members (after rest.latest (room zsets room_id s)))
                  one.store rest.pending)
            ∙ sym (
                append_assoc (emits zsets sockets chat message_of room_id r out.0)
                  (emitted_to zsets sockets chat message_of room_id batches) _)
            ∙ ap (λ l. l ++ members (after rest.latest (room zsets room_id pod.store)))
                (sym (emitted_to-and_emitted room_id r out.0 batches));
        store = rest.store ∙ one.store;
        io = rest.io ∙ one.io;
      }
