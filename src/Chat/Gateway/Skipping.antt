-- ===== src/Chat/Gateway/Skipping.antt =====
-- A message that is not newer than the last flush is never delivered.
use mathlib.Core.Path.{subst}
use public_nest_server.Base.{
  ℕ, zero, suc, ◌≤◌, ◌<◌, ◌≡◌, refl, sym, ap, ◌∙◌, some, List, [], ◌∷◌, String, err, Result-cases,
  Bool-cases, All, All-append, All-take, arith, inl, inr, take, text_eq, eq_iff,
}
use public_nest_server.Chat.Redis.{ZSets, ChatMessage, Entry, members, after}
use public_nest_server.Chat.Store.{get_chat_zset_key, get_messages_since}
use public_nest_server.Chat.Store.Laws.{room}
use public_nest_server.Chat.Gateway.{
  max_pull_count, Sockets, ChatServiceClient, latest_of, flush, on_shard_message, run_queue,
}
use public_nest_server.Chat.Gateway.Pulling.{IsScored, le-latest_of}
use public_nest_server.Chat.Gateway.Delivery.{emitted_to-and_emitted}
use public_nest_server.Chat.Gateway.Emitting.{
  emitted_to, emits, emits_own, emits_other, emits_nothing, on_shard_message_err,
  on_shard_message_keeps,
}
use public_nest_server.Chat.Gateway.Flushing.{GatewayPod, flush-flushed}

module _ (zsets : ZSets) (sockets : Sockets zsets.Failure)
    (chat : ChatServiceClient zsets.Failure zsets.State) (message_of : zsets.Failure → String) where
  open zsets use {State, Failure}

  abbrev AllNewer : ℕ → List ChatMessage → Type 0
  AllNewer since ms = All (λ m. since < m.event_timestamp) ms

  members-AllNewer :
      (since : ℕ) (l : List Entry) → IsScored l → AllNewer since (members (after since l))
  members-AllNewer since [] scored = tt
  members-AllNewer since (e ∷ l) (score, scored) =
      let rest = members-AllNewer since l scored in ground arith

  members-take : (n : ℕ) (l : List Entry) → members (take n l) ≡ take n (members l)
  members-take zero l = refl
  members-take (suc n) [] = refl
  members-take (suc n) (e ∷ l) = ap (λ r. e.member ∷ r) (members-take n l)

  AllNewer-mono : (s t : ℕ) (ms : List ChatMessage) → s ≤ t → AllNewer t ms → AllNewer s ms
  AllNewer-mono s t [] le h = tt
  AllNewer-mono s t (m ∷ ms) le (p, h) = (omega arith, AllNewer-mono s t ms le h)

  -- What a notification does to a room, whether or not its messages' times differ.
  record IsLater (room_id : String) (since : ℕ)
      (pod pod' : GatewayPod zsets sockets chat message_of) (batch : List ChatMessage)
      : Type 0 where
    latest : ℕ
    flushed : pod'.room_last_flushed room_id ≡ some latest
    not_before : since ≤ latest
    newer : AllNewer since batch
    store : pod'.store ≡ pod.store
    io : pod'.io ≡ pod.io

  own-IsLater :
      (now : ℕ) (room_id : String) (since : ℕ) (pod : GatewayPod zsets sockets chat message_of)
      → 0 < sockets.size room_id pod.io
      → pod.room_last_flushed room_id ≡ some since
      → IsScored (room zsets room_id pod.store)
      → IsLater room_id since pod
          (on_shard_message zsets sockets chat message_of now room_id pod).1
          (emits zsets sockets chat message_of room_id room_id
            (on_shard_message zsets sockets chat message_of now room_id pod).0)
  unfolding on_shard_message get_messages_since
  own-IsLater now room_id since pod some_sockets h scored =
      let key : String = get_chat_zset_key room_id in
      let out = on_shard_message zsets sockets chat message_of now room_id pod in
      elim (Result-cases (zsets.zrangebyscore key since max_pull_count pod.store)) [
        | inr (x, e) ↦
            let failed : out.0 ≡ err x = ground arith in
            let (flushed, store, io) =
              on_shard_message_err zsets sockets chat message_of now room_id since x pod
                some_sockets h failed in
            subst (IsLater room_id since pod out.1)
              (emits_nothing zsets sockets chat message_of room_id room_id x out.0 failed)
              record {
                latest = since;
                flushed = flushed;
                not_before = omega arith;
                newer = tt;
                store = store;
                io = io;
              }
        | inl (ms, e) ↦
            let (r, ok_r, emitted, flushed, store, io) =
              flush-flushed zsets sockets chat message_of room_id since ms pod h in
            let end : out ≡ flush zsets sockets chat message_of room_id since ms pod =
              ground arith in
            let pulled : ms
                ≡ take max_pull_count (members (after since (room zsets room_id pod.store))) =
              zsets.zrangebyscore-ok key since max_pull_count ms pod.store e
              ∙ members-take max_pull_count _ in
            let newer : AllNewer since ms = rw pulled (
              All-take (λ m. since < m.event_timestamp) max_pull_count _
                (members-AllNewer since (room zsets room_id pod.store) scored)) in
            subst (IsLater room_id since pod out.1)
              (sym emitted
                ∙ emits_own zsets sockets chat message_of room_id r out.0
                    (ap (λ o. o.0) end ∙ ok_r))
              (rw end record {
                latest = latest_of since ms;
                flushed = flushed;
                not_before = le-latest_of since ms;
                newer = newer;
                store = store;
                io = io;
              })
      ]

  notification-IsLater :
      (now : ℕ) (r room_id : String) (since : ℕ) (pod : GatewayPod zsets sockets chat message_of)
      → 0 < sockets.size room_id pod.io
      → pod.room_last_flushed room_id ≡ some since
      → IsScored (room zsets room_id pod.store)
      → IsLater room_id since pod (on_shard_message zsets sockets chat message_of now r pod).1 (
          emits zsets sockets chat message_of room_id r
            (on_shard_message zsets sockets chat message_of now r pod).0)
  notification-IsLater now r room_id since pod some_sockets h scored =
      let out = on_shard_message zsets sockets chat message_of now r pod in
      elim (Bool-cases (text_eq r room_id)) [
        | inr other ↦
            let (flushed, store, io) =
              on_shard_message_keeps zsets sockets chat message_of now r room_id since pod h
                other in
            subst (IsLater room_id since pod out.1)
              (sym (emits_other zsets sockets chat message_of room_id r out.0 other))
              record {
                latest = since;
                flushed = flushed;
                not_before = omega arith;
                newer = tt;
                store = store;
                io = io;
              }
        | inl same ↦
            subst
              (λ x.
                IsLater room_id since pod
                  (on_shard_message zsets sockets chat message_of now x pod).1
                  (emits zsets sockets chat message_of room_id x
                    (on_shard_message zsets sockets chat message_of now x pod).0))
              (sym ((eq_iff r room_id).0 same))
              (own-IsLater now room_id since pod some_sockets h scored)
      ]

  -- Whatever notifications arrive, the sockets of a room that was flushed up to a time get no
  -- message of that time or an earlier one: a message that was saved in the same millisecond as
  -- the newest one of the flush, but after it, is never emitted.
  pub run_queue_skips_old :
      (queue : List (ℕ × String)) (room_id : String) (since : ℕ)
      (pod : GatewayPod zsets sockets chat message_of)
      → 0 < sockets.size room_id pod.io
      → pod.room_last_flushed room_id ≡ some since
      → IsScored (room zsets room_id pod.store)
      → All
          (λ m. since < m.event_timestamp)
          (emitted_to zsets sockets chat message_of room_id
            (run_queue zsets sockets chat message_of queue pod).0)
  unfolding run_queue
  run_queue_skips_old [] room_id since pod some_sockets h scored = tt
  run_queue_skips_old ((now, r) ∷ queue) room_id since pod some_sockets h scored =
      let out = on_shard_message zsets sockets chat message_of now r pod in
      let one = notification-IsLater now r room_id since pod some_sockets h scored in
      let batches = (run_queue zsets sockets chat message_of queue out.1).0 in
      let rest =
        run_queue_skips_old queue room_id one.latest out.1 (rw one.io some_sockets) one.flushed
          (rw one.store scored) in
      subst (AllNewer since)
        (sym (emitted_to-and_emitted zsets sockets chat message_of room_id r out.0 batches))
        (All-append (λ m. since < m.event_timestamp) _ _ one.newer
          (AllNewer-mono since one.latest _ one.not_before rest))
