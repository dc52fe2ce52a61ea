-- ===== src/Chat/Gateway/Draining.antt =====
-- Enough notifications deliver all of a room's messages.
use public_nest_server.Base.{
  ℕ, zero, suc, ◌+◌, ◌*◌, ◌≤◌, ◌<◌, ◌≡◌, refl, sym, ap, ◌∙◌, Option, some, List, [], ◌∷◌, ◌++◌, map,
  String, ok, arith, take, length, length-map, length-append,
}
use public_nest_server.Chat.Redis.{ZSets, ChatMessage, Entry, members, after}
use public_nest_server.Chat.Store.{get_chat_zset_key, get_messages_since}
use public_nest_server.Chat.Store.Laws.{room}
use public_nest_server.Chat.Gateway.{
  max_pull_count, Sockets, ChatServiceClient, Batch, on_shard_message, run_queue,
}
use public_nest_server.Chat.Gateway.Pulling.{IsStrict, IsScored, messages_of}
use public_nest_server.Chat.Gateway.Delivery.{emitted_to-and_emitted}
use public_nest_server.Chat.Gateway.Emitting.{emitted_to, emits_own}
use public_nest_server.Chat.Gateway.Flushing.{GatewayPod, on_shard_message-IsFlushed, flush-flushed}

le-length-take {ℓ} :
    {A : Type ℓ} (n k : ℕ) (l : List A) → length l ≤ n + k → length l ≤ length (take n l) + k
le-length-take zero k l h = omega arith
le-length-take (suc n) k [] h = omega arith
le-length-take (suc n) k (x ∷ l) h = omega (arith, le-length-take n k l)

length-rest :
    (n k : ℕ) (l rest : List Entry)
    → members l ≡ members (take n l) ++ members rest
    → length l ≤ n + k
    → length rest ≤ k
length-rest n k l rest split small = omega (
  arith,
  ap length split,
  length-append (members (take n l)) (members rest),
  length-map (λ (e : Entry). e.member) l,
  length-map (λ (e : Entry). e.member) (take n l),
  length-map (λ (e : Entry). e.member) rest,
  le-length-take n k l small,
)

nothing_left : (l : List Entry) → length l ≤ 0 → members l ≡ []
nothing_left [] h = refl
nothing_left (e ∷ l) h = absurd (omega arith)

module _ (zsets : ZSets) (sockets : Sockets zsets.Failure)
    (chat : ChatServiceClient zsets.Failure zsets.State) (message_of : zsets.Failure → String) where
  open zsets use {State, Failure}

  -- Redis answers every pull of a room.
  abbrev pub Answers : String → State → Type 0
  Answers room_id s =
      (since : ℕ)
      → (ms : List ChatMessage) × (zsets.zrangebyscore (get_chat_zset_key room_id) since
            max_pull_count s
          ≡ ok ms)

  answered :
      (now : ℕ) (room_id : String) (since : ℕ) (pod : GatewayPod zsets sockets chat message_of)
      → 0 < sockets.size room_id pod.io
      → pod.room_last_flushed room_id ≡ some since
      → Answers room_id pod.store
      → (r : Option Batch) × ((on_shard_message zsets sockets chat message_of now room_id pod).0
          ≡ ok r)
  unfolding on_shard_message get_messages_since
  answered now room_id since pod some_sockets h answers =
      let (ms, e) = answers since in
      let (r, ok_r, _, _, _, _) =
        flush-flushed zsets sockets chat message_of room_id since ms pod h in
      (r, ground arith)

  -- One notification for every 200 messages, or fewer, that are newer than the last flush, delivers
  -- all of them to the sockets of the room, in order, if Redis answers and the messages' times
  -- differ and are their scores.
  pub run_queue-drains :
      (times : List ℕ) (room_id : String) (since : ℕ)
      (pod : GatewayPod zsets sockets chat message_of)
      → 0 < sockets.size room_id pod.io
      → pod.room_last_flushed room_id ≡ some since
      → IsStrict (room zsets room_id pod.store)
      → IsScored (room zsets room_id pod.store)
      → Answers room_id pod.store
      → length (after since (room zsets room_id pod.store)) ≤ max_pull_count * length times
      → emitted_to zsets sockets chat message_of room_id
          (run_queue zsets sockets chat message_of (map (λ now. (now, room_id)) times) pod).0
        ≡ members (after since (room zsets room_id pod.store))
  unfolding run_queue
  run_queue-drains [] room_id since pod some_sockets h strict scored answers few =
      sym (nothing_left (after since (room zsets room_id pod.store)) (omega arith))
  run_queue-drains (now ∷ times) room_id since pod some_sockets h strict scored answers few =
      let out = on_shard_message zsets sockets chat message_of now room_id pod in
      let newer : List Entry = after since (room zsets room_id pod.store) in
      let queue : List (ℕ × String) = map (λ n. (n, room_id)) times in
      let (r, e) = answered now room_id since pod some_sockets h answers in
      let (taken, one) =
        on_shard_message-IsFlushed zsets sockets chat message_of now room_id since r pod
          some_sockets h strict scored e in
      let rest : List Entry = after one.latest (room zsets room_id pod.store) in
      let left : length rest ≤ max_pull_count * length times =
        length-rest max_pull_count (max_pull_count * length times) newer rest
          (one.pending ∙ ap (λ l. l ++ members rest) taken) (omega arith) in
      let others =
        run_queue-drains times room_id one.latest out.1 (rw one.io some_sockets) one.flushed
          (rw one.store strict) (rw one.store scored) (rw one.store answers) (rw one.store left) in
      let batches = (run_queue zsets sockets chat message_of queue out.1).0 in
      emitted_to-and_emitted zsets sockets chat message_of room_id room_id out.0 batches
      ∙ ap (λ l. l ++ emitted_to zsets sockets chat message_of room_id batches)
          (sym (emits_own zsets sockets chat message_of room_id r out.0 e))
      ∙ ap (λ l. messages_of r ++ l)
          (others ∙ ap (λ s. members (after one.latest (room zsets room_id s))) one.store)
      ∙ sym one.pending
