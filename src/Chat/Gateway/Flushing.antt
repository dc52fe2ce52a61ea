-- ===== src/Chat/Gateway/Flushing.antt =====
-- What the notification of a room delivers, if it does not throw.
use public_nest_server.Base.{
  ℕ, ◌≤◌, ◌<◌, ◌≡◌, refl, sym, ap, ◌∙◌, Option, none, some, List, [], ◌∷◌, ◌++◌, String, ok,
  Result-cases, arith, inl, inr, take, eq_refl,
}
use public_nest_server.Chat.Redis.{ZSets, ChatMessage, Entry, members, after}
use public_nest_server.Chat.Store.{get_chat_zset_key, get_messages_since}
use public_nest_server.Chat.Store.Laws.{room}
use public_nest_server.Chat.Gateway.{
  max_pull_count, Sockets, ChatServiceClient, Batch, latest_of, Pod, update_room_last_flushed,
  flush, on_shard_message,
}
use public_nest_server.Chat.Gateway.Pulling.{
  IsStrict, IsScored, le-latest_of, flushed_rest, messages_of,
}

module _ (zsets : ZSets) (sockets : Sockets zsets.Failure)
    (chat : ChatServiceClient zsets.Failure zsets.State) (message_of : zsets.Failure → String) where
  open zsets use {content, State, Failure}

  abbrev pub GatewayPod : Type 0
  GatewayPod = Pod zsets sockets chat message_of

  -- What one notification does to a room that has sockets here: `batch` is what its sockets get.
  pub record IsFlushed (room_id : String) (since : ℕ) (pod pod' : GatewayPod)
      (batch : List ChatMessage) : Type 0 where
    pub latest : ℕ
    pub flushed : pod'.room_last_flushed room_id ≡ some latest
    pub not_before : since ≤ latest
    pub pending :
        members (after since (room zsets room_id pod.store))
        ≡ batch ++ members (after latest (room zsets room_id pod.store))
    pub store : pod'.store ≡ pod.store
    pub io : pod'.io ≡ pod.io

  update-flushed :
      (room_id : String) (since ts : ℕ) (pod : GatewayPod)
      → pod.room_last_flushed room_id ≡ some since
      → since ≤ ts
      → let after_update = update_room_last_flushed zsets sockets chat message_of room_id ts pod in
        (after_update.room_last_flushed room_id ≡ some ts)
        × (after_update.store ≡ pod.store)
        × (after_update.io ≡ pod.io)
  unfolding update_room_last_flushed
  update-flushed room_id since ts pod h le =
      (ground (arith, eq_refl room_id), ground arith, ground arith)

  pub flush-flushed :
      (room_id : String) (since : ℕ) (ms : List ChatMessage) (pod : GatewayPod)
      → pod.room_last_flushed room_id ≡ some since
      → let out = flush zsets sockets chat message_of room_id since ms pod in
        (r : Option Batch) × (out.0 ≡ ok r)
        × (messages_of r ≡ ms)
        × (out.1.room_last_flushed room_id ≡ some (latest_of since ms))
        × (out.1.store ≡ pod.store)
        × (out.1.io ≡ pod.io)
  unfolding flush latest_of
  flush-flushed room_id since [] pod h = (none, refl, refl, h, refl, refl)
  flush-flushed room_id since (m ∷ ms) pod h =
      let latest : ℕ = latest_of since (m ∷ ms) in
      let (flushed, store, io) =
        update-flushed room_id since latest pod h (le-latest_of since (m ∷ ms)) in
      (
        some (record { messages = m ∷ ms; latest_event_timestamp = latest }),
        refl,
        refl,
        flushed,
        store,
        io,
      )

  -- A notification of a room that has sockets here and was flushed before, if it does not throw,
  -- emits to them the first 200 of the messages that are newer, oldest first, as one batch; where
  -- the messages' times differ and are their scores, the messages that are newer than the flush
  -- afterwards are exactly the others.
  pub on_shard_message-IsFlushed :
      (now : ℕ) (room_id : String) (since : ℕ) (r : Option Batch) (pod : GatewayPod)
      → 0 < sockets.size room_id pod.io
      → pod.room_last_flushed room_id ≡ some since
      → IsStrict (room zsets room_id pod.store)
      → IsScored (room zsets room_id pod.store)
      → (on_shard_message zsets sockets chat message_of now room_id pod).0 ≡ ok r
      → (messages_of r ≡ members (take max_pull_count (after since (room zsets room_id pod.store))))
        × IsFlushed room_id since pod
            (on_shard_message zsets sockets chat message_of now room_id pod).1
            (messages_of r)
  unfolding on_shard_message get_messages_since
  on_shard_message-IsFlushed now room_id since r pod some_sockets h strict scored done =
      let key : String = get_chat_zset_key room_id in
      let newer : List Entry = after since (room zsets room_id pod.store) in
      elim (Result-cases (zsets.zrangebyscore key since max_pull_count pod.store)) [
        | inr (x, e) ↦ absurd (ground arith)
        | inl (ms, e) ↦
            let pulled : ms ≡ members (take max_pull_count newer) =
              zsets.zrangebyscore-ok key since max_pull_count ms pod.store e in
            let (r', ok_r, emitted, flushed, store, io) = flush-flushed room_id since ms pod h in
            let end : on_shard_message zsets sockets chat message_of now room_id pod
                ≡ flush zsets sockets chat message_of room_id since ms pod =
              ground arith in
            let same : r' ≡ r = ground arith in
            let batch : messages_of r ≡ ms = ap messages_of (sym same) ∙ emitted in
            let rest = flushed_rest since (room zsets room_id pod.store) strict scored in
            (
              batch ∙ pulled,
              rw (end, batch)
                  record {
                    latest = latest_of since ms;
                    flushed = flushed;
                    not_before = le-latest_of since ms;
                    pending = rw pulled rest;
                    store = store;
                    io = io;
                  },
            )
      ]
