-- ===== src/Chat/Gateway/Emitting.antt =====
-- What the notification of one room leaves of another, and what it gives out.
use public_nest_server.Base.{
  ℕ, ◌<◌, ◌≡◌, ◌==◌, refl, Option, some, List, [], ◌∷◌, ◌++◌, String, ok, err, Result, Result-cases,
  Option-cases, Bool-cases, arith, inl, inr, text_eq, if◌then◌else◌, false, eq_iff, eq_refl,
}
use public_nest_server.Chat.Redis.{ZSets, ChatMessage}
use public_nest_server.Chat.Store.{get_chat_zset_key, get_messages_since}
use public_nest_server.Chat.Gateway.{
  max_pull_count, Sockets, ChatServiceClient, Batch, init_room_last_flushed,
  update_room_last_flushed, flush, on_shard_message,
}
use public_nest_server.Chat.Gateway.Pulling.{messages_of}
use public_nest_server.Chat.Gateway.Flushing.{GatewayPod, flush-flushed}

module _ (zsets : ZSets) (sockets : Sockets zsets.Failure)
    (chat : ChatServiceClient zsets.Failure zsets.State) (message_of : zsets.Failure → String) where
  open zsets use {content, State, Failure}

  -- What the sockets of a room get from the batches that were emitted.
  abbrev pub emitted_to : String → List (String × Batch) → List ChatMessage
  emitted_to room_id [] = []
  emitted_to room_id ((r, batch) ∷ batches) =
      (if text_eq r room_id then batch.messages else []) ++ emitted_to room_id batches

  abbrev pub emits : String → String → Result Failure (Option Batch) → List ChatMessage
  emits room_id r (err e) = []
  emits room_id r (ok batch) = if text_eq r room_id then messages_of batch else []

  -- Another room's flush.
  flush_keeps :
      (r room_id : String) (since : ℕ) (ms : List ChatMessage)
      (pod : GatewayPod zsets sockets chat message_of)
      → text_eq room_id r ≡ false
      → let out = flush zsets sockets chat message_of r since ms pod in
        (out.1.room_last_flushed room_id ≡ pod.room_last_flushed room_id)
        × (out.1.store ≡ pod.store)
        × (out.1.io ≡ pod.io)
  unfolding flush update_room_last_flushed
  flush_keeps r room_id since [] pod other = (refl, refl, refl)
  flush_keeps r room_id since (m ∷ ms) pod other = (ground arith, ground arith, ground arith)

  -- The notification of another room.
  pub on_shard_message_keeps :
      (now : ℕ) (r room_id : String) (since : ℕ) (pod : GatewayPod zsets sockets chat message_of)
      → pod.room_last_flushed room_id ≡ some since
      → text_eq r room_id ≡ false
      → let out = on_shard_message zsets sockets chat message_of now r pod in
        (out.1.room_last_flushed room_id ≡ some since)
        × (out.1.store ≡ pod.store)
        × (out.1.io ≡ pod.io)
  unfolding on_shard_message get_messages_since init_room_last_flushed flush
      update_room_last_flushed
  on_shard_message_keeps now r room_id since pod h other =
      let elsewhere : text_eq room_id r ≡ false =
        ground (arith, eq_iff r room_id, eq_iff room_id r) in
      elim (Bool-cases (sockets.size r pod.io == 0)) [
        | inl empty ↦ (ground arith, ground arith, ground arith)
        | inr some_sockets ↦ elim (Option-cases (pod.room_last_flushed r)) [
          | inl never ↦ (ground arith, ground arith, ground arith)
          | inr (from, e) ↦
              elim (Result-cases
                (zsets.zrangebyscore (get_chat_zset_key r) from max_pull_count pod.store)) [
                  | inr (x, e₂) ↦ (ground arith, ground arith, ground arith)
                  | inl (ms, e₂) ↦
                      let (kept, store, io) = flush_keeps r room_id from ms pod elsewhere in
                      (ground arith, ground arith, ground arith)
                ]
        ]
      ]

  pub emits_other :
      (room_id r : String) (out : Result Failure (Option Batch))
      → text_eq r room_id ≡ false
      → emits room_id r out ≡ []
  emits_other room_id r (err e) other = refl
  emits_other room_id r (ok batch) other = rw other refl

  pub emits_own :
      (room_id : String) (batch : Option Batch) (out : Result Failure (Option Batch))
      → out ≡ ok batch
      → messages_of batch ≡ emits room_id room_id out
  emits_own room_id batch (ok b) h = ground (arith, eq_refl room_id)
  emits_own room_id batch (err e) h = cc

  pub emits_nothing :
      (room_id r : String) (x : Failure) (out : Result Failure (Option Batch))
      → out ≡ err x
      → [] ≡ emits room_id r out
  emits_nothing room_id r x (ok b) h = cc
  emits_nothing room_id r x (err e) h = refl

  -- A notification that throws.
  pub on_shard_message_err :
      (now : ℕ) (room_id : String) (since : ℕ) (x : Failure)
      (pod : GatewayPod zsets sockets chat message_of)
      → 0 < sockets.size room_id pod.io
      → pod.room_last_flushed room_id ≡ some since
      → let out = on_shard_message zsets sockets chat message_of now room_id pod in
        out.0 ≡ err x
        → (out.1.room_last_flushed room_id ≡ some since)
          × (out.1.store ≡ pod.store)
          × (out.1.io ≡ pod.io)
  unfolding on_shard_message get_messages_since
  on_shard_message_err now room_id since x pod some_sockets h failed =
      elim (Result-cases
        (zsets.zrangebyscore (get_chat_zset_key room_id) since max_pull_count pod.store)) [
          | inr (y, e) ↦ (ground arith, ground arith, ground arith)
          | inl (ms, e) ↦
              let (r', ok_r, _, _, _, _) =
                flush-flushed zsets sockets chat message_of room_id since ms pod h in
              absurd (ground arith)
        ]
