-- ===== src/Chat/Store.antt =====
-- RedisChatZsetRepository (libs/rpc/src/chat-realtime/redis-chat-zset.repository.ts), and of the chat
-- service MessageService, ChatMessageStoreAdapter and ChatGrpcController with its mapper.
pub mod Laws
use Prim.Native.String
use public_nest_server.Base.{
  ℕ, ◌*◌, Option, none, some, or_else, List, [], ◌∷◌, map, String, Bool, ltb, Result, Action, lift,
  pure, ◌>>=◌, ◌>>◌, negsuc, if◌then◌else◌, ⊤,
}
use public_nest_server.Chat.Redis.{ZSets, ChatMessage}

-- `getChatZsetKey`
unfoldable pub get_chat_zset_key : String → String
get_chat_zset_key room_id = String.◌++◌ "chat:messages:" room_id

pub record SaveMessageRequest : Type 0 where
  pub room_id : String
  pub sender_uuid : String
  pub content : String
  pub sender_nickname : String

pub record SaveMessageResponse : Type 0 where
  pub message_id : String
  pub created_at : ℕ

-- `before` is a number, 0 where it is missing.
pub record GetMessagesRequest : Type 0 where
  pub room_id : String
  pub limit : ℕ
  pub before : ℕ

-- `ChatMessage` of the protocol, which is `HistoryMessage` of the gateway too
pub record HistoryMessage : Type 0 where
  pub message_id : String
  pub sender_uuid : String
  pub content : String
  pub created_at : ℕ
  pub sender_nickname : String

-- `ChatGrpcMapper.toMessageBuffer`
unfoldable pub to_message_buffer : SaveMessageRequest → String → ℕ → ℕ → ChatMessage
to_message_buffer request message_id timestamp event_timestamp = record {
  id = message_id;
  sender_id = request.sender_uuid;
  content = request.content;
  metadata = request.sender_nickname;
  timestamp = timestamp;
  event_timestamp = event_timestamp;
}

-- the reply of `ChatGrpcMapper.toGetMessagesResponse`, for one message
unfoldable pub to_reply_message : ChatMessage → HistoryMessage
to_reply_message m = record {
  message_id = m.id;
  sender_uuid = m.sender_id;
  content = m.content;
  created_at = m.timestamp;
  sender_nickname = m.metadata;
}

-- CHAT_SOCKET_NOTIFY of a room
pub data Notification : Type 0 where
  socket_notify : String → Notification

module _ (zsets : ZSets) where
  open zsets use {Failure, State, zadd, zrangebyscore, zrevrangebyscore, zremrangebyrank}

  unfoldable pub add_message : String → ChatMessage → ℕ → Action Failure State ⊤
  add_message room_id message timestamp = zadd (get_chat_zset_key room_id) timestamp message

  unfoldable pub get_messages_since : String → ℕ → ℕ → Action Failure State (List ChatMessage)
  get_messages_since room_id since limit s =
      (zrangebyscore (get_chat_zset_key room_id) since limit s, s)

  -- `zremrangebyrank(key, 0, -(maxMessages + 1))`
  unfoldable pub trim_messages : String → ℕ → Action Failure State ⊤
  trim_messages room_id max_messages =
      zremrangebyrank (get_chat_zset_key room_id) (negsuc max_messages)

  unfoldable pub get_messages_before : String → ℕ → ℕ → Action Failure State (List ChatMessage)
  get_messages_before room_id before limit s =
      (zrevrangebyscore (get_chat_zset_key room_id) before limit s, s)

  -- `persistAndNotify` on the channel `socket`; its result is the event that was emitted
  unfoldable pub persist_and_notify :
      ℕ → String → ChatMessage → ℕ → Action Failure State Notification
  unfolding add_message trim_messages
  persist_and_notify max_messages_per_room room_id message event_timestamp = do
    add_message room_id message event_timestamp
    trim_messages room_id max_messages_per_room
    pure (socket_notify room_id)

  -- `saveMessage`, of the time and the new id
  unfoldable pub save_message :
      ℕ
      → ℕ
      → String
      → SaveMessageRequest
      → Action Failure State (SaveMessageResponse × Notification)
  unfolding to_message_buffer
  save_message max_messages_per_room timestamp message_id request = do
    let event_timestamp = timestamp * 1000
    let message = to_message_buffer request message_id timestamp event_timestamp
    notification ← persist_and_notify max_messages_per_room request.room_id message event_timestamp
    pure (record { message_id = message_id; created_at = timestamp }, notification)

  -- `getMessages`: a missing or zero `before` is the present time
  unfoldable pub get_messages : ℕ → GetMessagesRequest → Action Failure State (List HistoryMessage)
  get_messages now request = do
    let before = if ltb 0 request.before then request.before else now * 1000
    buffers ← get_messages_before request.room_id before request.limit
    pure (map to_reply_message buffers)
