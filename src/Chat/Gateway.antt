-- ===== src/Chat/Gateway.antt =====
-- ChatGateway (apps/gateway/src/chat/chat-gateway.gateway.ts): the sockets of one pod. Socket.IO and
-- the client of the chat service are parameters; a payload stands for its FlatBuffers bytes, and is
-- missing where they cannot be read. The time is an argument, in milliseconds.
pub mod Pulling
pub mod Delivery
pub mod Emitting
pub mod Flushing
pub mod Draining
pub mod Skipping
pub mod Sending
use public_nest_server.Base.{
  ℕ, zero, ◌*◌, ◌<◌, ◌≡◌, ◌==◌, Option, none, some, or_else, List, [], ◌∷◌, map, String, Bool, true,
  false, ltb, text_eq, Result, ok, err, Action, pure, ◌>>=◌, ◌>>◌, if◌then◌else◌, ⊤,
}
use mathlib.Core.List.{reverse}
use public_nest_server.Chat.Redis.{ZSets, ChatMessage}
use public_nest_server.Chat.Store.{
  SaveMessageRequest, SaveMessageResponse, GetMessagesRequest, HistoryMessage, get_messages_since,
}

abbrev pub max_pull_count : ℕ
max_pull_count = 200

abbrev pub default_history_limit : ℕ
default_history_limit = 50

-- `client.data.user`
pub record ChatUser : Type 0 where
  pub uuid : String
  pub nick_name : Option String
  pub id : ℕ

-- the claims of a token
pub record Payload : Type 0 where
  pub uuid : Option String
  pub nick_name : Option String
  pub name : Option String
  pub id : Option ℕ

-- A text that is not `undefined` and not empty.
abbrev pub truthy : Option String → Option String
truthy none = none
truthy (some t) = if text_eq t "" then none else some t

abbrev pub user_of : (ℕ → String) → Payload → ChatUser
user_of show payload = record {
  uuid = or_else payload.uuid (elim payload.id [ none ↦ "undefined" | some i ↦ show i ]);
  nick_name = elim payload.nick_name [ none ↦ payload.name | some n ↦ some n ];
  id = or_else payload.id 0;
}

-- `a || b`
abbrev pub or_truthy : Option String → Option String → Option String
or_truthy a b = elim (truthy a) [ none ↦ truthy b | some t ↦ some t ]

-- `handleConnection` of the tokens of the handshake's `auth` and `query`: the user of the
-- connection, or `none` where it is closed. `verify` is that of the JWT service.
unfoldable pub handle_connection :
    (ℕ → String) → (String → Option Payload) → Option String → Option String → Option ChatUser
handle_connection show verify auth query = elim (or_truthy auth query) [
  | none ↦ none
  | some token ↦ elim (verify token) [ none ↦ none | some payload ↦ some (user_of show payload) ]
]

-- What a pod takes from Socket.IO.
pub record Sockets (Failure : Type 0) : Type 1 where
  pub Io : Type 0
  pub Client : Type 0
  -- how many sockets of this pod are in a room, and whether a client is
  pub size : String → Io → ℕ
  pub has : Client → String → Io → Bool
  pub join : Client → String → Action Failure Io ⊤
  pub leave : Client → String → Action Failure Io ⊤
  pub join-ok :
      (c : Client) (room : String) (u : ⊤) (io : Io)
      → (join c room io).0 ≡ ok u
      → (has c room (join c room io).1 ≡ true) × (0 < size room (join c room io).1)

-- The client of the chat service; a call that fails has thrown.
pub record ChatServiceClient (Failure State : Type 0) : Type 0 where
  pub save_message : SaveMessageRequest → Action Failure State SaveMessageResponse
  pub get_messages : GetMessagesRequest → Action Failure State (List HistoryMessage)

-- `MessageBatch`
pub record Batch : Type 0 where
  pub messages : List ChatMessage
  pub latest_event_timestamp : ℕ

pub data JoinReply : Type 0 where
  invalid_room_id : JoinReply
  joined : List HistoryMessage → JoinReply

pub data SendReply : Type 0 where
  sent : SendReply
  not_sent : String → SendReply

pub record SendMessage : Type 0 where
  pub room_id : Option String
  pub content : Option String

-- the greatest timestamp, from `since` on
unfoldable pub latest_of : ℕ → List ChatMessage → ℕ
latest_of latest [] = latest
latest_of latest (m ∷ messages) =
    latest_of (if ltb latest m.event_timestamp then m.event_timestamp else latest) messages

module _ (zsets : ZSets) (sockets : Sockets zsets.Failure)
    (chat : ChatServiceClient zsets.Failure zsets.State) (message_of : zsets.Failure → String) where
  open zsets use {Failure, State}
  open sockets use {Io, Client}

  pub record Pod : Type 0 where
    pub room_last_flushed : String → Option ℕ
    pub io : Io
    pub store : State

  -- `Map.set` and `Map.delete`
  abbrev pub with_flushed : String → Option ℕ → Pod → Pod
  with_flushed room_id ts pod = record pod {
    room_last_flushed = λ r. if text_eq r room_id then ts else pod.room_last_flushed r;
  }

  unfoldable pub init_room_last_flushed : ℕ → String → Pod → Pod
  init_room_last_flushed now room_id pod = elim (pod.room_last_flushed room_id) [
    | none ↦ with_flushed room_id (some (now * 1000)) pod
    | some ts ↦ pod
  ]

  unfoldable pub update_room_last_flushed : String → ℕ → Pod → Pod
  update_room_last_flushed room_id ts pod =
      if ltb (or_else (pod.room_last_flushed room_id) 0) ts
      then with_flushed room_id (some ts) pod
      else pod

  unfoldable pub cleanup_room : String → Pod → Pod
  cleanup_room room_id pod =
      if sockets.size room_id pod.io == 0 then with_flushed room_id none pod else pod

  -- a call of Redis, or of the chat service
  abbrev pub in_store : {A : Type 0} → Action Failure State A → Action Failure Pod A
  in_store m pod = let (r, store) = m pod.store in (r, record pod { store = store })

  abbrev pub in_io : {A : Type 0} → Action Failure Io A → Action Failure Pod A
  in_io m pod = let (r, io) = m pod.io in (r, record pod { io = io })

  -- the messages that were pulled, emitted as one batch; the time of the room's last flush
  unfoldable pub flush : String → ℕ → List ChatMessage → Action Failure Pod (Option Batch)
  unfolding update_room_last_flushed
  flush room_id since [] pod = (ok none, pod)
  flush room_id since (m ∷ messages) pod =
      let latest = latest_of since (m ∷ messages) in
      (
        ok (some (record { messages = m ∷ messages; latest_event_timestamp = latest })),
        update_room_last_flushed room_id latest pod,
      )

  -- `onShardMessage`; its result is the batch that was emitted to the room, if any
  unfoldable pub on_shard_message : ℕ → String → Action Failure Pod (Option Batch)
  unfolding init_room_last_flushed flush get_messages_since
  on_shard_message now room_id pod =
      if sockets.size room_id pod.io == 0
      then (ok none, pod)
      else elim (pod.room_last_flushed room_id) [
        | none ↦ (ok none, init_room_last_flushed now room_id pod)
        | some since ↦
            (do
              messages ← in_store (get_messages_since zsets room_id since max_pull_count)
              flush room_id since messages)
              pod
      ]

  -- what a notification has emitted; an error is only logged
  abbrev pub and_emitted :
      String → Result Failure (Option Batch) → List (String × Batch) → List (String × Batch)
  and_emitted room_id (err e) batches = batches
  and_emitted room_id (ok none) batches = batches
  and_emitted room_id (ok (some batch)) batches = (room_id, batch) ∷ batches

  -- the notifications of the rooms, which the queue of each room runs one after another
  unfoldable pub run_queue : List (ℕ × String) → Pod → List (String × Batch) × Pod
  run_queue [] pod = ([], pod)
  run_queue ((now, room_id) ∷ queue) pod =
      let (r, pod') = on_shard_message now room_id pod in
      let (batches, end) = run_queue queue pod' in (and_emitted room_id r batches, end)

  -- the history of a room, oldest first, or nothing if it cannot be loaded
  unfoldable pub load_history : String → ℕ → Action Failure Pod JoinReply
  load_history room_id limit pod =
      let (r, store) =
        chat.get_messages (record { room_id = room_id; limit = limit; before = 0 }) pod.store in
      let pod' : Pod = record pod { store = store } in
      elim r [
        | ok messages ↦ (ok (joined (reverse messages)), pod')
        | err e ↦ (ok (joined []), pod')
      ]

  unfoldable pub handle_join_room : ℕ → Client → String → Option ℕ → Action Failure Pod JoinReply
  unfolding init_room_last_flushed load_history
  handle_join_room now client room_id history_limit =
      if text_eq room_id "" then pure invalid_room_id else do
        in_io (sockets.join client room_id)
        (λ pod. (ok tt, init_room_last_flushed now room_id pod))
        load_history room_id (or_else history_limit default_history_limit)

  unfoldable pub handle_leave_room : Client → String → Action Failure Pod ⊤
  unfolding cleanup_room
  handle_leave_room client room_id = do
    in_io (sockets.leave client room_id)
    (λ pod. (ok tt, cleanup_room room_id pod))

  -- `saveMessage` of the chat service, for a user; an error becomes a reply
  unfoldable pub send : ChatUser → String → String → Pod → SendReply × Pod
  send user room_id content pod =
      let (r, store) =
        chat.save_message
          (record {
            room_id = room_id;
            sender_uuid = user.uuid;
            content = content;
            sender_nickname = or_else user.nick_name "";
          })
          pod.store in
      let pod' : Pod = record pod { store = store } in
      elim r [ ok reply ↦ (sent, pod') | err e ↦ (not_sent (message_of e), pod') ]

  -- the tests of the room and of the user
  unfoldable pub send_joined : Client → Option ChatUser → String → String → Pod → SendReply × Pod
  unfolding send
  send_joined client user room_id content pod =
      if sockets.has client room_id pod.io
      then elim user [
        | none ↦ (not_sent "Authentication failed", pod)
        | some u ↦ send u room_id content pod
      ]
      else (not_sent "join_room required", pod)

  unfoldable pub handle_send_message :
      Client → Option ChatUser → Option SendMessage → Pod → SendReply × Pod
  unfolding send_joined
  handle_send_message client user none pod = (not_sent "Invalid FlatBuffer payload", pod)
  handle_send_message client user (some payload) pod = elim (truthy payload.room_id) [
    | none ↦ (not_sent "roomId and content are required", pod)
    | some room_id ↦ elim (truthy payload.content) [
      | none ↦ (not_sent "roomId and content are required", pod)
      | some content ↦ send_joined client user room_id content pod
    ]
  ]
