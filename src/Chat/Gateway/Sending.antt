-- ===== src/Chat/Gateway/Sending.antt =====
-- Who may send a message to a room, and what joining a room gives.
use mathlib.Core.List.{reverse}
use public_nest_server.Base.{
  ℕ, ◌*◌, ◌<◌, ◌≡◌, refl, Option, none, some, or_else, List, [], String, true, false, ok, err,
  Result, Result-cases, Option-cases, Bool-cases, arith, inl, inr, ◌⊎◌, text_eq, eq_refl,
}
use public_nest_server.Chat.Redis.{ZSets}
use public_nest_server.Chat.Store.{SaveMessageRequest, SaveMessageResponse, HistoryMessage}
use public_nest_server.Chat.Gateway.{
  ChatUser, truthy, Sockets, ChatServiceClient, JoinReply, joined, SendReply, sent, not_sent,
  SendMessage, init_room_last_flushed, load_history, handle_join_room, send, send_joined,
  handle_send_message, default_history_limit,
}
use public_nest_server.Chat.Gateway.Flushing.{GatewayPod}

abbrev pub request_of : ChatUser → String → String → SaveMessageRequest
request_of user room_id content = record {
  room_id = room_id;
  sender_uuid = user.uuid;
  content = content;
  sender_nickname = or_else user.nick_name "";
}

module _ (zsets : ZSets) (sockets : Sockets zsets.Failure)
    (chat : ChatServiceClient zsets.Failure zsets.State) (message_of : zsets.Failure → String) where
  -- The store after the call of the chat service, and the reply that says how it went.
  abbrev pub Replied :
      Result zsets.Failure SaveMessageResponse × zsets.State
      → GatewayPod zsets sockets chat message_of
      → SendReply × GatewayPod zsets sockets chat message_of
      → Type 0
  Replied call pod out =
      (out.1 ≡ record pod { store = call.1 })
      × (((reply : SaveMessageResponse) × (call.0 ≡ ok reply) × (out.0 ≡ sent))
          ⊎ ((e : zsets.Failure) × (call.0 ≡ err e) × (out.0 ≡ not_sent (message_of e))))

  -- How an attempt to send a message may end: it is refused and nothing has changed, or a message
  -- of a connection that has joined the room and has a user was handed to the chat service.
  pub data Sending (client : sockets.Client) (user : Option ChatUser) (payload : Option SendMessage)
      (pod : GatewayPod zsets sockets chat message_of)
      (out : SendReply × GatewayPod zsets sockets chat message_of) : Type 0 where
    refused : (why : String) → out ≡ (not_sent why, pod) → Sending client user payload pod out
    handed :
        (u : ChatUser) (p : SendMessage) (room_id content : String)
        → payload ≡ some p
        → truthy p.room_id ≡ some room_id
        → truthy p.content ≡ some content
        → sockets.has client room_id pod.io ≡ true
        → user ≡ some u
        → Replied (chat.save_message (request_of u room_id content) pod.store) pod out
        → Sending client user payload pod out

  -- A message is handed to the chat service, as one of the connection's user, only if its payload
  -- can be read and names a room and a content, and the connection has joined the room; the reply
  -- then says whether the service has saved it. Any other message is refused, and nothing changes.
  pub handle_send_message-Sending :
      (client : sockets.Client) (user : Option ChatUser) (payload : Option SendMessage)
      (pod : GatewayPod zsets sockets chat message_of)
      → Sending client user payload pod
          (handle_send_message zsets sockets chat message_of client user payload pod)
  unfolding handle_send_message send_joined send
  handle_send_message-Sending client user none pod = refused "Invalid FlatBuffer payload" refl
  handle_send_message-Sending client user (some p) pod = elim (Option-cases (truthy p.room_id)) [
    | inl e ↦ refused "roomId and content are required" (ground arith)
    | inr (room_id, named) ↦ elim (Option-cases (truthy p.content)) [
      | inl e ↦ refused "roomId and content are required" (ground arith)
      | inr (content, filled) ↦ elim (Bool-cases (sockets.has client room_id pod.io)) [
        | inr outside ↦ refused "join_room required" (ground arith)
        | inl inside ↦ elim (Option-cases user) [
          | inl nobody ↦ refused "Authentication failed" (ground arith)
          | inr (u, known) ↦
              let call = chat.save_message (request_of u room_id content) pod.store in
              handed u p room_id content refl named filled inside known (
                ground arith,
                elim (Result-cases call.0) [
                  | inl (reply, e) ↦ inl (reply, e, ground arith)
                  | inr (x, e) ↦ inr (x, e, ground arith)
                ],
              )
        ]
      ]
    ]
  ]

  -- What a connection that has joined a room has got.
  pub record IsJoined (now : ℕ) (client : sockets.Client) (room_id : String) (limit : ℕ)
      (pod pod' : GatewayPod zsets sockets chat message_of) (history : List HistoryMessage)
      : Type 0 where
    pub inside : sockets.has client room_id pod'.io ≡ true
    pub some_sockets : 0 < sockets.size room_id pod'.io
    -- a room that has been flushed keeps its time, and a new one starts now
    pub flushed :
        pod'.room_last_flushed room_id ≡ some (or_else (pod.room_last_flushed room_id) (now * 1000))
    pub loaded :
        ((ms : List HistoryMessage) × ((chat.get_messages
              (record { room_id = room_id; limit = limit; before = 0 })
              pod.store).0
            ≡ ok ms)
          × (history ≡ reverse ms))
        ⊎ ((e : zsets.Failure) × ((chat.get_messages
                (record { room_id = room_id; limit = limit; before = 0 })
                pod.store).0
              ≡ err e)
            × (history ≡ []))

  -- A connection that joins a room, if that does not throw, is in the room, whose flush starts now
  -- unless it has started before, and gets the history of the room, oldest first, or none if the
  -- chat service fails.
  pub handle_join_room-IsJoined :
      (now : ℕ) (client : sockets.Client) (room_id : String) (history_limit : Option ℕ)
      (reply : JoinReply) (pod : GatewayPod zsets sockets chat message_of)
      → text_eq room_id "" ≡ false
      → (handle_join_room zsets sockets chat message_of now client room_id history_limit pod).0
        ≡ ok reply
      → (history : List HistoryMessage) × (reply ≡ joined history)
        × IsJoined now client room_id
            (or_else history_limit default_history_limit)
            pod
            (handle_join_room zsets sockets chat message_of now client room_id history_limit pod).1
            history
  unfolding handle_join_room load_history init_room_last_flushed
  handle_join_room-IsJoined now client room_id history_limit reply pod some_room h =
      let limit : ℕ = or_else history_limit default_history_limit in
      let entered = sockets.join client room_id pod.io in
      let asked =
        chat.get_messages (record { room_id = room_id; limit = limit; before = 0 }) pod.store in
      let out =
        handle_join_room zsets sockets chat message_of now client room_id history_limit pod in
      elim (Result-cases entered.0) [
        | inr (x, e) ↦ absurd (ground arith)
        | inl (u, e) ↦
            let (inside, some_sockets) = sockets.join-ok client room_id u pod.io e in
            let io : out.1.io ≡ entered.1 = ground arith in
            let flushed : out.1.room_last_flushed room_id
                ≡ some (or_else (pod.room_last_flushed room_id) (now * 1000)) =
              ground (arith, eq_refl room_id) in
            elim (Result-cases asked.0) [
              | inl (ms, e₂) ↦ (
                reverse ms,
                ground arith,
                record {
                  inside = rw io inside;
                  some_sockets = rw io some_sockets;
                  flushed = flushed;
                  loaded = inl (ms, e₂, refl);
                },
              )
              | inr (x, e₂) ↦ (
                [],
                ground arith,
                record {
                  inside = rw io inside;
                  some_sockets = rw io some_sockets;
                  flushed = flushed;
                  loaded = inr (x, e₂, refl);
                },
              )
            ]
      ]
