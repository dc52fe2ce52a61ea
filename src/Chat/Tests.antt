-- ===== src/Chat/Tests.antt =====
-- The chat on sorted sets and sockets in memory: two stored messages, and one socket in the room.
use public_nest_server.Base.{
  eq_iff, ap, result_map, ℕ, ◌*◌, ◌/◌, ◌%◌, ◌≤◌, ◌<◌, ◌≡◌, ◌≢◌, refl, none, some, List, [], ◌∷◌,
  String, true, ok, Action, arith, All, text_eq, if◌then◌else◌, leb, length,
}
use public_nest_server.Llm.Models.{is_in}
use public_nest_server.Chat.Redis.{ChatMessage, Entry, members, after}
use public_nest_server.Chat.Hash.{djb2, utf16_units, shard_index, channel_of_room, subscribed, word}
use public_nest_server.Chat.Hash.Laws.{polynomial, channel_of_room-subscribed}
use public_nest_server.Chat.Store.{
  get_chat_zset_key, SaveMessageRequest, SaveMessageResponse, GetMessagesRequest, HistoryMessage,
  to_message_buffer, to_reply_message, socket_notify, Notification, save_message, get_messages,
  persist_and_notify, add_message, trim_messages, get_messages_before, get_messages_since,
}
use public_nest_server.Chat.Store.Laws.{IsSaved, room, save_message-IsSaved}
use public_nest_server.Chat.Gateway.{
  ChatServiceClient, Pod, Batch, ChatUser, SendMessage, joined, max_pull_count, on_shard_message,
  run_queue, flush, latest_of, handle_join_room, load_history, handle_send_message,
}
use public_nest_server.Chat.Gateway.Pulling.{IsStrict, IsScored}
use public_nest_server.Chat.Gateway.Delivery.{run_queue-IsFlushed}
use public_nest_server.Chat.Gateway.Emitting.{emitted_to}
use public_nest_server.Chat.Gateway.Flushing.{IsFlushed}
use public_nest_server.Chat.Gateway.Draining.{run_queue-drains}
use public_nest_server.Chat.Gateway.Sending.{
  Sending, IsJoined, handle_send_message-Sending, handle_join_room-IsJoined,
}
use public_nest_server.Chat.Memory.{memory, Ordered, sockets}

abbrev show : ℕ → String
show n = if leb 1 n then "1" else "0"

channel_of_room-subscribed_example :
    (djb2 0 (utf16_units (97 ∷ [])) ≡ polynomial 0 (utf16_units (97 ∷ [])) % word)
    × (shard_index "a" 2 < 2)
    × (is_in (channel_of_room show "a" 2) (subscribed show 2) ≡ true)
channel_of_room-subscribed_example = channel_of_room-subscribed show "a" 2 (omega arith)

abbrev message : String → ℕ → ChatMessage
message id time = record {
  id = id;
  sender_id = "u";
  content = "hi";
  metadata = "n";
  timestamp = time / 1000;
  event_timestamp = time;
}

abbrev entry : String → ℕ → Entry
entry id time = record { score = time; member = message id time }

abbrev stored : Ordered
stored = (entry "m1" 1000 ∷ entry "m2" 2000 ∷ [], ((omega arith, tt), (tt, tt)))

abbrev sets : String → Ordered
sets k = if text_eq k "chat:messages:r" then stored else ([], tt)

abbrev ask : SaveMessageRequest
ask = record { room_id = "r"; sender_uuid = "u"; content = "hi"; sender_nickname = "n" }

abbrev saved_reply : SaveMessageResponse × Notification
saved_reply = (record { message_id = "m3"; created_at = 3 }, socket_notify "r")

saved : (save_message memory 2 3 "m3" ask sets).0 ≡ ok saved_reply
unfolding save_message persist_and_notify add_message trim_messages
saved = refl

new_message : All (λ e. e.member ≢ to_message_buffer ask "m3" 3 3000) (room memory "r" sets)
unfolding to_message_buffer get_chat_zset_key
new_message = (
  (λ e. let ids = ap (λ m. m.id) e in ground (arith, eq_iff "m1" "m3")),
  ((λ e. let ids = ap (λ m. m.id) e in ground (arith, eq_iff "m2" "m3")), tt),
)

save_message-IsSaved_example :
    IsSaved memory 2
      (to_message_buffer ask "m3" 3 3000)
      (room memory "r" sets)
      (room memory "r" (save_message memory 2 3 "m3" ask sets).1)
    × (saved_reply ≡ (record { message_id = "m3"; created_at = 3 }, socket_notify "r"))
save_message-IsSaved_example =
    save_message-IsSaved memory 2 3 "m3" ask saved_reply sets new_message saved

abbrev last_one : GetMessagesRequest
last_one = record { room_id = "r"; limit = 1; before = 0 }

abbrev shown : HistoryMessage
shown = record {
  message_id = "m2";
  sender_uuid = "u";
  content = "hi";
  created_at = 2;
  sender_nickname = "n";
}

history_shown : (get_messages memory 9 last_one sets).0 ≡ ok (shown ∷ [])
unfolding get_messages get_messages_before get_chat_zset_key to_reply_message
history_shown = refl

abbrev backend_save : SaveMessageRequest → Action String (String → Ordered) SaveMessageResponse
backend_save request s =
    let (r, s') = save_message memory 500 9 "m9" request s in (result_map (λ p. p.0) r, s')

abbrev backend : ChatServiceClient String (String → Ordered)
backend = record { save_message = backend_save; get_messages = get_messages memory 9 }

abbrev same_text : String → String
same_text t = t

abbrev pod : Pod memory sockets backend same_text
pod = record {
  room_last_flushed = λ r. if text_eq r "r" then some 500 else none;
  io = (1, "r") ∷ [];
  store = sets;
}

abbrev flushed_batch : Batch
flushed_batch = record {
  messages = message "m1" 1000 ∷ message "m2" 2000 ∷ [];
  latest_event_timestamp = 2000;
}

stored-IsStrict : IsStrict (room memory "r" sets)
unfolding get_chat_zset_key
stored-IsStrict = ((omega arith, tt), (tt, tt))

stored-IsScored : IsScored (room memory "r" sets)
unfolding get_chat_zset_key
stored-IsScored = (refl, (refl, tt))

flush-done :
    (on_shard_message memory sockets backend same_text 9 "r" pod).0 ≡ ok (some flushed_batch)
unfolding on_shard_message get_messages_since flush latest_of get_chat_zset_key
flush-done = refl

run_queue-IsFlushed_example :
    IsFlushed memory sockets backend same_text "r" 500 pod
      (run_queue memory sockets backend same_text ((9, "x") ∷ (9, "r") ∷ []) pod).1
      (emitted_to memory sockets backend same_text "r"
        (run_queue memory sockets backend same_text ((9, "x") ∷ (9, "r") ∷ []) pod).0)
run_queue-IsFlushed_example =
    run_queue-IsFlushed memory sockets backend same_text ((9, "x") ∷ (9, "r") ∷ []) "r" 500 pod
      (omega arith) refl stored-IsStrict stored-IsScored

stored-few : length (after 500 (room memory "r" sets)) ≤ max_pull_count * 1
unfolding get_chat_zset_key
stored-few = omega arith

run_queue-drains_example :
    emitted_to memory sockets backend same_text "r"
      (run_queue memory sockets backend same_text ((9, "r") ∷ []) pod).0
    ≡ members (after 500 (room memory "r" sets))
run_queue-drains_example =
    run_queue-drains memory sockets backend same_text (9 ∷ []) "r" 500 pod (omega arith) refl
      stored-IsStrict stored-IsScored (λ since. (_, refl)) stored-few

abbrev user : ChatUser
user = record { uuid = "u"; nick_name = some "n"; id = 1 }

abbrev posted : SendMessage
posted = record { room_id = some "r"; content = some "hi" }

handle_send_message-Sending_example :
    Sending memory sockets backend same_text 1
      (some user)
      (some posted)
      pod
      (handle_send_message memory sockets backend same_text 1 (some user) (some posted) pod)
handle_send_message-Sending_example =
    handle_send_message-Sending memory sockets backend same_text 1 (some user) (some posted) pod

join-done :
    (handle_join_room memory sockets backend same_text 9 2 "r" (some 1) pod).0
    ≡ ok (joined (shown ∷ []))
unfolding handle_join_room load_history get_messages get_messages_before get_chat_zset_key
    to_reply_message
join-done = refl

handle_join_room-IsJoined_example :
    (history : List HistoryMessage) × (joined (shown ∷ []) ≡ joined history)
    × IsJoined memory sockets backend same_text 9 2 "r" 1 pod
        (handle_join_room memory sockets backend same_text 9 2 "r" (some 1) pod).1
        history
handle_join_room-IsJoined_example =
    handle_join_room-IsJoined memory sockets backend same_text 9 2 "r" (some 1)
      (joined (shown ∷ [])) pod refl join-done
