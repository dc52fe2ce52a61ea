-- ===== src/Chat/Store/Laws.antt =====
-- What saving a message does to its room, and what a history shows.
use mathlib.Core.List.{reverse}
use mathlib.Core.Path.{subst}
use public_nest_server.Base.{
  refl, sym, ◌++◌, ℕ, zero, suc, ◌-◌, ◌*◌, ◌≤◌, ◌≡◌, ◌≢◌, ap, ◌∙◌, List, [], ◌∷◌, map, String, ok,
  negsuc, Result-cases, All, arith, inl, inr, take, drop, length, length-map, length-take-le, ltb,
  if◌then◌else◌,
}
use public_nest_server.Chat.Redis.{ZSets, ChatMessage, Entry, members, before, IsPlaced}
use public_nest_server.Chat.Store.{
  get_chat_zset_key, SaveMessageRequest, SaveMessageResponse, GetMessagesRequest, HistoryMessage,
  to_message_buffer, to_reply_message, Notification, socket_notify, add_message, trim_messages,
  get_messages_before, persist_and_notify, save_message, get_messages,
}

module _ (zsets : ZSets) where
  open zsets use {State, content}

  abbrev pub room : String → State → List Entry
  room room_id s = content (get_chat_zset_key room_id) s

  -- Whether a room holds a message, or is full of messages that are not older.
  pub data IsHeld (max : ℕ) (m : ChatMessage) (new : List Entry) : Type 0 where
    held :
        (older newer : List Entry)
        → new ≡ older ++ record { score = m.event_timestamp; member = m } ∷ newer
        → IsHeld max m new
    crowded_out : length new ≡ max → All (λ e. m.event_timestamp ≤ e.score) new → IsHeld max m new

  -- What a room is after a message was saved: the message is placed among the others by its time,
  -- and the oldest messages over the maximum are gone.
  pub record IsSaved (max : ℕ) (m : ChatMessage) (old new : List Entry) : Type 0 where
    pub full : List Entry
    pub placed : IsPlaced m.event_timestamp m old full
    pub kept : new ≡ drop (length full - max) full
    pub bounded : length new ≤ max
    pub present : IsHeld max m new

  length-drop : (n : ℕ) (l : List Entry) → length (drop n l) ≡ length l - n
  length-drop zero l = omega arith
  length-drop (suc n) [] = omega arith
  length-drop (suc n) (e ∷ l) = omega (arith, length-drop n l)

  -- Dropping from a list cuts in front of one of its members, or behind it.
  data Cut (e : Entry) (lower higher : List Entry) (n : ℕ) (rest : List Entry) : Type 0 where
    in_front : (older : List Entry) → rest ≡ older ++ e ∷ higher → Cut e lower higher n rest
    behind : (k : ℕ) → rest ≡ drop k higher → 1 ≤ n → Cut e lower higher n rest

  drop-Cut :
      (e : Entry) (lower higher : List Entry) (n : ℕ)
      → Cut e lower higher n (drop n (lower ++ e ∷ higher))
  drop-Cut e lower higher zero = in_front lower refl
  drop-Cut e [] higher (suc n) = behind n refl (omega arith)
  drop-Cut e (d ∷ lower) higher (suc n) = elim (drop-Cut e lower higher n) [
    | in_front older same ↦ in_front older same
    | behind k same le ↦ behind k same (omega arith)
  ]

  All-drop : (P : Entry → Type 0) (n : ℕ) (l : List Entry) → All P l → All P (drop n l)
  All-drop P zero l all = all
  All-drop P (suc n) [] all = tt
  All-drop P (suc n) (e ∷ l) (p, all) = All-drop P n l all

  -- A placed message is held when the oldest over the maximum are gone, or the room is full.
  kept-IsHeld :
      (max : ℕ) (m : ChatMessage) (old full : List Entry)
      → IsPlaced m.event_timestamp m old full
      → IsHeld max m (drop (length full - max) full)
  kept-IsHeld max m old full placed =
      let e : Entry = record { score = m.event_timestamp; member = m } in
      let n : ℕ = length full - max in
      let cut : Cut e placed.lower placed.higher n (drop n full) =
        subst (λ l. Cut e placed.lower placed.higher n (drop n l)) (sym placed.placed)
          (drop-Cut e placed.lower placed.higher n) in
      elim cut [
        | in_front older same ↦ held older placed.higher same
        | behind k same le ↦ crowded_out (omega (arith, length-drop n full)) (
            rw same
              (All-drop (λ d. m.event_timestamp ≤ d.score) k placed.higher placed.higher_scores))
      ]

  -- A message that is saved without an error has the time of the call, in microseconds, as its
  -- score, by which it is placed in its room. The room then has at most the maximum of messages, as
  -- those over the maximum with the lowest scores were removed; it holds the new message, or is
  -- full of messages that are not older. The sockets of the room are notified.
  pub save_message-IsSaved :
      (max timestamp : ℕ) (message_id : String) (request : SaveMessageRequest)
      (reply : SaveMessageResponse × Notification) (s : State)
      → let m = to_message_buffer request message_id timestamp (timestamp * 1000) in
        All (λ e. e.member ≢ m) (room request.room_id s)
        → (save_message zsets max timestamp message_id request s).0 ≡ ok reply
        → IsSaved max m
            (room request.room_id s)
            (room request.room_id (save_message zsets max timestamp message_id request s).1)
          × (reply ≡ (
            record { message_id = message_id; created_at = timestamp },
            socket_notify request.room_id,
          ))
  unfolding save_message persist_and_notify add_message trim_messages to_message_buffer
  save_message-IsSaved max timestamp message_id request reply s fresh h =
      let key : String = get_chat_zset_key request.room_id in
      let m : ChatMessage = to_message_buffer request message_id timestamp (timestamp * 1000) in
      let added = zsets.zadd key (timestamp * 1000) m s in
      let trimmed = zsets.zremrangebyrank key (negsuc max) added.1 in
      elim (Result-cases added.0) [
        | inr (x, e) ↦ absurd (ground arith)
        | inl (u, e) ↦ elim (Result-cases trimmed.0) [
          | inr (x, e₂) ↦ absurd (ground arith)
          | inl (v, e₂) ↦
              let end : (save_message zsets max timestamp message_id request s).1 ≡ trimmed.1 =
                ground arith in
              let full : List Entry = content key added.1 in
              let kept : content key trimmed.1 ≡ drop (length full - max) full =
                zsets.zremrangebyrank-ok key max v added.1 e₂ in
              (
                rw end record {
                  full = full;
                  placed = zsets.zadd-ok key (timestamp * 1000) m u s fresh e;
                  kept = kept;
                  present = subst (IsHeld max m) (sym kept) (
                      kept-IsHeld max m _ full
                        (zsets.zadd-ok key (timestamp * 1000) m u s fresh e));
                  bounded = rw kept (omega (arith, length-drop (length full - max) full));
                },
                ground arith,
              )
        ]
      ]

  -- A history that is answered shows at most `limit` messages, newest first.
  pub get_messages-history :
      (now : ℕ) (request : GetMessagesRequest) (reply : List HistoryMessage) (s : State)
      → (get_messages zsets now request s).0 ≡ ok reply
      → let bound = (if ltb 0 request.before then request.before else now * 1000) in
        (reply
          ≡ map to_reply_message
              (members (take request.limit (reverse (before bound (room request.room_id s))))))
        × (length reply ≤ request.limit)
  unfolding get_messages get_messages_before
  get_messages-history now request reply s h =
      let key : String = get_chat_zset_key request.room_id in
      let bound : ℕ = if ltb 0 request.before then request.before else now * 1000 in
      elim (Result-cases (zsets.zrevrangebyscore key bound request.limit s)) [
        | inr (x, e) ↦ absurd (ground arith)
        | inl (ms, e) ↦
            let found = reverse (before bound (room request.room_id s)) in
            let shown = zsets.zrevrangebyscore-ok key bound request.limit ms s e in
            let end : reply ≡ map to_reply_message ms = ground arith in
            (
              end ∙ ap (map to_reply_message) shown,
              rw (end, shown, length-map, length-map) (length-take-le request.limit found),
            )
      ]
