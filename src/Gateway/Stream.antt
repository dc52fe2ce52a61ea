-- ===== src/Gateway/Stream.antt =====
-- JobStreamController (apps/gateway/src/ai/stream/job-stream.controller.ts) and
-- RedisStreamsRelayService (redis-streams-relay.service.ts). What each `XREAD` gives, or
-- throws, and the parser of JSON are parameters; the connection is closed by its client after some
-- reads.
pub mod Laws
pub mod Places
pub mod Writing
use public_nest_server.Base.{
  ℕ, zero, suc, Option, none, some, or_else, List, [], ◌∷◌, ◌++◌, map, String, Bool, true, false,
  text_eq, ◌||◌, if◌then◌else◌, Result, ok, err, result_map, ⊤,
}

-- What `tryParseJson` makes of a text: a value, or the text where `JSON.parse` throws.
pub data EventData (D : Type 0) : Type 0 where
  parsed : D → EventData D
  raw : String → EventData D

pub record StreamEvent (D : Type 0) : Type 0 where
  pub id : String
  pub type : String
  pub payload : Option (EventData D)

-- TERMINAL_EVENT_TYPES
abbrev pub is_terminal : {D : Type 0} → StreamEvent D → Bool
is_terminal e = text_eq e.type "done" || text_eq e.type "error"

-- `record[name]` after the loop of `fieldsToRecord`, from what it was before; a last field without a
-- value is `undefined`
unfoldable pub field_from : Option String → String → List String → Option String
field_from held name [] = held
field_from held name (f ∷ []) = if text_eq f name then none else held
field_from held name (f ∷ v ∷ fields) =
    field_from (if text_eq f name then some v else held) name fields

module _ {D : Type 0} (parse_json : String → Option D) where
  abbrev pub try_parse_json : String → EventData D
  try_parse_json text = elim (parse_json text) [ none ↦ raw text | some value ↦ parsed value ]

  abbrev pub parsed_data : Option String → Option (EventData D)
  parsed_data none = none
  parsed_data (some text) = some (try_parse_json text)

  -- an entry of a stream: its id and its fields
  unfoldable pub event_of : String × List String → StreamEvent D
  unfolding field_from
  event_of (id, fields) = record {
    id = id;
    type = or_else (field_from none "type" fields) "token";
    payload = parsed_data (field_from none "data" fields);
  }

  -- `readNext`; `xread` gives `null` where no entry has come in time
  unfoldable pub read_next :
      {E : Type 0}
      → (ℕ → String → Result E (Option (List (String × List String))))
      → ℕ
      → String
      → Result E (List (StreamEvent D))
  unfolding event_of
  read_next xread i after_id =
      result_map (λ found. map event_of (or_else found [])) (xread i after_id)

-- the loop over the events of a read, with `lastId` and `stopped` after it
abbrev pub after_event :
    {D : Type 0}
    → StreamEvent D
    → List (StreamEvent D) × String × Bool
    → List (StreamEvent D) × String × Bool
after_event e (written, last_id, stopped) = (e ∷ written, last_id, stopped)

unfoldable pub write_events :
    {D : Type 0} → String → List (StreamEvent D) → List (StreamEvent D) × String × Bool
write_events last_id [] = ([], last_id, false)
write_events last_id (e ∷ events) =
    let rest = write_events e.id events in
    if is_terminal e then (e ∷ [], e.id, true) else after_event e rest

-- What is written, and how the loop has ended.
abbrev pub Relayed : Type 0 → Type 0 → Type 0
Relayed D E = List (StreamEvent D) × Result E ⊤

module _ {D E : Type 0} where
  -- the loop after the events of a read
  abbrev pub and_then : List (StreamEvent D) × String × Bool → (String → Relayed D E) → Relayed D E
  and_then (written, last_id, stopped) next =
      let rest = next last_id in if stopped then (written, ok tt) else (written ++ rest.0, rest.1)

  abbrev pub after_read :
      String → Result E (List (StreamEvent D)) → (String → Relayed D E) → Relayed D E
  unfolding write_events
  after_read last_id (ok events) next = and_then (write_events last_id events) next
  after_read last_id (err e) next = ([], err e)

  module _ (read : ℕ → String → Result E (List (StreamEvent D))) where
    -- the `while` loop, for as many reads as there are before the client closes the connection, from
    -- the read of a number on
    unfoldable pub relay : ℕ → ℕ → String → Relayed D E
    unfolding after_read
    relay zero i last_id = ([], ok tt)
    relay (suc reads) i last_id = after_read last_id (read i last_id) (relay reads (suc i))

-- The job of a request: it is there, and its owner, or not. The response is ended also where the loop
-- throws.
pub data StreamReply (D E : Type 0) : Type 0 where
  not_found : StreamReply D E
  forbidden_stream : StreamReply D E
  streamed : List (StreamEvent D) → Result E ⊤ → StreamReply D E

-- `lastEventId ?? '0'`
abbrev pub start_of : Option String → String
start_of last_event_id = or_else last_event_id "0"

-- `stream`, of the owner of the job
unfoldable pub stream :
    {D E : Type 0}
    → (String → Option D)
    → (ℕ → String → Result E (Option (List (String × List String))))
    → ℕ
    → Option String
    → String
    → Option String
    → StreamReply D E
unfolding relay read_next
stream parse_json xread reads none uuid last_event_id = not_found
stream parse_json xread reads (some owner) uuid last_event_id =
    if text_eq owner uuid
    then (let (written, result) =
          relay (read_next parse_json xread) reads 0 (start_of last_event_id) in
        streamed written result)
    else forbidden_stream
