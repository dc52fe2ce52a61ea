-- ===== src/Gateway/Tests.antt =====
-- Jobs of a small store, in a Redis that is kept in memory.
use public_nest_server.Base.{
  map, length, arith, ◌≤◌, ◌<◌, zero, suc, take, drop, if◌then◌else◌, Option, none, some, or_else,
  List, [], ◌∷◌, String, Result, ok, err, ⊤, ◌≡◌, refl, ap, ℕ, ◌+◌, Bool, true, false, text_eq,
}
use public_nest_server.Gateway.Redis.{
  Redis, Hash, lookup, put, put_fields, lookup-put, lookup-put_other,
}
use public_nest_server.Gateway.Jobs.{
  rag_ask, new_meta, get_job, cancel_owned, job_key, cancel_key, AskJob, AskJobRequested,
  create_ask_job,
}
use public_nest_server.Gateway.Jobs.Laws.{IsAnswer, create_ask_job_once}
use public_nest_server.Gateway.Stream.{StreamEvent, event_of, field_from, stream, streamed}
use public_nest_server.Gateway.Stream.Places.{id_before}
use public_nest_server.Gateway.Stream.Writing.{until_terminal, IsBegunBy}
use public_nest_server.Gateway.Stream.Laws.{stream-IsBegunBy}
use public_nest_server.Gateway.Auth.{Session, User, AuthType, jwt, basic, api_key, can_activate}
use public_nest_server.Gateway.Auth.Laws.{IsAdmitted, can_activate-IsAdmitted}
use public_nest_server.Gateway.Jobs.Cancelling.{IsCancelled, cancel_owned-IsCancelled}

-- texts and hashes
abbrev Kept : Type 0
Kept = List (String × String) × List (String × Hash)

abbrev fields_at : String → List (String × Hash) → Hash
fields_at key hashes = or_else (lookup key hashes) []

abbrev set_unless : String → String → Option String → Kept → Bool × Kept
set_unless key value (some old) s = (false, s)
set_unless key value none (texts, hashes) = (true, (put key value texts, hashes))

abbrev memory : Redis
memory = record {
  State = Kept;
  get = λ key (texts, hashes). lookup key texts;
  hgetall = λ key (texts, hashes). fields_at key hashes;
  set = λ key value (texts, hashes). (put key value texts, hashes);
  set_nx = λ key value s. set_unless key value (lookup key (s.0)) s;
  hset = λ key fields (texts, hashes).
      (texts, put key (put_fields fields (fields_at key hashes)) hashes);
  get-set = λ key value (texts, hashes). lookup-put key value texts;
  hgetall-set = λ key other value s differ. refl;
  set_nx_taken = λ key value old s taken. ap (λ o. set_unless key value o s) taken;
  set_nx_free = λ key value s free empty. ap (λ o. set_unless key value o s) free;
  get-hset = λ key other fields s differ. refl;
  hgetall-hset = λ key fields (texts, hashes).
      ap (λ o. or_else o []) (lookup-put key (put_fields fields (fields_at key hashes)) hashes);
  hgetall-hset_other = λ key other fields (texts, hashes) differ.
      ap (λ o. or_else o [])
        (lookup-put_other key other (put_fields fields (fields_at other hashes)) hashes differ);
}

abbrev no_keys : Kept
no_keys = ([], [])

abbrev one_job : Kept
one_job = ([], ("job:1", new_meta "1" "t" "u" rag_ask) ∷ [])

-- a broker that is down, and counts the calls
abbrev fails : AskJobRequested String → ℕ → Result String ⊤ × ℕ
fails job calls = (err "down", calls + 1)

abbrev asked : AskJob String
asked = record { idempotency_key = "k"; body = "why" }

create_ask_job_once_example :
    (let (answer, after) = create_ask_job memory fails "1" "t" "u" asked (no_keys, 0) in
      IsAnswer "1" (err "down") answer
      × (after.1 ≡ 1)
      × (create_ask_job memory fails "2" "t2" "u" asked after ≡ (ok "1", after)))
unfolding lookup
create_ask_job_once_example =
    create_ask_job_once memory fails "1" "t" "u" asked no_keys 0 "2" "t2" "why"
      (refl, refl, refl, refl, refl, refl)

cancel_owned-IsCancelled_example :
    IsCancelled memory {E = String} "u" "1" one_job
      (get_job memory "1" one_job)
      (cancel_owned memory "u" "1" one_job)
    × ((other : String)
        → text_eq (job_key "1") (job_key other) ≡ false
        → text_eq (cancel_key "1") (job_key other) ≡ false
        → get_job memory other (cancel_owned memory {E = String} "u" "1" one_job).1
          ≡ get_job memory other one_job)
cancel_owned-IsCancelled_example = cancel_owned-IsCancelled memory String "u" "1" one_job

-- The events of a job of two: a token, and the end.
abbrev Entries : Type 0
Entries = List (String × List String)

abbrev first_entry : String × List String
first_entry = ("1", "type" ∷ "token" ∷ "data" ∷ "Hi" ∷ [])

abbrev last_entry : String × List String
last_entry = ("2", "type" ∷ "done" ∷ [])

abbrev entries : Entries
entries = first_entry ∷ last_entry ∷ []

-- No text is JSON.
abbrev no_json : String → Option String
no_json text = none

abbrev last_event : StreamEvent String
last_event = record { id = "2"; type = "done"; payload = none }

read_entries : map (event_of no_json) (last_entry ∷ []) ≡ last_event ∷ []
unfolding event_of field_from
read_entries = refl

abbrev xread : ℕ → String → Result String (Option Entries)
xread i id = ok (
    if text_eq id "0"
    then some entries
    else (if text_eq id "1" then some (last_entry ∷ []) else none))

xread-entries :
    (i p : ℕ) (found : Option Entries)
    → xread i (id_before "0" (map (event_of no_json) entries) p) ≡ ok found
    → or_else found [] ≡ drop p (take 2 entries)
unfolding event_of
xread-entries i zero found h = ground arith
xread-entries i (suc zero) found h = ground arith
xread-entries i (suc (suc zero)) found h = ground arith
xread-entries i (suc (suc (suc p))) found h = ground arith

stream-IsBegunBy_example :
    (written : List (StreamEvent String)) × (result : Result String ⊤) × (stream no_json xread 3
        (some "u")
        "u"
        (some "1")
      ≡ streamed written result)
    × IsBegunBy (until_terminal (drop 1 (map (event_of no_json) entries))) written
    × ((j : ℕ)
        → j < 3
        → length entries ≤ 2
        → result ≡ ok tt
        → written ≡ until_terminal (drop 1 (map (event_of no_json) entries)))
unfolding event_of
stream-IsBegunBy_example =
    stream-IsBegunBy no_json entries (λ i. 2) xread xread-entries 3 1 "u" (some "1") refl

abbrev nobody : Session
nobody = record { id = ""; uuid = ""; nick_name = none; game_db_id = 0; database = "" }

abbrev player : User
player = record {
  uuid = some "u";
  nick_name = none;
  name = some "Kim";
  id = some 3;
  email = none;
  activated_at = none;
  session = nobody;
}

abbrev tokens_only : AuthType → Result String (Bool × Option User)
tokens_only jwt = ok (true, some player)
tokens_only basic = err "Unauthorized"
tokens_only api_key = err "Unauthorized"

abbrev session : Session
session = record {
  id = "s";
  uuid = "u";
  nick_name = some "Kim";
  game_db_id = 3;
  database = "game_db";
}

can_activate-IsAdmitted_example :
    IsAdmitted (λ s. s) (λ n. "n") "s" tokens_only false none (some "bearer x") (some session)
unfolding can_activate
can_activate-IsAdmitted_example =
    can_activate-IsAdmitted (λ s. s) (λ n. "n") "s" tokens_only false none (some "bearer x")
      (some session) refl
