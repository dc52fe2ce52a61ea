-- ===== src/Llm/Tests.antt =====
-- The LLM gateway on hashes in memory and two models.
use Prim.Native.String
use public_nest_server.Base.{
  length-codes, Bool-cases, eq_iff, inl, inr, codes, length, zero, suc, ◌-◌, ap, ℕ, ◌≡◌, refl,
  Option, none, some, List, [], ◌∷◌, ◌++◌, String, Bool, true, false, is_space, Result, ok, err,
  Action, ⊤, if◌then◌else◌, text_eq, arith,
}
use public_nest_server.Llm.Breaker.{
  BreakerStatus, closed, opened, create, can_call, record_failure, record_success,
}
use public_nest_server.Llm.Breaker.History.{
  BreakerEvent, failed_at, asked_at, succeeded, after, Follows, is_tripped, is_woken, last_failure,
  after-Follows, can_call-after,
}
use public_nest_server.Llm.Breaker.{has_rested}
use public_nest_server.Llm.BreakerStore.{
  BreakerHash, HashStore, adapter_can_call, adapter_record_success, adapter_record_failure,
  load_state, save_state, restored, hash_of, adapter_record_failure-load_state,
}
use public_nest_server.Llm.Models.{IsUnique}
use public_nest_server.Llm.Routing.{
  resolve_chain, models_of, split_at_commas, trim, trim_start, trim_end,
}
use public_nest_server.Llm.Fallback.{
  LlmMessage, Providers, stream_with_fallback, stream_chain, round, called, try_model,
  catch_failure, preceded, ended,
}
use public_nest_server.Llm.Fallback.Laws.{IsAnswered, stream_with_fallback-IsAnswered}
use public_nest_server.Llm.Calls.{
  GatewayCallCommand, LlmCostLog, ModelCostEntry, GatewayState, stream_call,
}
use public_nest_server.Llm.Calls.Accounts.{IsAccounted, stream_call-IsAccounted}

abbrev five_failures : List BreakerEvent
five_failures =
    failed_at 50 ∷ failed_at 40 ∷ failed_at 30 ∷ asked_at 25 ∷ failed_at 20 ∷ failed_at 10 ∷ []

after-Follows_example :
    Follows (asked_at 60050 ∷ five_failures) (after "m1" (asked_at 60050 ∷ five_failures))
after-Follows_example = after-Follows "m1" (asked_at 60050 ∷ five_failures)

refused_for_a_minute :
    ((can_call 60049 (after "m1" five_failures)).0 ≡ false)
    × ((can_call 60050 (after "m1" five_failures)).0 ≡ true)
unfolding can_call after create record_failure record_success
    public_nest_server.Llm.Breaker.History.apply
refused_for_a_minute = (refl, refl)

-- Hashes that can be read or written only while they are said to be.
record Hashes : Type 0 where
  entries : List (String × BreakerHash)
  is_readable : Bool
  is_writable : Bool

abbrev empty_hash : BreakerHash
empty_hash = record { status = none; failure_count = none; opened_at = none }

abbrev find_hash : String → List (String × BreakerHash) → BreakerHash
find_hash k [] = empty_hash
find_hash k ((j, h) ∷ entries) = if text_eq j k then h else find_hash k entries

-- Texts of numbers: a digit, and as many marks.
abbrev tally : ℕ → String
tally zero = ""
tally (suc n) = String.◌++◌ "i" (tally n)

abbrev tally_text : ℕ → String
tally_text n = String.◌++◌ "0" (tally n)

abbrev tally_number : String → ℕ
tally_number text = length (codes text) - 1

abbrev read_hash : String → Hashes → Result String BreakerHash
read_hash k s = if s.is_readable then ok (find_hash k s.entries) else err "ECONNRESET"

abbrev write_hash : String → BreakerHash → ℕ → Action String Hashes ⊤
write_hash k h ttl s =
    if s.is_writable
    then (ok tt, record s { entries = (k, h) ∷ s.entries })
    else (err "ECONNRESET", s)

read_hash-ok :
    (k : String) (r : BreakerHash) (s : Hashes) → read_hash k s ≡ ok r → r ≡ find_hash k s.entries
read_hash-ok k r s h = ground arith

write_hash-ok :
    (k j : String) (h : BreakerHash) (ttl : ℕ) (u : ⊤) (s : Hashes)
    → (write_hash k h ttl s).0 ≡ ok u
    → find_hash j (write_hash k h ttl s).1.entries
      ≡ (if text_eq k j then h else find_hash j s.entries)
write_hash-ok k j h ttl u s e = ground arith

length-tally : (n : ℕ) → length (codes (tally n)) ≡ n
length-tally zero = refl
length-tally (suc n) =
    let rest = length-tally n in let both = length-codes "i" (tally n) in ground arith

tally_number-tally_text : (n : ℕ) → tally_number (tally_text n) ≡ n
tally_number-tally_text n =
    let rest = length-tally n in let both = length-codes "0" (tally n) in ground arith

text_eq-tally_text : (n : ℕ) → text_eq (tally_text n) "" ≡ false
text_eq-tally_text n =
    let longer = length-codes "0" (tally n) in
    elim (Bool-cases (text_eq (tally_text n) "")) [
      | inl same ↦
          let equal = ap (λ t. length (codes t)) ((eq_iff (tally_text n) "").0 same) in
          absurd (omega arith)
      | inr differ ↦ differ
    ]

abbrev in_memory : HashStore
in_memory = record {
  Store = Hashes;
  Failure = String;
  content = λ k s. find_hash k s.entries;
  hgetall = read_hash;
  hset = write_hash;
  hgetall-ok = read_hash-ok;
  hset-ok = write_hash-ok;
  string_of = tally_text;
  number_of = tally_number;
  number_of-string_of = tally_number-tally_text;
  string_of-ne = text_eq-tally_text;
}

abbrev four_failures : BreakerHash
four_failures = record {
  status = some "closed";
  failure_count = some (tally_text 4);
  opened_at = some "";
}

-- what is written after a fifth failure at 100
abbrev tripped_hash : BreakerHash
tripped_hash = record {
  status = some "open";
  failure_count = some (tally_text 5);
  opened_at = some (tally_text 100);
}

abbrev stored : Hashes
stored = record { entries = ("cb:m1", four_failures) ∷ []; is_readable = true; is_writable = true }

recorded : (adapter_record_failure in_memory 100 "m1" stored).0 ≡ ok tt
unfolding adapter_record_failure load_state save_state restored hash_of record_failure
recorded = refl

adapter_record_failure-load_state_example :
    load_state in_memory "m1" (adapter_record_failure in_memory 100 "m1" stored).1
    ≡ record_failure 100 (load_state in_memory "m1" stored)
unfolding adapter_record_failure load_state save_state restored hash_of record_failure
adapter_record_failure-load_state_example =
    adapter_record_failure-load_state in_memory 100 "m1" four_failures tripped_hash tt stored refl
      recorded refl

abbrev unreadable : Hashes
unreadable = record stored { is_readable = false }

abbrev chain : List String
chain = "m1" ∷ "m2" ∷ []

chain-IsUnique : IsUnique chain
chain-IsUnique = (refl, (refl, tt))

configured : models_of " m1 ,, m2" ≡ chain
unfolding models_of split_at_commas trim trim_start trim_end is_space
configured = refl

-- "m1" breaks off after a token.
abbrev talk : List LlmMessage → String → Hashes → (List String × Result String ⊤) × Hashes
talk messages model s =
    (if text_eq model "m1" then ("Hel" ∷ [], err "reset") else ("Hello" ∷ "!" ∷ [], ok tt), s)

-- The breaker of CircuitBreakerAdapter at one time.
abbrev providers : Providers
providers = record {
  State = Hashes;
  Failure = String;
  can_call = adapter_can_call in_memory 100;
  record_success = adapter_record_success in_memory;
  record_failure = adapter_record_failure in_memory 100;
  stream = talk;
}

fallback-done : (stream_with_fallback providers [] chain stored).result ≡ ok tt
unfolding stream_with_fallback stream_chain round called try_model catch_failure preceded ended
    adapter_can_call adapter_record_success adapter_record_failure load_state save_state restored
    hash_of record_failure record_success create can_call
fallback-done = refl

stream_with_fallback-IsAnswered_example :
    IsAnswered providers [] chain stored (stream_with_fallback providers [] chain stored)
stream_with_fallback-IsAnswered_example =
    stream_with_fallback-IsAnswered providers [] chain stored tt fallback-done

abbrev question : GatewayCallCommand
question = record { feature = "qa"; tenant = "t"; messages = []; preferred_model = none }

abbrev prices : String → Option ModelCostEntry
prices model = some (record { prompt = 3; completion = 15 })

abbrev keep_log : LlmCostLog → Action String (List LlmCostLog) ⊤
keep_log log logs = (ok tt, logs ++ log ∷ [])

abbrev before : GatewayState providers prices keep_log
before = record { state = stored; logs = [] }

call-done : (stream_call providers prices keep_log chain 100 question before).result ≡ ok tt
unfolding stream_call resolve_chain stream_with_fallback stream_chain round called try_model
    catch_failure preceded ended adapter_can_call adapter_record_success adapter_record_failure
    load_state save_state restored hash_of record_failure record_success create can_call
call-done = refl

stream_call-IsAccounted_example :
    IsAccounted providers prices keep_log
      (resolve_chain chain none)
      100
      question
      before
      (stream_call providers prices keep_log chain 100 question before)
stream_call-IsAccounted_example =
    stream_call-IsAccounted providers prices keep_log chain 100 question tt before call-done

-- A breaker whose success cannot be recorded.
abbrev forgetful : Providers
forgetful = record {
  State = ℕ;
  Failure = String;
  can_call = λ model s. (ok true, s);
  record_success = λ model s. (if text_eq model "m1" then err "READONLY" else ok tt, s);
  record_failure = λ model s. (ok tt, s);
  stream = λ messages model s. (("Hi" ∷ [], ok tt), s);
}
