-- ===== src/Llm/BreakerStore.antt =====
-- CircuitBreakerAdapter (infrastructure/circuit-breaker.adapter.ts), with the hashes of Redis as a
-- parameter: `HGETALL`, and `HSET` with `EXPIRE`, each of which may fail.
use Prim.Native.String
use public_nest_server.Base.{
  ℕ, ◌≡◌, refl, sym, ap, ◌∙◌, Option, none, some, String, Bool, false, Result, ok, err, Action,
  text_eq, ⊤, if◌then◌else◌, arith, inl, inr, Result-cases, Option-cases, eq_refl,
}
use public_nest_server.Llm.Breaker.{
  BreakerStatus, closed, opened, half_open, CircuitBreakerState, create, can_call, record_failure,
  record_success,
}

-- the fields of a hash, of which `HGETALL` gives none where the key is missing
pub record BreakerHash : Type 0 where
  pub status : Option String
  pub failure_count : Option String
  pub opened_at : Option String

-- The hashes of Redis, and `String(n)` and `Number(text)` of JavaScript, of which the code relies on
-- this: a number has a text that is not empty, and is read back from it.
pub record HashStore : Type 1 where
  pub Store : Type 0
  pub Failure : Type 0
  -- what is stored under a key
  pub content : String → Store → BreakerHash
  pub hgetall : String → Store → Result Failure BreakerHash
  pub hset : String → BreakerHash → ℕ → Action Failure Store ⊤
  pub hgetall-ok : (k : String) (r : BreakerHash) (s : Store) → hgetall k s ≡ ok r → r ≡ content k s
  pub hset-ok :
      (k j : String) (h : BreakerHash) (ttl : ℕ) (u : ⊤) (s : Store)
      → (hset k h ttl s).0 ≡ ok u
      → content j (hset k h ttl s).1 ≡ (if text_eq k j then h else content j s)
  pub string_of : ℕ → String
  pub number_of : String → ℕ
  pub number_of-string_of : (n : ℕ) → number_of (string_of n) ≡ n
  pub string_of-ne : (n : ℕ) → text_eq (string_of n) "" ≡ false

abbrev pub ttl_seconds : ℕ
ttl_seconds = 3600

abbrev pub breaker_key : String → String
breaker_key model = String.◌++◌ "cb:" model

-- the status as a text, and `as BreakerStatus`; a breaker with another text behaves as a closed one
abbrev pub status_text : BreakerStatus → String
status_text closed = "closed"
status_text opened = "open"
status_text half_open = "half-open"

abbrev pub status_read : String → BreakerStatus
status_read text =
    if text_eq text "open" then opened else (if text_eq text "half-open" then half_open else closed)

-- a text that is there and not empty
abbrev pub filled_field : Option String → Option String
filled_field none = none
filled_field (some text) = if text_eq text "" then none else some text

module _ (hashes : HashStore) where
  open hashes use {Store, Failure, content, hgetall, hset, string_of, number_of}

  -- `raw.openedAt ? Number(raw.openedAt) : null`
  abbrev pub time_of : Option String → Option ℕ
  time_of opened_at = elim (filled_field opened_at) [
    | none ↦ none
    | some text ↦ some (number_of text)
  ]

  -- `Number(raw.failureCount ?? 0)`
  abbrev pub count_of : Option String → ℕ
  count_of none = 0
  count_of (some text) = number_of text

  -- the state of the fields that were read, or a new one where they name no status
  unfoldable pub restored : String → BreakerHash → CircuitBreakerState
  unfolding create
  restored model raw = elim (filled_field raw.status) [
    | none ↦ create model
    | some status ↦ record {
      model = model;
      status = status_read status;
      failure_count = count_of raw.failure_count;
      opened_at = time_of raw.opened_at;
    }
  ]

  abbrev pub time_text : Option ℕ → String
  time_text none = ""
  time_text (some opened_at) = string_of opened_at

  -- the fields that `saveState` writes
  unfoldable pub hash_of : CircuitBreakerState → BreakerHash
  hash_of snap = record {
    status = some (status_text snap.status);
    failure_count = some (string_of snap.failure_count);
    opened_at = some (time_text snap.opened_at);
  }

  status_read-status_text : (status : BreakerStatus) → status_read (status_text status) ≡ status
  status_read-status_text closed = refl
  status_read-status_text opened = refl
  status_read-status_text half_open = refl

  filled_field-status_text :
      (status : BreakerStatus)
      → filled_field (some (status_text status)) ≡ some (status_text status)
  filled_field-status_text closed = refl
  filled_field-status_text opened = refl
  filled_field-status_text half_open = refl

  time_of-time_text : (t : Option ℕ) → time_of (some (time_text t)) ≡ t
  time_of-time_text none = refl
  time_of-time_text (some n) =
      let filled = hashes.string_of-ne n in let read = hashes.number_of-string_of n in ground arith

  -- What was written is read back.
  restored-hash_of : (s : CircuitBreakerState) → restored s.model (hash_of s) ≡ s
  unfolding restored hash_of
  restored-hash_of s =
      let there = filled_field-status_text s.status in
      let status = status_read-status_text s.status in
      let count = hashes.number_of-string_of s.failure_count in
      let time = time_of-time_text s.opened_at in ground arith

  -- the `catch` logs the error and goes on with a new state
  unfoldable pub load_state : String → Store → CircuitBreakerState
  load_state model s = elim (hgetall (breaker_key model) s) [
    | ok raw ↦ restored model raw
    | err e ↦ create model
  ]

  unfoldable pub save_state : CircuitBreakerState → Action Failure Store ⊤
  save_state state = hset (breaker_key state.model) (hash_of state) ttl_seconds

  -- the changed state is not saved
  unfoldable pub adapter_can_call : ℕ → String → Action Failure Store Bool
  adapter_can_call now model s = (ok (can_call now (load_state model s)).0, s)

  unfoldable pub adapter_record_success : String → Action Failure Store ⊤
  adapter_record_success model s = save_state (record_success (load_state model s)) s

  unfoldable pub adapter_record_failure : ℕ → String → Action Failure Store ⊤
  adapter_record_failure now model s = save_state (record_failure now (load_state model s)) s

  load_state-ok :
      (model : String) (r : BreakerHash) (s : Store)
      → hgetall (breaker_key model) s ≡ ok r
      → load_state model s ≡ restored model (content (breaker_key model) s)
  unfolding load_state
  load_state-ok model r s h = let same = hashes.hgetall-ok (breaker_key model) r s h in ground arith

  load_state-model :
      (now : ℕ) (model : String) (s : Store)
      → (record_failure now (load_state model s)).model ≡ model
  unfolding load_state restored create record_failure
  load_state-model now model s = elim (Result-cases (hgetall (breaker_key model) s)) [
    | inl (r, e) ↦ elim (Option-cases (filled_field r.status)) [
      | inl absent ↦ ground arith
      | inr (status, present) ↦ ground arith
    ]
    | inr (x, e) ↦ ground arith
  ]

  -- If Redis answers before and after, and the write succeeds, the state that is loaded after
  -- recordFailure, from the texts of the hash that was written, is the breaker's own after a failure,
  -- of the state that was stored.
  pub adapter_record_failure-load_state :
      (now : ℕ) (model : String) (r r' : BreakerHash) (u : ⊤) (s : Store)
      → hgetall (breaker_key model) s ≡ ok r
      → (adapter_record_failure now model s).0 ≡ ok u
      → let s' = (adapter_record_failure now model s).1 in
        hgetall (breaker_key model) s' ≡ ok r'
        → load_state model s' ≡ record_failure now (load_state model s)
  unfolding adapter_record_failure save_state restored
  adapter_record_failure-load_state now model r r' u s read h again =
      let new : CircuitBreakerState = record_failure now (load_state model s) in
      let same : new.model ≡ model = load_state-model now model s in
      let end : adapter_record_failure now model s
          ≡ hset (breaker_key model) (hash_of new) ttl_seconds s =
        ap (λ m. hset (breaker_key m) (hash_of new) ttl_seconds s) same in
      let k : String = breaker_key model in
      let written : content k (hset k (hash_of new) ttl_seconds s).1 ≡ hash_of new =
        hashes.hset-ok k k (hash_of new) ttl_seconds u s (ap (λ r. r.0) (sym end) ∙ h)
        ∙ rw (eq_refl k) refl in
      load_state-ok model r' _ again
      ∙ ap (restored model) (ap (λ r. content k r.1) end ∙ written)
      ∙ ap (λ m. restored m (hash_of new)) (sym same)
      ∙ restored-hash_of new

  -- A read that fails while a failure is recorded, with a write that succeeds, forgets the breaker:
  -- however many failures were stored, and also if it was open, it is closed with one failure.
  pub read_error_closes_breaker :
      (now : ℕ) (model : String) (e : Failure) (u : ⊤) (s : Store)
      → hgetall (breaker_key model) s ≡ err e
      → (adapter_record_failure now model s).0 ≡ ok u
      → content (breaker_key model) (adapter_record_failure now model s).1
        ≡ hash_of (record { model = model; status = closed; failure_count = 1; opened_at = none })
  unfolding adapter_record_failure save_state load_state create record_failure hash_of
  read_error_closes_breaker now model e u s failed h =
      let k : String = breaker_key model in
      let fresh : BreakerHash =
        hash_of (record { model = model; status = closed; failure_count = 1; opened_at = none }) in
      let blank : load_state model s ≡ create model = ground arith in
      let end : adapter_record_failure now model s ≡ hset k fresh ttl_seconds s =
        ap (λ b. save_state (record_failure now b) s) blank in
      ap (λ r. content k r.1) end
      ∙ hashes.hset-ok k k fresh ttl_seconds u s (ap (λ r. r.0) (sym end) ∙ h)
      ∙ rw (eq_refl k) refl
