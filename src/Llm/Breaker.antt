-- ===== src/Llm/Breaker.antt =====
-- CircuitBreakerState (domain/model/circuit-breaker-state.ts). A method that changes the object
-- returns the changed object; a time is a number of milliseconds.
pub mod History
use public_nest_server.Base.{
  ℕ, ◌+◌, ◌-◌, ◌*◌, Option, none, some, String, Bool, true, false, not, ◌&&◌, ◌||◌, leb,
  if◌then◌else◌,
}

-- `opened` is 'open', a keyword here.
pub data BreakerStatus : Type 0 where
  closed opened half_open : BreakerStatus

abbrev pub is_opened : BreakerStatus → Bool
is_opened closed = false
is_opened opened = true
is_opened half_open = false

abbrev pub is_half_open : BreakerStatus → Bool
is_half_open closed = false
is_half_open opened = false
is_half_open half_open = true

abbrev pub failure_threshold : ℕ
failure_threshold = 5

abbrev pub reset_timeout_ms : ℕ
reset_timeout_ms = 60000

pub record CircuitBreakerState : Type 0 where
  pub model : String
  pub status : BreakerStatus
  pub failure_count : ℕ
  pub opened_at : Option ℕ

unfoldable pub create : String → CircuitBreakerState
create model = record { model = model; status = closed; failure_count = 0; opened_at = none }

-- `openedAt !== null && now - openedAt >= RESET_TIMEOUT_MS`; a clock that went back counts as 0
abbrev pub has_rested : ℕ → Option ℕ → Bool
has_rested now none = false
has_rested now (some opened_at) = leb reset_timeout_ms (now - opened_at)

-- whether the model may be called, and the state after the question
unfoldable pub can_call : ℕ → CircuitBreakerState → Bool × CircuitBreakerState
can_call now s =
    if is_opened s.status && has_rested now s.opened_at
    then (true, record s { status = half_open })
    else (not (is_opened s.status), s)

unfoldable pub record_failure : ℕ → CircuitBreakerState → CircuitBreakerState
record_failure now s =
    let failures = s.failure_count + 1 in
    if leb failure_threshold failures || is_half_open s.status
    then record s { status = opened; failure_count = failures; opened_at = some now }
    else record s { failure_count = failures }

unfoldable pub record_success : CircuitBreakerState → CircuitBreakerState
record_success s = record s { status = closed; failure_count = 0; opened_at = none }
