-- ===== src/Llm/Breaker/History.antt =====
-- A circuit breaker told by what has happened to it: the failures since the last success, the time
-- of the last of them, and whether somebody has asked since then after the rest.
use public_nest_server.Base.{
  ℕ, ◌+◌, ◌≡◌, refl, Option, none, some, List, [], ◌∷◌, String, Bool, false, not, ◌&&◌, ◌||◌, leb,
  if◌then◌else◌, arith,
}
use public_nest_server.Llm.Breaker.{
  BreakerStatus, closed, opened, half_open, CircuitBreakerState, failure_threshold, has_rested,
  create, can_call, record_failure, record_success,
}

pub data BreakerEvent : Type 0 where
  failed_at asked_at : ℕ → BreakerEvent
  succeeded : BreakerEvent

unfoldable pub apply : BreakerEvent → CircuitBreakerState → CircuitBreakerState
apply (failed_at now) s = record_failure now s
apply (asked_at now) s = (can_call now s).1
apply succeeded s = record_success s

-- The breaker of a model after a history, the last event first.
unfoldable pub after : String → List BreakerEvent → CircuitBreakerState
unfolding create
after model [] = create model
after model (e ∷ past) = apply e (after model past)

-- The failures since the last success.
abbrev pub failures : List BreakerEvent → ℕ
failures [] = 0
failures (failed_at t ∷ past) = failures past + 1
failures (asked_at t ∷ past) = failures past
failures (succeeded ∷ past) = 0

abbrev pub last_failure : List BreakerEvent → Option ℕ
last_failure [] = none
last_failure (failed_at t ∷ past) = some t
last_failure (asked_at t ∷ past) = last_failure past
last_failure (succeeded ∷ past) = none

abbrev pub is_tripped : List BreakerEvent → Bool
is_tripped past = leb failure_threshold (failures past)

-- A tripped breaker has been asked after its rest.
abbrev pub is_woken : List BreakerEvent → Bool
is_woken [] = false
is_woken (failed_at t ∷ past) = false
is_woken (asked_at t ∷ past) =
    is_woken past || (is_tripped past && has_rested t (last_failure past))
is_woken (succeeded ∷ past) = false

abbrev pub status_of : List BreakerEvent → BreakerStatus
status_of past = if is_tripped past then (if is_woken past then half_open else opened) else closed

abbrev pub Follows : List BreakerEvent → CircuitBreakerState → Type 0
Follows past s =
    (s.failure_count ≡ failures past)
    × (s.status ≡ status_of past)
    × (s.opened_at ≡ (if is_tripped past then last_failure past else none))

apply-Follows :
    (e : BreakerEvent) (past : List BreakerEvent) (s : CircuitBreakerState)
    → Follows past s
    → Follows (e ∷ past) (apply e s)
unfolding apply can_call record_failure record_success
apply-Follows (failed_at t) past s (n, st, o) = ground arith
apply-Follows (asked_at t) past s (n, st, o) = ground arith
apply-Follows succeeded past s h = (refl, refl, refl)

-- Whatever has happened to a breaker, it counts the failures since the last success; it is closed
-- below five of them; from five on it is open, since the last failure, and half-open once it has
-- been asked a minute or more after that failure.
pub after-Follows : (model : String) (past : List BreakerEvent) → Follows past (after model past)
unfolding after create
after-Follows model [] = (refl, refl, refl)
after-Follows model (e ∷ past) = apply-Follows e past (after model past) (after-Follows model past)

-- A call is refused exactly if there were five failures or more since the last success, nobody has
-- asked after the rest since the last of them, and the last of them is less than a minute ago.
pub can_call-after :
    (model : String) (past : List BreakerEvent) (now : ℕ)
    → (can_call now (after model past)).0
      ≡ not (is_tripped past && not (is_woken past) && not (has_rested now (last_failure past)))
unfolding can_call
can_call-after model past now = let (n, st, o) = after-Follows model past in ground arith
