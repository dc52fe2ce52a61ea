-- ===== src/Llm/Fallback.antt =====
-- FallbackService (application/fallback.service.ts), over the port ICircuitBreakerPort
-- (domain/port/circuit-breaker.port.ts) and an LLM provider. What an async generator yields is a
-- list, beside the way it ends.
pub mod Laws
use public_nest_server.Base.{
  ℕ, ◌≡◌, Option, none, some, List, [], ◌∷◌, ◌++◌, String, Bool, true, false, Result, ok, err,
  Action, map, ⊤, if◌then◌else◌,
}

pub record LlmMessage : Type 0 where
  pub role : String
  pub content : String

pub record YieldedToken : Type 0 where
  pub token : String
  pub model : String

-- The port, and the provider's `stream`: the tokens that it yields, and whether it ends or throws.
pub record Providers : Type 1 where
  pub State : Type 0
  pub Failure : Type 0
  pub can_call : String → Action Failure State Bool
  pub record_success : String → Action Failure State ⊤
  pub record_failure : String → Action Failure State ⊤
  pub stream : List LlmMessage → String → State → (List String × Result Failure ⊤) × State

-- Why a stream has ended with an exception: all models failed, or the port threw.
pub data FallbackError (Failure : Type 0) : Type 0 where
  all_failed : List String → FallbackError Failure
  port_failed : Failure → FallbackError Failure

abbrev pub yielded : String → List String → List YieldedToken
yielded model tokens = map (λ t. record { token = t; model = model }) tokens

module _ (providers : Providers) (messages : List LlmMessage) where
  open providers use {State, Failure, can_call, record_success, record_failure, stream}

  pub record Streamed : Type 0 where
    pub tokens : List YieldedToken
    pub result : Result (FallbackError Failure) ⊤
    pub state : State

  -- the tokens that were yielded before the rest of the loop
  unfoldable pub preceded : List YieldedToken → Streamed → Streamed
  preceded tokens out = record out { tokens = tokens ++ out.tokens }

  unfoldable pub ended : Result (FallbackError Failure) ⊤ → State → Streamed
  ended result s = record { tokens = []; result = result; state = s }

  -- the `try` block of one model: the tokens, and whether it returned or something in it threw
  unfoldable pub try_model : String → State → (List YieldedToken × Result Failure ⊤) × State
  try_model model s =
      let ((tokens, end), s') = stream messages model s in
      let (recorded, s'') = record_success model s' in
      elim end [
        | ok u ↦ ((yielded model tokens, recorded), s'')
        | err e ↦ ((yielded model tokens, err e), s')
      ]

  -- the `catch` block, and the rest of the loop if the failure was recorded
  unfoldable pub catch_failure : String → State → (State → Streamed) → Streamed
  unfolding ended
  catch_failure model s rest =
      let (recorded, s') = record_failure model s in
      elim recorded [ ok u ↦ rest s' | err e ↦ ended (err (port_failed e)) s' ]

  unfoldable pub called : String → State → (State → Streamed) → Streamed
  unfolding preceded ended
  called model s rest =
      let ((tokens, end), s') = try_model model s in
      elim end [
        | ok u ↦ preceded tokens (ended (ok tt) s')
        | err e ↦ preceded tokens (catch_failure model s' rest)
      ]

  -- one round of the loop
  unfoldable pub round : String → State → (State → Streamed) → Streamed
  unfolding ended
  round model s rest =
      let (allowed, s') = can_call model s in
      elim allowed [
        | ok admitted ↦ if admitted then called model s' rest else rest s'
        | err e ↦ ended (err (port_failed e)) s'
      ]

  unfoldable pub stream_chain : List String → List String → State → Streamed
  unfolding ended
  stream_chain [] attempted s = ended (err (all_failed attempted)) s
  stream_chain (model ∷ chain) attempted s =
      round model s (stream_chain chain (attempted ++ model ∷ []))

  unfoldable pub stream_with_fallback : List String → State → Streamed
  unfolding stream_chain
  stream_with_fallback chain s = stream_chain chain [] s
