-- ===== src/Llm/Fallback/Laws.antt =====
-- Which model a stream with fallback has answered from, and what the client has received before.
use mathlib.Core.List.{append-nil, append_assoc}
use public_nest_server.Base.{
  ◌≡◌, refl, sym, ap, ◌∙◌, List, [], ◌∷◌, ◌++◌, String, true, false, Result, ◌⊎◌, ok, err, All,
  All-append, ⊤, arith, inl, inr, Result-cases, Bool-cases, eq_refl,
}
use public_nest_server.Llm.Models.{is_in}
use public_nest_server.Llm.Fallback.{
  LlmMessage, YieldedToken, Providers, port_failed, yielded, Streamed, preceded, ended, try_model,
  catch_failure, called, round, stream_chain, stream_with_fallback,
}

-- Tokens that came from some of the models.
abbrev pub ComeFrom : List String → List YieldedToken → Type 0
ComeFrom models tokens = All (λ t. is_in t.model models ≡ true) tokens

yielded-ComeFrom :
    (model : String) (chain tokens : List String) → ComeFrom (model ∷ chain) (yielded model tokens)
yielded-ComeFrom model chain [] = tt
yielded-ComeFrom model chain (t ∷ tokens) =
    (rw (eq_refl model) refl, yielded-ComeFrom model chain tokens)

ComeFrom-more :
    (model : String) (chain : List String) (tokens : List YieldedToken)
    → ComeFrom chain tokens
    → ComeFrom (model ∷ chain) tokens
ComeFrom-more model chain [] h = tt
ComeFrom-more model chain (t ∷ tokens) (p, h) =
    (ground (arith, p), ComeFrom-more model chain tokens h)

module _ (providers : Providers) (messages : List LlmMessage) where
  open providers use {State, Failure, can_call, record_success, record_failure, stream}

  -- What the models before the one that answers have done, from a state to another: each was refused
  -- by its breaker, or has yielded tokens before it, or the recording of its success, threw; its
  -- failure was then recorded. The list is all that they have yielded.
  pub data Passed : List String → State → List YieldedToken → State → Type 0 where
    nobody : {s : State} → Passed [] s [] s
    refused :
        {model : String} {models : List String} {s at end : State} {tokens : List YieldedToken}
        → can_call model s ≡ (ok false, at)
        → Passed models at tokens end
        → Passed (model ∷ models) s tokens end
    failed :
        {model : String} {models answer : List String} {s at mid left next end : State}
        {tokens : List YieldedToken} {ending : Result Failure ⊤}
        → can_call model s ≡ (ok true, at)
        → stream messages model at ≡ ((answer, ending), mid)
        → ((e : Failure) × (ending ≡ err e) × (left ≡ mid))
          ⊎ ((e : Failure) × (ending ≡ ok tt) × (record_success model mid ≡ (err e, left)))
        → record_failure model left ≡ (ok tt, next)
        → Passed models next tokens end
        → Passed (model ∷ models) s (yielded model answer ++ tokens) end

  -- A model that has yielded some tokens goes before those that come after it.
  abbrev Extends : String → List String → State → State → Type 0
  Extends model tokens s next =
      (models : List String) (later : List YieldedToken) (end : State)
      → Passed models next later end
      → Passed (model ∷ models) s (yielded model tokens ++ later) end

  -- How one round of the loop may end.
  data Round (model : String) (s : State) (rest : State → Streamed providers messages)
      (out : Streamed providers messages) : Type 0 where
    answers :
        (at : State) (answer : List String)
        → can_call model s ≡ (ok true, at)
        → (stream messages model at).0 ≡ (answer, ok tt)
        → out.tokens ≡ yielded model answer
        → out.result ≡ ok tt
        → Round model s rest out
    goes_on :
        (tokens : List String) (s' : State)
        → Extends model tokens s s'
        → out ≡ preceded providers messages (yielded model tokens) (rest s')
        → Round model s rest out
    breaks :
        (tokens : List String) (e : Failure)
        → out.tokens ≡ yielded model tokens
        → out.result ≡ err (port_failed e)
        → Round model s rest out

  catch_failure-Round :
      (model : String) (tokens : List String) (s at : State)
      (rest : State → Streamed providers messages)
      → ((next : State) → record_failure model at ≡ (ok tt, next) → Extends model tokens s next)
      → Round model s rest (
          preceded providers messages
            (yielded model tokens)
            (catch_failure providers messages model at rest))
  unfolding catch_failure preceded ended
  catch_failure-Round model tokens s at rest past =
      elim (Result-cases (record_failure model at).0) [
        | inl (u, e) ↦
            let next = (record_failure model at).1 in
            goes_on tokens next (past next (ap (λ r. (r, next)) e)) (ground arith)
        | inr (x, e) ↦
            breaks tokens x (ground (arith, append-nil (yielded model tokens))) (ground arith)
      ]

  called-Round :
      (model : String) (s at : State) (rest : State → Streamed providers messages)
      → can_call model s ≡ (ok true, at)
      → Round model s rest (called providers messages model at rest)
  unfolding called try_model preceded ended
  called-Round model s at rest allowed =
      let answer : List String = (stream messages model at).0.0 in
      let mid : State = (stream messages model at).1 in
      elim (Result-cases (stream messages model at).0.1) [
        | inr (x, e) ↦
            let end : called providers messages model at rest
                ≡ preceded providers messages (yielded model answer)
                    (catch_failure providers messages model mid rest) =
              ground arith in
            rw end (
              catch_failure-Round model answer s mid rest λ next recorded models later end past.
                failed allowed (ap (λ r. ((answer, r), mid)) e) (inl (x, refl, refl)) recorded past)
        | inl (u, e) ↦ elim (Result-cases (record_success model mid).0) [
          | inl (v, e₂) ↦
              answers at answer allowed (ground arith)
                (ground (arith, append-nil (yielded model answer))) (ground arith)
          | inr (x, e₂) ↦
              let left : State = (record_success model mid).1 in
              let end : called providers messages model at rest
                  ≡ preceded providers messages (yielded model answer)
                      (catch_failure providers messages model left rest) =
                ground arith in
              rw end (
                catch_failure-Round model answer s left rest λ next recorded models later end past.
                  failed allowed (ap (λ r. ((answer, r), mid)) e)
                    (inr (x, refl, ap (λ r. (r, left)) e₂)) recorded past)
        ]
      ]

  round-Round :
      (model : String) (s : State) (rest : State → Streamed providers messages)
      → Round model s rest (round providers messages model s rest)
  unfolding round ended preceded
  round-Round model s rest = elim (Result-cases (can_call model s).0) [
    | inr (x, e) ↦ breaks [] x (ground arith) (ground arith)
    | inl (admitted, e) ↦ elim (Bool-cases admitted) [
      | inl yes_call ↦
          let end : round providers messages model s rest
              ≡ called providers messages model (can_call model s).1 rest =
            ground arith in
          rw end (called-Round model s (can_call model s).1 rest (ground arith))
      | inr no_call ↦
          let at : State = (can_call model s).1 in
          let denied : can_call model s ≡ (ok false, at) = ground arith in
          goes_on [] at (λ models later end past. refused denied past) (ground arith)
    ]
  ]

  -- A stream that was answered by one of the models of a chain, after the others before it.
  pub record IsAnswered (chain : List String) (s : State) (out : Streamed providers messages)
      : Type 0 where
    pub before : List String
    pub model : String
    pub after : List String
    pub in_order : chain ≡ before ++ model ∷ after
    -- the client got what the earlier models had yielded
    pub partial : List YieldedToken
    pub asked : State
    pub past : Passed before s partial asked
    -- the breaker admitted the model, its stream ended by itself, and it was recorded
    pub at : State
    pub admitted : can_call model asked ≡ (ok true, at)
    pub answer : List String
    pub answered : (stream messages model at).0 ≡ (answer, ok tt)
    -- and then the whole answer
    pub earlier : ComeFrom before partial
    pub tokens : out.tokens ≡ partial ++ yielded model answer
    pub all_from : ComeFrom chain out.tokens

  IsAnswered-preceded :
      (model : String) (tokens chain : List String) (s s' : State)
      (out : Streamed providers messages)
      → Extends model tokens s s'
      → IsAnswered chain s' out
      → IsAnswered (model ∷ chain) s (preceded providers messages (yielded model tokens) out)
  unfolding preceded
  IsAnswered-preceded model tokens chain s s' out step a = record {
    past = step a.before a.partial a.asked a.past;
    before = model ∷ a.before;
    model = a.model;
    after = a.after;
    in_order = ap (λ l. model ∷ l) a.in_order;
    asked = a.asked;
    at = a.at;
    admitted = a.admitted;
    answer = a.answer;
    answered = a.answered;
    partial = yielded model tokens ++ a.partial;
    earlier =
        All-append _ (yielded model tokens) a.partial (yielded-ComeFrom model a.before tokens)
          (ComeFrom-more model a.before a.partial a.earlier);
    tokens =
        ap (λ l. yielded model tokens ++ l) a.tokens
        ∙ sym (append_assoc (yielded model tokens) a.partial (yielded a.model a.answer));
    all_from =
        All-append _ (yielded model tokens) out.tokens (yielded-ComeFrom model chain tokens)
          (ComeFrom-more model chain out.tokens a.all_from);
  }

  stream_chain-IsAnswered :
      (chain attempted : List String) (s : State) (u : ⊤)
      → (stream_chain providers messages chain attempted s).result ≡ ok u
      → IsAnswered chain s (stream_chain providers messages chain attempted s)
  unfolding stream_chain ended preceded
  stream_chain-IsAnswered [] attempted s u h = absurd (ground arith)
  stream_chain-IsAnswered (model ∷ chain) attempted s u h =
      let rest : State → Streamed providers messages =
        stream_chain providers messages chain (attempted ++ model ∷ []) in
      elim (round-Round model s rest) [
        | breaks tokens e t r ↦ absurd (ground arith)
        | goes_on tokens s' step end ↦ rw end (
            IsAnswered-preceded model tokens chain s s' (rest s') step (
              stream_chain-IsAnswered chain (attempted ++ model ∷ []) s' u
                (ap (λ o. o.result) (sym end) ∙ h)))
        | answers at answer allowed answered t r ↦ record {
          before = [];
          model = model;
          after = chain;
          in_order = refl;
          asked = s;
          past = nobody;
          at = at;
          admitted = allowed;
          answer = answer;
          answered = answered;
          partial = [];
          earlier = tt;
          tokens = t;
          all_from = rw t (yielded-ComeFrom model chain answer);
        }
      ]

  -- A stream that ends without an exception was answered by one model of the chain, which its
  -- breaker had admitted: the client has received its whole answer, after exactly what the models
  -- earlier in the chain had yielded, each of which was refused by its breaker, or failed and was
  -- recorded as failed, and nothing else.
  pub stream_with_fallback-IsAnswered :
      (chain : List String) (s : State) (u : ⊤)
      → (stream_with_fallback providers messages chain s).result ≡ ok u
      → IsAnswered chain s (stream_with_fallback providers messages chain s)
  unfolding stream_with_fallback
  stream_with_fallback-IsAnswered chain s u h = stream_chain-IsAnswered chain [] s u h

  -- If the breaker's success cannot be recorded after a whole answer, the answer counts as failed:
  -- with the failure recorded and a second model that is admitted and answers, the stream ends
  -- without an exception, and the client has received both answers, one after the other.
  pub unrecorded_success_answers_twice :
      (first second : String) (chain answer again : List String) (u v w : ⊤) (x : Failure)
      (s at : State)
      → can_call first s ≡ (ok true, at)
      → (stream messages first at).0 ≡ (answer, ok u)
      → let ended_at = (stream messages first at).1 in
        let unrecorded_at = (record_success first ended_at).1 in
        let recorded_at = (record_failure first unrecorded_at).1 in
        let at' = (can_call second recorded_at).1 in
        (record_success first ended_at).0 ≡ err x
        → (record_failure first unrecorded_at).0 ≡ ok v
        → (can_call second recorded_at).0 ≡ ok true
        → (stream messages second at').0 ≡ (again, ok w)
        → (record_success second (stream messages second at').1).0 ≡ ok tt
        → let out = stream_with_fallback providers messages (first ∷ second ∷ chain) s in
          (out.result ≡ ok tt) × (out.tokens ≡ yielded first answer ++ yielded second again)
  unfolding stream_with_fallback stream_chain round called try_model catch_failure preceded ended
  unrecorded_success_answers_twice first second chain answer again u v w x s at admitted answered
        unrecorded recorded second_admitted second_answered second_recorded =
      (ground arith, ground (arith, append-nil (yielded second again)))
