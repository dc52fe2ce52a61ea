-- ===== src/Llm/Calls/Accounts.antt =====
-- What a call of the gateway charges: the record that `stream` hands to the cost log.
use public_nest_server.Base.{
  ℕ, ◌+◌, ◌≡◌, ◌≢◌, refl, sym, ap, ◌∙◌, Option, some, List, [], ◌∷◌, ◌++◌, String, Bool, ◌||◌, ok,
  Action, ⊤, map, length, any, text_eq, arith, Bool-cases, Result-cases, inl, inr, eq_iff,
  length-map,
}
use public_nest_server.Llm.Models.{is_in, IsUnique, is_in-append, append-IsUnique}
use public_nest_server.Llm.Routing.{resolve_chain}
use public_nest_server.Llm.Fallback.{
  YieldedToken, Providers, Streamed, stream_with_fallback, yielded,
}
use public_nest_server.Llm.Fallback.Laws.{IsAnswered, stream_with_fallback-IsAnswered}
use public_nest_server.Llm.Calls.{
  GatewayCallCommand, LlmCostLog, ModelCostEntry, Tally, add_model, count_token, count_tokens,
  GatewayState, Called, start, track, log_of, stream_call,
}

count_tokens-completion :
    (tokens : List YieldedToken) (tally : Tally)
    → (count_tokens tokens tally).completion_tokens ≡ tally.completion_tokens + length tokens
unfolding count_tokens
count_tokens-completion [] tally = omega arith
count_tokens-completion (t ∷ tokens) tally =
    omega (arith, count_tokens-completion tokens (count_token t tally))

count_tokens-start :
    (tokens : List YieldedToken) (tally : Tally)
    → tally.completion_tokens ≡ 0
    → (count_tokens tokens tally).completion_tokens ≡ length tokens
count_tokens-start tokens tally e = omega (arith, count_tokens-completion tokens tally)

count_tokens-append :
    (xs ys : List YieldedToken) (tally : Tally)
    → count_tokens (xs ++ ys) tally ≡ count_tokens ys (count_tokens xs tally)
unfolding count_tokens
count_tokens-append [] ys tally = refl
count_tokens-append (x ∷ xs) ys tally = count_tokens-append xs ys (count_token x tally)

count_tokens-yielded :
    (model t : String) (tokens : List String) (tally : Tally)
    → (count_tokens (yielded model (t ∷ tokens)) tally).used_model ≡ some model
unfolding count_tokens
count_tokens-yielded model t [] tally = refl
count_tokens-yielded model t (u ∷ tokens) tally =
    count_tokens-yielded model u tokens (count_token (record { token = t; model = model }) tally)

is_in-add_model :
    (m n : String) (models : List String)
    → is_in m (add_model n models) ≡ is_in m models || text_eq m n
is_in-add_model m n models = ground (arith, is_in-append m models (n ∷ []), eq_iff m n)

add_model-IsUnique :
    (m : String) (models : List String) → IsUnique models → IsUnique (add_model m models)
add_model-IsUnique m models h = elim (Bool-cases (is_in m models)) [
  | inl old ↦ rw old h
  | inr new ↦ rw new (append-IsUnique m models h new)
]

-- Whether a model has yielded a token.
abbrev pub has_yielded : String → List YieldedToken → Bool
has_yielded m tokens = any (λ t. text_eq m t.model) tokens

count_tokens-attempted :
    (m : String) (tokens : List YieldedToken) (tally : Tally)
    → is_in m (count_tokens tokens tally).attempted_models
      ≡ is_in m tally.attempted_models || has_yielded m tokens
unfolding count_tokens
count_tokens-attempted m [] tally = ground arith
count_tokens-attempted m (t ∷ tokens) tally = ground (
  arith,
  count_tokens-attempted m tokens (count_token t tally),
  is_in-add_model m t.model tally.attempted_models,
)

count_tokens-IsUnique :
    (tokens : List YieldedToken) (tally : Tally)
    → IsUnique tally.attempted_models
    → IsUnique (count_tokens tokens tally).attempted_models
unfolding count_tokens
count_tokens-IsUnique [] tally h = h
count_tokens-IsUnique (t ∷ tokens) tally h =
    count_tokens-IsUnique tokens (count_token t tally)
      (add_model-IsUnique t.model tally.attempted_models h)

module _ (providers : Providers) (cost_table : String → Option ModelCostEntry) {Logs : Type 0}
    (persist : LlmCostLog → Action providers.Failure Logs ⊤) where
  -- What is true of a call that ended without an exception.
  pub record IsAccounted (chain : List String) (now : ℕ) (command : GatewayCallCommand)
      (s : GatewayState providers cost_table persist) (out : Called providers cost_table persist)
      : Type 0 where
    -- the stream that was answered
    pub streamed : Streamed providers command.messages
    pub answered : IsAnswered providers command.messages chain s.state streamed
    pub same_tokens : out.tokens ≡ map (λ t. t.token) streamed.tokens
    -- one record was handed to the log
    pub log : LlmCostLog
    pub logged : out.after.logs ≡ (persist log s.logs).1
    -- every token that the client got is counted, and the answering model is charged
    pub completion : log.completion_tokens ≡ length out.tokens
    pub charged : answered.answer ≢ [] → log.model ≡ some answered.model
    -- the models that have yielded a token are listed, each once
    pub attempted : (m : String) → is_in m log.attempted_models ≡ has_yielded m streamed.tokens
    pub unique : IsUnique log.attempted_models

  charged_model :
      (partial tokens : List YieldedToken) (model : String) (answer : List String) (tally : Tally)
      → tokens ≡ partial ++ yielded model answer
      → answer ≢ []
      → (count_tokens tokens tally).used_model ≡ some model
  charged_model partial tokens model [] tally e some_answer = absurd (some_answer refl)
  charged_model partial tokens model (t ∷ answer) tally e some_answer =
      rw (e, count_tokens-append partial (yielded model (t ∷ answer)) tally)
        (count_tokens-yielded model t answer (count_tokens partial tally))

  -- A call that ends without an exception hands the cost log one record: it counts every token
  -- that the client has received, charges them to the model that answered if its answer is not
  -- empty, and lists each model that has yielded a token once and no other.
  pub stream_call-IsAccounted :
      (configured : List String) (now : ℕ) (command : GatewayCallCommand) (u : ⊤)
      (s : GatewayState providers cost_table persist)
      → (stream_call providers cost_table persist configured now command s).result ≡ ok u
      → IsAccounted
          (resolve_chain configured command.preferred_model)
          now
          command
          s
          (stream_call providers cost_table persist configured now command s)
  unfolding stream_call track log_of
  stream_call-IsAccounted configured now command u s h =
      let chain : List String = resolve_chain configured command.preferred_model in
      let out : Streamed providers command.messages =
        stream_with_fallback providers command.messages chain s.state in
      elim (Result-cases out.result) [
        | inr (x, e) ↦ absurd (ground arith)
        | inl (v, e) ↦
            let a : IsAnswered providers command.messages chain s.state out =
              stream_with_fallback-IsAnswered providers command.messages chain s.state v e in
            let first : Tally = start providers cost_table persist chain in
            let same : (stream_call providers cost_table persist configured now command s).tokens
                ≡ map (λ t. t.token) out.tokens =
              ground arith in
            record {
              streamed = out;
              answered = a;
              same_tokens = same;
              log = log_of providers cost_table persist now command chain out.tokens;
              logged = ground arith;
              completion =
                  count_tokens-start out.tokens first refl
                  ∙ sym (length-map (λ t. t.token) out.tokens)
                  ∙ ap length (sym same);
              charged = charged_model a.partial out.tokens a.model a.answer first a.tokens;
              attempted = λ m. count_tokens-attempted m out.tokens first;
              unique = count_tokens-IsUnique out.tokens first tt;
            }
      ]
