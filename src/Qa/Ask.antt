-- ===== src/Qa/Ask.antt =====
-- AskUseCase (application/ask.use-case.ts): a question is answered from a cache, from a cache of similar
-- questions, or by the LLM. The sessions, the search, the active prompt, the LLM gateway, the cache
-- of similar questions, the patterns, the hash and the clock are parameters, and so is Redis, which
-- keeps the answers under their keys.
pub mod Outcomes
pub mod Ways
use Prim.Native.String
use public_nest_server.Base.{
  ℕ, Option, none, some, or_else, List, [], ◌∷◌, ◌++◌, map, String, Bool, true, false, text_eq, ltb,
  Result, ok, err, Action, pure, ◌>>=◌, if◌then◌else◌, ⊤, ◌≡◌,
}
use public_nest_server.Llm.Fallback.{LlmMessage}
use public_nest_server.Qa.Agentic.{
  rag_prompt_name, default_tenant, rag_security_policy_clause, joined,
}
use public_nest_server.Qa.Budget.{join}
use public_nest_server.Qa.Chunks.{SimilaritySearchResult, context_of}
use public_nest_server.Qa.Filtering.{stream_filtered}
use public_nest_server.Qa.Rewriter.{is_follow_up, rewrite}

pub record AskCommand : Type 0 where
  pub question : String
  pub top_k : ℕ
  pub tenant : Option String
  pub use_hyde : Bool
  pub user_id : Option String
  pub conversation_history : Option (List LlmMessage)
  pub session_id : Option String

-- `ILlmCachePort`, whose adapter passes `GET` and `SET … EX` on to Redis; the keys are taken not to
-- expire meanwhile.
pub record LlmCache (Failure : Type 0) : Type 1 where
  pub Store : Type 0
  pub content : String → Store → Option String
  pub get : String → Store → Result Failure (Option String)
  pub set_with_ttl : String → String → ℕ → Action Failure Store ⊤
  pub get-ok : (k : String) (r : Option String) (s : Store) → get k s ≡ ok r → r ≡ content k s
  pub set-ok :
      (k j v : String) (ttl : ℕ) (u : ⊤) (s : Store)
      → (set_with_ttl k v ttl s).0 ≡ ok u
      → content j (set_with_ttl k v ttl s).1 ≡ (if text_eq j k then some v else content j s)

-- What the use case calls besides the cache.
pub record AskServices : Type 1 where
  pub State : Type 0
  pub Failure : Type 0
  pub Embedding : Type 0
  -- `sessionRepo.findById`, and `getHistory` of the session
  pub find_history : String → Action Failure State (Option (List LlmMessage))
  -- the LLM of the rewriter, read to its end
  pub rewriter_stream : List LlmMessage → Action Failure State (List String)
  pub hybrid_search :
      String → ℕ → Bool → Action Failure State (Embedding × List SimilaritySearchResult)
  pub find_similar : Embedding → String → Action Failure State (Option String)
  pub store_similar : Embedding → String → String → ℕ → String → Action Failure State ⊤
  pub active_prompt : String → Option String → Action Failure State (String → String → String)
  -- the tokens that the gateway has yielded, and how it has ended
  pub gateway_stream :
      List LlmMessage → String → String → State → List String × Result Failure ⊤ × State
  pub current_date : State → String
  pub to_lower : String → String
  pub trim : String → String
  pub is_injection : String → Bool
  pub clean_lines : String → List String
  pub is_filtered_line : String → Bool
  pub mask : String → String
  pub show : ℕ → String
  -- the text `__SOURCES:…`
  pub sources_text : List SimilaritySearchResult → String
  -- the default order of `sort`, and the hexadecimal SHA-256 of a text
  pub sort : List String → List String
  pub sha256 : String → String

pub record AskConfig : Type 0 where
  pub cache_ttl : ℕ
  pub semantic_cache_enabled : Bool
  pub semantic_cache_ttl : ℕ

module _ (services : AskServices) (cache : LlmCache services.Failure) (config : AskConfig) where
  open services use {State, Failure, Embedding}

  pub record AskState : Type 0 where
    pub state : State
    pub store : cache.Store

  -- what a client of the generator has got, and how it has ended
  pub record Answering : Type 0 where
    pub yields : List String
    pub result : Result Failure ⊤
    pub after : AskState

  abbrev pub returned : List String → Result Failure ⊤ → AskState → Answering
  returned yields result s = record { yields = yields; result = result; after = s }

  abbrev pub yielding : List String → Answering → Answering
  yielding yields a = record a { yields = yields ++ a.yields }

  -- `await` of a call of a service
  abbrev pub awaiting :
      {A : Type 0} → Action Failure State A → AskState → (A → AskState → Answering) → Answering
  awaiting m s next =
      let (r, state) = m s.state in
      let s' : AskState = record s { state = state } in
      elim r [ ok a ↦ next a s' | err e ↦ returned [] (err e) s' ]

  unfoldable pub build_cache_key : String → List SimilaritySearchResult → String
  unfolding join
  build_cache_key question chunks =
      let ids = join "," (services.sort (map (λ c. c.metadata.document_id) chunks)) in
      String.◌++◌ "llm:cache:" (services.sha256 (String.◌++◌ question (String.◌++◌ "|" ids)))

  abbrev pub sources : List SimilaritySearchResult → List String
  sources [] = []
  sources (c ∷ chunks) = services.sources_text (c ∷ chunks) ∷ []

  -- the history that was given, or that of the session
  unfoldable pub history_of : AskCommand → Action Failure State (Option (List LlmMessage))
  history_of command s = elim command.conversation_history [
    | some history ↦ (ok (some history), s)
    | none ↦ elim command.session_id [
      | none ↦ (ok none, s)
      | some id ↦ if text_eq id "" then (ok none, s) else services.find_history id s
    ]
  ]

  -- the question that is searched for
  unfoldable pub search_question : String → Option (List LlmMessage) → Action Failure State String
  unfolding is_follow_up rewrite
  search_question question none = pure question
  search_question question (some history) =
      if is_follow_up services.to_lower question history
      then rewrite services.trim services.rewriter_stream question history
      else pure question

  unfoldable pub build_rag_messages :
      AskCommand
      → List SimilaritySearchResult
      → Option (List LlmMessage)
      → Action Failure State (List LlmMessage)
  build_rag_messages command chunks history = do
    let context = context_of services.is_injection services.clean_lines services.show chunks
    current_date ← (λ s. (ok (services.current_date s), s))
    render ← services.active_prompt rag_prompt_name command.user_id
    pure (
        record {
          role = "system";
          content = String.◌++◌ (render context current_date) rag_security_policy_clause;
        }
          ∷ or_else history []
        ++ record { role = "user"; content = command.question } ∷ [])

  abbrev pub tenant_of : AskCommand → String
  tenant_of command = or_else command.tenant default_tenant

  -- `setWithTtl` of the masked answer, and `store` for similar questions
  unfoldable pub keep_answer : AskCommand → Embedding → String → String → AskState → Answering
  keep_answer command embedding key masked s =
      let (r, store) = cache.set_with_ttl key masked config.cache_ttl s.store in
      let s' : AskState = record s { store = store } in
      elim r [
        | err e ↦ returned [] (err e) s'
        | ok u ↦
            if config.semantic_cache_enabled
            then (awaiting
                (services.store_similar embedding command.question masked config.semantic_cache_ttl
                  (tenant_of command))
                s' λ v s''. returned [] (ok tt) s'')
            else returned [] (ok tt) s'
      ]

  abbrev pub ends_well : Result Failure ⊤ → Bool
  ends_well (ok u) = true
  ends_well (err e) = false

  -- the answer of the LLM, passed on while it is read; it is kept if the gateway does not throw
  unfoldable pub generate :
      AskCommand
      → Embedding
      → List SimilaritySearchResult
      → Option (List LlmMessage)
      → String
      → AskState
      → Answering
  unfolding keep_answer build_rag_messages joined
  generate command embedding chunks history key s =
      awaiting (build_rag_messages command chunks history) s λ messages s'.
        let (tokens, r, state) =
          services.gateway_stream messages rag_prompt_name (tenant_of command) s'.state in
        let collected = stream_filtered services.is_filtered_line (ends_well r) tokens in
        let s'' : AskState = record s' { state = state } in
        elim r [
          | err e ↦ returned collected (err e) s''
          | ok u ↦
              yielding collected
                (keep_answer command embedding key (services.mask (joined collected)) s'')
        ]

  -- the answer to a similar question, or the LLM's
  unfoldable pub from_similar :
      AskCommand
      → Embedding
      → List SimilaritySearchResult
      → Option (List LlmMessage)
      → String
      → AskState
      → Answering
  unfolding generate
  from_similar command embedding chunks history key s =
      if config.semantic_cache_enabled
      then (awaiting (services.find_similar embedding (tenant_of command)) s λ hit s'. elim hit [
        | some answer ↦ returned (answer ∷ []) (ok tt) s'
        | none ↦ generate command embedding chunks history key s'
      ])
      else generate command embedding chunks history key s

  -- an answer that is cached is not empty
  abbrev pub cached_answer : Option String → Option String
  cached_answer none = none
  cached_answer (some a) = if text_eq a "" then none else some a

  -- from the cache on
  unfoldable pub from_cache :
      AskCommand
      → Embedding
      → List SimilaritySearchResult
      → Option (List LlmMessage)
      → AskState
      → Answering
  unfolding from_similar build_cache_key
  from_cache command embedding chunks history s =
      let key = build_cache_key command.question chunks in
      elim (cache.get key s.store) [
        | err e ↦ returned [] (err e) s
        | ok cached ↦ elim (cached_answer cached) [
          | some answer ↦ returned (answer ∷ []) (ok tt) s
          | none ↦ from_similar command embedding chunks history key s
        ]
      ]

  -- `execute`
  unfoldable pub execute_ask : AskCommand → AskState → Answering
  unfolding from_cache history_of search_question
  execute_ask command s = awaiting (history_of command) s λ history s₁.
      awaiting (search_question command.question history) s₁ λ question s₂.
        awaiting (services.hybrid_search question command.top_k command.use_hyde) s₂
          λ (embedding, chunks) s₃.
            yielding (sources chunks) (from_cache command embedding chunks history s₃)
