-- ===== src/Qa/Ask/Outcomes.antt =====
-- That every answered question was answered in one of the ways, and what later questions are answered
-- from.
use public_nest_server.Base.{
  if◌then◌else◌, Option-cases, Bool-cases, none, true, false, text_eq, eq_iff, ◌⊎◌, ◌≡◌, ◌≢◌, refl,
  ap, ◌∙◌, Option, some, List, [], ◌∷◌, ◌++◌, map, String, ok, Result-cases, inl, inr, arith, ⊤,
}
use public_nest_server.Llm.Fallback.{LlmMessage}
use public_nest_server.Qa.Agentic.{joined}
use public_nest_server.Qa.Rewriter.{is_follow_up, rewrite_prompt, rewrite}
use public_nest_server.Qa.Chunks.{SimilaritySearchResult}
use public_nest_server.Qa.Ask.{
  AskCommand, LlmCache, AskServices, AskConfig, build_cache_key, sources, history_of,
  search_question, generate, cached_answer, from_cache, execute_ask,
}
use public_nest_server.Qa.Ask.Ways.{
  S, Out, Outcome, not_empty, generate-Generated, from_cache-Outcome,
}

module _ (services : AskServices) (cache : LlmCache services.Failure) (config : AskConfig) where
  open services use {State, Failure, Embedding}

  abbrev pub ids_of : List SimilaritySearchResult → List String
  ids_of chunks = map (λ c. c.metadata.document_id) chunks

  build_cache_key_same :
      (q q' : String) (chunks chunks' : List SimilaritySearchResult)
      → q ≡ q'
      → services.sort (ids_of chunks') ≡ services.sort (ids_of chunks)
      → build_cache_key services cache config q chunks'
        ≡ build_cache_key services cache config q' chunks
  unfolding build_cache_key
  build_cache_key_same q q' chunks chunks' same ids = rw (same, ids) refl

  -- Where the history of a question comes from: the command, its session, or nowhere.
  abbrev pub IsHistory : AskCommand → State → Option (List LlmMessage) → State → Type 0
  IsHistory command s history t =
      ((given : List LlmMessage) × (command.conversation_history ≡ some given)
        × (history ≡ some given)
        × (t ≡ s))
      ⊎ ((command.conversation_history ≡ none)
          × (((history ≡ none) × (t ≡ s) × ((id : String) → command.session_id ≡ some id → id ≡ ""))
              ⊎ ((id : String) × (command.session_id ≡ some id)
                  × (services.find_history id s ≡ (ok history, t)))))

  history_of-IsHistory :
      (command : AskCommand) (s : State) (history : Option (List LlmMessage))
      → (history_of services cache config command s).0 ≡ ok history
      → IsHistory command s history (history_of services cache config command s).1
  unfolding history_of
  history_of-IsHistory command s history h = elim (Option-cases command.conversation_history) [
    | inr (given, e) ↦ inl (given, e, ground arith, ground arith)
    | inl e ↦ elim (Option-cases command.session_id) [
      | inl none_given ↦
          inr (e, inl (ground arith, ground arith, λ id named. absurd (ground arith)))
      | inr (id, named) ↦ elim (Bool-cases (text_eq id "")) [
        | inl empty ↦
            let blank = (eq_iff id "").0 empty in
            inr (
              e,
              inl (
                ground arith,
                ground arith,
                λ i again. let same : i ≡ id = ground arith in same ∙ blank,
              ),
            )
        | inr filled ↦ inr (e, inr (id, named, ground arith))
      ]
    ]
  ]

  -- What is searched for: the question, or, where it follows the history up, what the LLM has made
  -- of it, if that is not empty.
  abbrev pub IsQuery : String → Option (List LlmMessage) → State → String → State → Type 0
  IsQuery question history s query t =
      ((query ≡ question)
        × (t ≡ s)
        × ((h : List LlmMessage)
            → history ≡ some h
            → is_follow_up services.to_lower question h ≡ false))
      ⊎ ((h : List LlmMessage) × (tokens : List String) × (history ≡ some h)
          × (is_follow_up services.to_lower question h ≡ true)
          × (services.rewriter_stream
                (record { role = "user"; content = rewrite_prompt question h } ∷ []) s
              ≡ (ok tokens, t))
          × (query ≡ (
              if text_eq (services.trim (joined tokens)) ""
              then question
              else services.trim (joined tokens))))

  search_question-IsQuery :
      (question : String) (history : Option (List LlmMessage)) (s : State) (query : String)
      → (search_question services cache config question history s).0 ≡ ok query
      → IsQuery question history s query
          (search_question services cache config question history s).1
  unfolding search_question rewrite
  search_question-IsQuery question none s query h =
      inl (ground arith, refl, λ l e. absurd (ground arith))
  search_question-IsQuery question (some history) s query h =
      let prompt : List LlmMessage =
        record { role = "user"; content = rewrite_prompt question history } ∷ [] in
      elim (Bool-cases (is_follow_up services.to_lower question history)) [
        | inr alone ↦ inl (
          ground arith,
          ground arith,
          λ l e.
              let same : l ≡ history = ground arith in
              ap (is_follow_up services.to_lower question) same ∙ alone,
        )
        | inl follows ↦
            let call = services.rewriter_stream prompt s in
            elim (Result-cases call.0) [
              | inr (x, e) ↦ absurd (ground arith)
              | inl (tokens, e) ↦ inr (history, tokens, refl, follows, ground arith, ground arith)
            ]
      ]

  -- What a client has got that asked a question without an exception: the sources of the chunks
  -- that a search found, if it found any, and an answer.
  pub record IsAsked (command : AskCommand) (s : S services cache config)
      (out : Out services cache config) : Type 0 where
    pub history : Option (List LlmMessage)
    pub remembered : State
    pub is_history : IsHistory command s.state history remembered
    pub query : String
    pub searched : State
    pub is_query : IsQuery command.question history remembered query searched
    pub chunks : List SimilaritySearchResult
    pub embedding : Embedding
    pub found_at : State
    pub found :
        services.hybrid_search query command.top_k command.use_hyde searched
        ≡ (ok (embedding, chunks), found_at)
    pub before : S services cache config
    pub is_before : before ≡ record s { state = found_at }
    pub answering : Out services cache config
    pub yields : out.yields ≡ sources services cache config chunks ++ answering.yields
    pub result : out.result ≡ answering.result
    pub after : out.after ≡ answering.after
    pub outcome :
        Outcome services cache config command embedding chunks history
          (build_cache_key services cache config command.question chunks)
          before
          answering

  -- A question that does not throw is searched for, as it was asked or, where it follows up the
  -- history of the command or its session, as the LLM has rewritten it; and it is answered after
  -- the sources of what was found: from the cache, where the answer to the question with the same
  -- documents is kept, by the answer that is kept for a similar question of the tenant, or by the
  -- LLM, whose filtered tokens are passed on as they are, while the cache is given their masked
  -- text.
  pub execute_ask-IsAsked :
      (command : AskCommand) (u : ⊤) (s : S services cache config)
      → (execute_ask services cache config command s).result ≡ ok u
      → IsAsked command s (execute_ask services cache config command s)
  unfolding execute_ask
  execute_ask-IsAsked command u s h =
      let asked = history_of services cache config command s.state in
      elim (Result-cases asked.0) [
        | inr (x, e) ↦ absurd (ground arith)
        | inl (history, e) ↦
            let put = search_question services cache config command.question history asked.1 in
            elim (Result-cases put.0) [
              | inr (x, e₂) ↦ absurd (ground arith)
              | inl (query, e₂) ↦
                  let search = services.hybrid_search query command.top_k command.use_hyde put.1 in
                  elim (Result-cases search.0) [
                    | inr (x, e₃) ↦ absurd (ground arith)
                    | inl ((embedding, chunks), e₃) ↦
                        let s₃ : S services cache config = record s { state = search.1 } in
                        record {
                          history = history;
                          remembered = asked.1;
                          is_history = history_of-IsHistory command s.state history e;
                          query = query;
                          searched = put.1;
                          is_query =
                              search_question-IsQuery command.question history asked.1 query e₂;
                          chunks = chunks;
                          embedding = embedding;
                          found_at = search.1;
                          found = ap (λ r. (r, search.1)) e₃;
                          before = s₃;
                          is_before = refl;
                          answering =
                              from_cache services cache config command embedding chunks history s₃;
                          yields = ground arith;
                          result = ground arith;
                          after = ground arith;
                          outcome =
                              from_cache-Outcome services cache config command embedding chunks
                                history s₃;
                        }
                  ]
            ]
      ]

  -- An answer that the LLM has given once is given to whoever asks the same question later and
  -- whose search finds chunks whose document ids, once sorted, are the same, if Redis answers and
  -- the answer is not empty: neither the account, nor the conversation, nor the tenant of the later
  -- question counts.
  pub from_cache_replays :
      (command again : AskCommand) (embedding embedding' : Embedding)
      (chunks chunks' : List SimilaritySearchResult) (history history' : Option (List LlmMessage))
      (u : ⊤) (r : Option String) (s s' : S services cache config)
      → again.question ≡ command.question
      → services.sort (ids_of chunks') ≡ services.sort (ids_of chunks)
      → let key = build_cache_key services cache config command.question chunks in
        let out = generate services cache config command embedding chunks history key s in
        out.result ≡ ok u
        → s'.store ≡ out.after.store
        → cache.get key s'.store ≡ ok r
        → services.mask (joined out.yields) ≢ ""
        → from_cache services cache config again embedding' chunks' history' s'
          ≡ record { yields = services.mask (joined out.yields) ∷ []; result = ok tt; after = s' }
  unfolding from_cache
  from_cache_replays command again embedding embedding' chunks chunks' history history' u r s s'
        same ids done store answered filled =
      let key : String = build_cache_key services cache config command.question chunks in
      let out : Out services cache config =
        generate services cache config command embedding chunks history key s in
      let answer : String = services.mask (joined out.yields) in
      let same_key : build_cache_key services cache config again.question chunks' ≡ key =
        build_cache_key_same again.question command.question chunks chunks' same ids in
      let kept : cache.content key s'.store ≡ some answer =
        ap (cache.content key) store
        ∙ (generate-Generated services cache config command embedding chunks history key u s
            done).3 in
      let found : r ≡ some answer = cache.get-ok key r s'.store answered ∙ kept in
      let got : cache.get (build_cache_key services cache config again.question chunks') s'.store
          ≡ ok (some answer) =
        ap (λ k. cache.get k s'.store) same_key ∙ answered ∙ ap ok found in
      let shown : cached_answer services cache config (some answer) ≡ some answer =
        not_empty services cache config answer filled in
      ground arith
