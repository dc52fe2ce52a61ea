-- ===== src/Qa/Ask/Ways.antt =====
-- How a question may be answered: from the cache, from a similar question or by the LLM.
use mathlib.Core.List.{append-nil}
use public_nest_server.Base.{
  ◌≡◌, ◌≢◌, refl, sym, ap, ◌∙◌, Option, none, some, List, [], ◌∷◌, ◌++◌, String, true, text_eq, ok,
  err, Result-cases, Option-cases, Bool-cases, inl, inr, ◌⊎◌, false, arith, eq_refl, eq_iff, ⊤,
}
use public_nest_server.Llm.Fallback.{LlmMessage}
use public_nest_server.Qa.Agentic.{rag_prompt_name, joined}
use public_nest_server.Qa.Chunks.{SimilaritySearchResult}
use public_nest_server.Qa.Filtering.{stream_filtered}
use public_nest_server.Qa.Ask.{
  AskCommand, LlmCache, AskServices, AskConfig, AskState, Answering, build_cache_key,
  build_rag_messages, tenant_of, keep_answer, generate, from_similar, cached_answer, from_cache,
}

module _ (services : AskServices) (cache : LlmCache services.Failure) (config : AskConfig) where
  open services use {State, Failure, Embedding}

  abbrev pub S : Type 0
  S = AskState services cache config

  abbrev pub Out : Type 0
  Out = Answering services cache config

  -- What the search for similar questions has left, which has found none, or was not made.
  abbrev pub NoneSimilar : AskCommand → Embedding → State → State → Type 0
  NoneSimilar command embedding from looked =
      ((config.semantic_cache_enabled ≡ false) × (looked ≡ from))
      ⊎ ((config.semantic_cache_enabled ≡ true)
          × (services.find_similar embedding (tenant_of services cache config command) from
              ≡ (ok none, looked)))

  -- The answer of the LLM to the messages of a question, which ended without an exception.
  pub record Generated (command : AskCommand) (chunks : List SimilaritySearchResult)
      (history : Option (List LlmMessage)) (from : State) (tokens : List String) : Type 0 where
    pub messages : List LlmMessage
    pub built_at : State
    pub built :
        build_rag_messages services cache config command chunks history from
        ≡ (ok messages, built_at)
    pub left : State
    pub streamed :
        services.gateway_stream messages rag_prompt_name
          (tenant_of services cache config command)
          built_at
        ≡ (tokens, ok tt, left)

  -- How an answer is given out, once the chunks are found.
  pub data Outcome (command : AskCommand) (embedding : Embedding)
      (chunks : List SimilaritySearchResult) (history : Option (List LlmMessage)) (key : String)
      (s : S) (out : Out) : Type 0 where
    -- from the cache: nothing is called and nothing has changed
    from_the_cache :
        (answer : String)
        → cache.content key s.store ≡ some answer
        → answer ≢ ""
        → out.yields ≡ answer ∷ []
        → out.result ≡ ok tt
        → out.after ≡ s
        → Outcome command embedding chunks history key s out
    -- the answer that is kept for a similar question of the tenant
    from_a_similar_question :
        (answer : String)
        → config.semantic_cache_enabled ≡ true
        → services.find_similar embedding (tenant_of services cache config command) s.state
          ≡ (ok (some answer), out.after.state)
        → out.yields ≡ answer ∷ []
        → out.result ≡ ok tt
        → out.after.store ≡ s.store
        → Outcome command embedding chunks history key s out
    -- the filtered tokens of the LLM, not masked; their masked text is cached
    from_the_llm :
        (tokens : List String) (looked : State)
        → NoneSimilar command embedding s.state looked
        → Generated command chunks history looked tokens
        → out.yields ≡ stream_filtered services.is_filtered_line true tokens
        → out.result ≡ ok tt
        → cache.content key out.after.store ≡ some (services.mask (joined out.yields))
        → Outcome command embedding chunks history key s out
    -- an exception
    thrown : (e : Failure) → out.result ≡ err e → Outcome command embedding chunks history key s out

  cached_answer-some :
      (cached : Option String) (answer : String)
      → cached_answer services cache config cached ≡ some answer
      → (cached ≡ some answer) × (answer ≢ "")
  cached_answer-some none answer h = cc
  cached_answer-some (some a) answer h = elim (Bool-cases (text_eq a "")) [
    | inl empty ↦ absurd (ground arith)
    | inr filled ↦ (
      ground arith,
      λ e. let same : a ≡ "" = ground arith in absurd (ground (arith, eq_iff a "")),
    )
  ]

  pub not_empty : (a : String) → a ≢ "" → cached_answer services cache config (some a) ≡ some a
  not_empty a h = elim (Bool-cases (text_eq a "")) [
    | inl empty ↦ absurd (h ((eq_iff a "").0 empty))
    | inr filled ↦ rw filled refl
  ]

  keep_answer-kept :
      (command : AskCommand) (embedding : Embedding) (key masked : String) (u : ⊤) (s : S)
      → (keep_answer services cache config command embedding key masked s).result ≡ ok u
      → cache.content key
          (keep_answer services cache config command embedding key masked s).after.store
        ≡ some masked
  unfolding keep_answer
  keep_answer-kept command embedding key masked u s h =
      let write = cache.set_with_ttl key masked config.cache_ttl s.store in
      elim (Result-cases write.0) [
        | inr (x, e) ↦ absurd (ground arith)
        | inl (v, e) ↦
            let stored : cache.content key write.1 ≡ some masked =
              cache.set-ok key key masked config.cache_ttl v s.store e ∙ rw (eq_refl key) refl in
            let same : (keep_answer services cache config command embedding key masked
                  s).after.store
                ≡ write.1 =
              ground arith in
            ap (cache.content key) same ∙ stored
      ]

  keep_answer-yields :
      (command : AskCommand) (embedding : Embedding) (key masked : String) (s : S)
      → (keep_answer services cache config command embedding key masked s).yields ≡ []
  unfolding keep_answer
  keep_answer-yields command embedding key masked s = ground arith

  -- The LLM's answer, if nothing throws.
  pub generate-Generated :
      (command : AskCommand) (embedding : Embedding) (chunks : List SimilaritySearchResult)
      (history : Option (List LlmMessage)) (key : String) (u : ⊤) (s : S)
      → let out = generate services cache config command embedding chunks history key s in
        out.result ≡ ok u
        → (tokens : List String) × (out.yields
            ≡ stream_filtered services.is_filtered_line true tokens)
          × Generated command chunks history s.state tokens
          × (cache.content key out.after.store ≡ some (services.mask (joined out.yields)))
  unfolding generate
  generate-Generated command embedding chunks history key u s h =
      let build = build_rag_messages services cache config command chunks history s.state in
      let tenant : String = tenant_of services cache config command in
      let out : Out = generate services cache config command embedding chunks history key s in
      elim (Result-cases build.0) [
        | inr (x, e) ↦ absurd (ground arith)
        | inl (messages, e) ↦
            let call = services.gateway_stream messages rag_prompt_name tenant build.1 in
            elim (Result-cases call.1) [
              | inr (x, e₂) ↦ absurd (ground arith)
              | inl (v, e₂) ↦
                  let collected : List String =
                    stream_filtered services.is_filtered_line true call.0 in
                  let masked : String = services.mask (joined collected) in
                  let s' : S = record s { state = call.2 } in
                  let kept : Out =
                    keep_answer services cache config command embedding key masked s' in
                  let none_more = keep_answer-yields command embedding key masked s' in
                  let yields : out.yields ≡ collected ++ kept.yields = ground arith in
                  let end : out.after ≡ kept.after = ground arith in
                  let whole : out.yields ≡ collected =
                    yields ∙ ap (λ l. collected ++ l) none_more ∙ append-nil collected in
                  (
                    call.0,
                    whole,
                    record {
                      messages = messages;
                      built_at = build.1;
                      built = ap (λ r. (r, build.1)) e;
                      left = call.2;
                      streamed = ap (λ r. (call.0, r, call.2)) e₂;
                    },
                    ap (λ a. cache.content key a.store) end
                        ∙ keep_answer-kept command embedding key masked u s' (ground arith)
                        ∙ ap (λ y. some (services.mask (joined y))) (sym whole),
                  )
            ]
      ]

  generate-Outcome :
      (command : AskCommand) (embedding : Embedding) (chunks : List SimilaritySearchResult)
      (history : Option (List LlmMessage)) (key : String) (s from : S)
      → NoneSimilar command embedding from.state s.state
      → Outcome command embedding chunks history key from
          (generate services cache config command embedding chunks history key s)
  generate-Outcome command embedding chunks history key s from looked =
      let out : Out = generate services cache config command embedding chunks history key s in
      elim (Result-cases out.result) [
        | inr (x, e) ↦ thrown x e
        | inl (u, e) ↦
            let (tokens, yields, generated, kept) =
              generate-Generated command embedding chunks history key u s e in
            from_the_llm tokens s.state looked generated yields e kept
      ]

  from_similar-Outcome :
      (command : AskCommand) (embedding : Embedding) (chunks : List SimilaritySearchResult)
      (history : Option (List LlmMessage)) (key : String) (s : S)
      → Outcome command embedding chunks history key s
          (from_similar services cache config command embedding chunks history key s)
  unfolding from_similar
  from_similar-Outcome command embedding chunks history key s =
      let tenant : String = tenant_of services cache config command in
      elim (Bool-cases config.semantic_cache_enabled) [
        | inr off ↦
            let end : from_similar services cache config command embedding chunks history key s
                ≡ generate services cache config command embedding chunks history key s =
              ground arith in
            rw end (generate-Outcome command embedding chunks history key s s (inl (off, refl)))
        | inl on ↦
            let look = services.find_similar embedding tenant s.state in
            let s' : S = record s { state = look.1 } in
            elim (Result-cases look.0) [
              | inr (x, e) ↦ thrown x (ground arith)
              | inl (hit, e) ↦ elim (Option-cases hit) [
                | inr (answer, found) ↦
                    let hit_at : look ≡ (ok (some answer), look.1) = ground arith in
                    let left : (from_similar services cache config command embedding chunks history
                          key s).after
                        ≡ s' =
                      ground arith in
                    from_a_similar_question answer on
                      (hit_at ∙ ap (λ a. (ok (some answer), a.state)) (sym left)) (ground arith)
                      (ground arith) (ground arith)
                | inl nothing ↦
                    let end : from_similar services cache config command embedding chunks history
                          key s
                        ≡ generate services cache config command embedding chunks history key s' =
                      ground arith in
                    let none_at : look ≡ (ok none, look.1) = ground arith in
                    rw end (
                      generate-Outcome command embedding chunks history key s' s
                        (inr (on, none_at)))
              ]
            ]
      ]

  pub from_cache-Outcome :
      (command : AskCommand) (embedding : Embedding) (chunks : List SimilaritySearchResult)
      (history : Option (List LlmMessage)) (s : S)
      → Outcome command embedding chunks history
          (build_cache_key services cache config command.question chunks)
          s
          (from_cache services cache config command embedding chunks history s)
  unfolding from_cache
  from_cache-Outcome command embedding chunks history s =
      let key : String = build_cache_key services cache config command.question chunks in
      elim (Result-cases (cache.get key s.store)) [
        | inr (x, e) ↦ thrown x (ground arith)
        | inl (cached, e) ↦ elim (Option-cases (cached_answer services cache config cached)) [
          | inr (answer, a) ↦
              let (whole, filled) = cached_answer-some cached answer a in
              from_the_cache answer (sym (cache.get-ok key cached s.store e) ∙ whole) filled
                (ground arith) (ground arith) (ground arith)
          | inl missing ↦
              let end : from_cache services cache config command embedding chunks history s
                  ≡ from_similar services cache config command embedding chunks history key s =
                ground arith in
              rw end (from_similar-Outcome command embedding chunks history key s)
        ]
      ]
