-- ===== src/Qa/Hybrid/Laws.antt =====
-- What a search returns: the best chunks of both searches and their neighbours, or the best of those
-- of the parts of the question.
use mathlib.Core.Path.{subst}
use public_nest_server.Base.{
  keep, sym, not, text_eq, ℕ, ◌≤◌, ◌≡◌, refl, List, [], ◌∷◌, map, take, length, length-take-le,
  String, true, false, Result-cases, ok, Action, ◌>>=◌, arith, inl, inr, ◌⊎◌, Bool-cases,
}
use public_nest_server.Llm.Fallback.{LlmMessage}
use public_nest_server.Llm.Models.{is_in, IsUnique}
use public_nest_server.Qa.Agentic.{joined}
use public_nest_server.Qa.Decomposer.{
  should_decompose, lines_of, decompose_prompt, or_question, sub_queries, decompose,
}
use public_nest_server.Qa.Fusion.{fuse}
use public_nest_server.Qa.Fusion.Scores.{occurs}
use public_nest_server.Qa.Fusion.Keys.{take_fuse-IsUnique}
use public_nest_server.Qa.Hybrid.{
  HybridSearchCommand, Found, HybridConfig, SearchServices, all_of, fused, execute_simple,
  of_sub_query, merged_results, execute_decomposed, execute_hybrid,
}
use public_nest_server.Qa.Hybrid.Simple.{key_of, IsExpanded, result, execute_simple-IsExpanded}
use public_nest_server.Qa.Hybrid.Calls.{Along, bind-ok, all_of-Along}

or_question_bounds :
    (question : String) (queries : List String)
    → length queries ≤ 3
    → (1 ≤ length (or_question question queries)) × (length (or_question question queries) ≤ 3)
or_question_bounds question [] h = (omega arith, omega arith)
or_question_bounds question (q ∷ queries) h = (omega arith, h)

module _ {E S : Type 0} (trim without_dash : String → String)
    (stream : List LlmMessage → Action E S (List String)) where
  sub_queries_bounds : (answer : String) → length (sub_queries trim without_dash stream answer) ≤ 3
  unfolding sub_queries
  sub_queries_bounds answer = length-take-le 3 _

  -- The parts of a question are the first three lines of the LLM's answer that are not empty, without
  -- the dashes before them, or the question itself where there is none.
  abbrev pub ArePartsOf : String → List String → S → Type 0
  unfolding sub_queries
  ArePartsOf question queries s =
      (tokens : List String) × ((stream
          (record { role = "user"; content = decompose_prompt question } ∷ []) s).0
        ≡ ok tokens)
      × (queries
          ≡ or_question question (
              take 3 (
                keep (λ line. not (text_eq line ""))
                  (map (λ line. trim (without_dash line)) (lines_of (trim (joined tokens)))))))

  decompose_bounds :
      (question : String) (queries : List String) (s : S)
      → (decompose trim without_dash stream question s).0 ≡ ok queries
      → (1 ≤ length queries) × (length queries ≤ 3) × ArePartsOf question queries s
  unfolding decompose sub_queries
  decompose_bounds question queries s h =
      let prompt : List LlmMessage =
        record { role = "user"; content = decompose_prompt question } ∷ [] in
      elim (Result-cases (stream prompt s).0) [
        | inl (tokens, read) ↦
            let kept = sub_queries trim without_dash stream (joined tokens) in
            let same : or_question question kept ≡ queries = ground arith in
            let (few, many) =
              subst (λ l. (1 ≤ length l) × (length l ≤ 3)) same
                (or_question_bounds question kept (sub_queries_bounds (joined tokens))) in
            (few, many, (tokens, read, sym same))
        | inr (e, thrown) ↦ absurd (ground arith)
      ]

module _ (services : SearchServices) (config : HybridConfig) where
  open services use {State, Failure}

  -- The search for a part of the question.
  abbrev search_part : HybridSearchCommand → String → Action Failure State (Found services)
  search_part command sq = execute_simple services config (of_sub_query command sq)

  abbrev parts_of : HybridSearchCommand → Action Failure State (List String)
  parts_of command =
      decompose services.trim services.without_dash services.llm_stream command.question

  pub record IsMerged (command : HybridSearchCommand) (r : Found services) (s : State)
      : Type 0 where
    pub queries : List String
    pub results : List (Found services)
    pub bounds : (1 ≤ length queries) × (length queries ≤ 3)
    -- what the LLM has answered to the question
    pub parts :
        ArePartsOf services.trim services.without_dash services.llm_stream command.question queries
          s
    -- what the searches for the parts have found, one after the other
    pub each :
        Along
          (search_part command)
          (λ sq. IsExpanded services config (of_sub_query command sq))
          queries
          results
          (parts_of command s).1
    pub first : Found services
    pub others : List (Found services)
    pub split : results ≡ first ∷ others
    pub embedding : r.query_embedding ≡ first.query_embedding
    pub chunks :
        r.chunks ≡ take command.top_k (fused services config (map (λ sub. sub.chunks) results))
    pub short : length r.chunks ≤ command.top_k
    pub once : IsUnique (map (key_of services config) r.chunks)
    pub found :
        (m : String)
        → is_in m (map (key_of services config) r.chunks) ≡ true
        → occurs
            (key_of services config)
            services.reciprocal
            config.rrf_k
            m
            (map (λ sub. sub.chunks) results)
          ≡ true

  abbrev merged_of : ℕ → Found services → List (Found services) → Found services
  unfolding fuse
  merged_of top_k first others =
      result services config first.query_embedding
        (take top_k (fused services config (first.chunks ∷ map (λ r. r.chunks) others)))

  abbrev of_parts : HybridSearchCommand → List String → Action Failure State (Found services)
  of_parts command queries =
      all_of (search_part command) queries >>= merged_results services config command.top_k

  merged_results-IsMerged :
      (command : HybridSearchCommand) (queries : List String) (results : List (Found services))
      (r : Found services) (s t : State)
      → (1 ≤ length queries) × (length queries ≤ 3)
      → ArePartsOf services.trim services.without_dash services.llm_stream command.question queries
          s
      → Along
          (search_part command)
          (λ sq. IsExpanded services config (of_sub_query command sq))
          queries
          results
          (parts_of command s).1
      → (merged_results services config command.top_k results t).0 ≡ ok r
      → IsMerged command r s
  unfolding merged_results fuse
  merged_results-IsMerged command queries [] r s t bounds parts each h = absurd (ground arith)
  merged_results-IsMerged command queries (first ∷ others) r s t bounds parts each h =
      let lists = first.chunks ∷ map (λ r. r.chunks) others in
      let (once, found) =
        take_fuse-IsUnique services.show services.reciprocal config.rrf_k command.top_k lists in
      let same : merged_of command.top_k first others ≡ r = ground arith in
      subst (λ x. IsMerged command x s) same
        (record {
          queries = queries;
          results = first ∷ others;
          bounds = bounds;
          parts = parts;
          each = each;
          first = first;
          others = others;
          split = refl;
          embedding = refl;
          chunks = refl;
          short = length-take-le command.top_k _;
          once = once;
          found = found;
        })

  execute_decomposed-IsMerged :
      (command : HybridSearchCommand) (r : Found services) (s : State)
      → (execute_decomposed services config command s).0 ≡ ok r
      → IsMerged command r s
  unfolding execute_decomposed
  execute_decomposed-IsMerged command r s h =
      let (queries, decomposed, h₁) = bind-ok (parts_of command) (of_parts command) s r h in
      let s₁ = (parts_of command s).1 in
      let (results, made, h₂) =
        bind-ok (all_of (search_part command) queries)
          (merged_results services config command.top_k) s₁ r h₁ in
      let each =
        all_of-Along (search_part command)
          (λ sq. IsExpanded services config (of_sub_query command sq)) queries results s₁
          (λ sq. execute_simple-IsExpanded services config (of_sub_query command sq)) made in
      let (few, many, of_answer) =
        decompose_bounds services.trim services.without_dash services.llm_stream command.question
          queries s decomposed in
      merged_results-IsMerged command queries results r s _ (few, many) of_answer each h₂

  -- A search that does not throw returns, of a question that is not taken apart, the first chunks
  -- of what both searches have found for it and its embedding, fused or ranked anew, none of them
  -- twice if they are fused, and after them only neighbours of them; and of a question that is
  -- taken apart, into the first three lines of the LLM's answer or itself, the best chunks of the
  -- searches for its parts, fused, at most as many as were asked for, none twice, each found for
  -- one of the parts, together with the embedding of the first part.
  pub execute_hybrid-IsSearched :
      (command : HybridSearchCommand) (r : Found services) (s : State)
      → (execute_hybrid services config command s).0 ≡ ok r
      → ((should_decompose services.to_lower command.question ≡ false)
          × IsExpanded services config command r s)
        ⊎ ((should_decompose services.to_lower command.question ≡ true) × IsMerged command r s)
  unfolding execute_hybrid
  execute_hybrid-IsSearched command r s h =
      elim (Bool-cases (should_decompose services.to_lower command.question)) [
        | inl parts ↦ inr (parts, execute_decomposed-IsMerged command r s (ground arith))
        | inr whole ↦
            inl (whole, execute_simple-IsExpanded services config command r s (ground arith))
      ]
