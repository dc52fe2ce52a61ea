-- ===== src/Qa/Hybrid/Simple.antt =====
-- What a search for a question as a whole returns: the first chunks of both searches and their
-- neighbours.
use mathlib.Core.Path.{subst}
use public_nest_server.Base.{
  ℕ, ◌≡◌, List, [], ◌∷◌, ◌++◌, map, take, keep, String, Bool, true, false, ok, Action, pure, ◌>>=◌,
  arith, inl, inr, Bool-cases, All,
}
use public_nest_server.Llm.Models.{IsUnique}
use public_nest_server.Qa.Chunks.{SimilaritySearchResult}
use public_nest_server.Qa.Fusion.{fuse}
use public_nest_server.Qa.Fusion.Keys.{take_fuse-IsUnique}
use public_nest_server.Qa.Siblings.{chunk_key, is_new_sibling, expand_with_siblings}
use public_nest_server.Qa.Siblings.Laws.{IsNeighbour, expand_with_siblings-IsNeighbour}
use public_nest_server.Qa.Hybrid.{
  HybridSearchCommand, Found, Vector, HybridConfig, SearchServices, together,
  resolve_query_embedding, fused, rank, execute_simple,
}
use public_nest_server.Qa.Hybrid.Calls.{bind-ok, both-ok}

All-keep :
    {A : Type 0} (P : A → Type 0) (p : A → Bool) (xs : List A)
    → ((x : A) → p x ≡ true → P x)
    → All P (keep p xs)
All-keep P p [] f = tt
All-keep P p (x ∷ xs) f = elim (Bool-cases (p x)) [
  | inl here ↦ rw here (f x here, All-keep P p xs f)
  | inr gone ↦ rw gone (All-keep P p xs f)
]

module _ (services : SearchServices) (config : HybridConfig) where
  open services use {State, Failure}

  abbrev pub key_of : SimilaritySearchResult → String
  key_of c = chunk_key services.show c

  -- The chunks of both searches, in the order of the fusion or of the reranker, which is asked in the
  -- state after them.
  pub data IsRankedBy (question : String) (merged : List SimilaritySearchResult) (s : State)
      : List SimilaritySearchResult → Type 0 where
    by_fusion : config.reranker_enabled ≡ false → IsRankedBy question merged s merged
    by_reranker :
        {ranked : List SimilaritySearchResult}
        → config.reranker_enabled ≡ true
        → (services.rerank question merged config.reranker_top_n s).0 ≡ ok ranked
        → IsRankedBy question merged s ranked

  -- The state after the embedding of the question, and that after the dense search.
  abbrev after_embedding : HybridSearchCommand → State → State
  after_embedding command s =
      (resolve_query_embedding services config command.question command.use_hyde s).1

  abbrev after_dense : HybridSearchCommand → Vector services → State → State
  after_dense command embedding s =
      (services.similarity_search embedding config.candidate_k (after_embedding command s)).1

  abbrev after_lexical : HybridSearchCommand → Vector services → State → State
  after_lexical command embedding s =
      (services.lexical_search command.question config.candidate_k
        (after_dense command embedding s)).1

  pub record IsExpanded (command : HybridSearchCommand) (r : Found services) (s : State)
      : Type 0 where
    pub dense : List SimilaritySearchResult
    pub lexical : List SimilaritySearchResult
    pub ranked : List SimilaritySearchResult
    pub siblings : List SimilaritySearchResult
    -- the embedding of the question, which the dense search was given
    pub embedded :
        (resolve_query_embedding services config command.question command.use_hyde s).0
        ≡ ok r.query_embedding
    pub dense_found :
        (services.similarity_search r.query_embedding config.candidate_k
          (after_embedding command s)).0
        ≡ ok dense
    pub lexical_found :
        (services.lexical_search command.question config.candidate_k
          (after_dense command r.query_embedding s)).0
        ≡ ok lexical
    pub by :
        IsRankedBy command.question
          (fused services config (dense ∷ lexical ∷ []))
          (after_lexical command r.query_embedding s)
          ranked
    pub whole : r.chunks ≡ take command.top_k ranked ++ siblings
    pub near : All (IsNeighbour services.show (take command.top_k ranked)) siblings
    pub once : config.reranker_enabled ≡ false → IsUnique (map key_of (take command.top_k ranked))

  rank-IsRankedBy :
      (question : String) (merged ranked : List SimilaritySearchResult) (s : State)
      → (rank services config question merged s).0 ≡ ok ranked
      → IsRankedBy question merged s ranked
  unfolding rank
  rank-IsRankedBy question merged ranked s h = elim (Bool-cases config.reranker_enabled) [
    | inl on ↦ by_reranker on (ground arith)
    | inr off ↦
        let same : merged ≡ ranked = ground arith in
        subst (IsRankedBy question merged s) same (by_fusion off)
  ]

  IsRankedBy-IsUnique :
      (question : String) (n : ℕ) (lists : List (List SimilaritySearchResult))
      (ranked : List SimilaritySearchResult) (s : State)
      → IsRankedBy question (fused services config lists) s ranked
      → config.reranker_enabled ≡ false
      → IsUnique (map key_of (take n ranked))
  unfolding fuse
  IsRankedBy-IsUnique question n lists _ s (by_fusion off) h =
      (take_fuse-IsUnique services.show services.reciprocal config.rrf_k n lists).0
  IsRankedBy-IsUnique question n lists ranked s (by_reranker on found) h = absurd (ground arith)

  abbrev pub result : Vector services → List SimilaritySearchResult → Found services
  result query_embedding chunks = record { query_embedding = query_embedding; chunks = chunks }

  abbrev returned :
      Vector services → List SimilaritySearchResult → Action Failure State (Found services)
  returned query_embedding chunks = pure (result query_embedding chunks)

  -- The steps of `executeSimple` after its embedding.
  abbrev expanding :
      HybridSearchCommand
      → Vector services
      → List SimilaritySearchResult
      → Action Failure State (Found services)
  expanding command query_embedding ranked =
      expand_with_siblings services.show services.find_by_parent_chunk_ids
        (take command.top_k ranked)
      >>= returned query_embedding

  abbrev ranking :
      HybridSearchCommand
      → Vector services
      → List SimilaritySearchResult × List SimilaritySearchResult
      → Action Failure State (Found services)
  ranking command query_embedding (dense, lexical) =
      rank services config command.question (fused services config (dense ∷ lexical ∷ []))
      >>= expanding command query_embedding

  abbrev searching : HybridSearchCommand → Vector services → Action Failure State (Found services)
  searching command query_embedding =
      together (services.similarity_search query_embedding config.candidate_k)
        (services.lexical_search command.question config.candidate_k)
      >>= ranking command query_embedding

  pub execute_simple-IsExpanded :
      (command : HybridSearchCommand) (r : Found services) (s : State)
      → (execute_simple services config command s).0 ≡ ok r
      → IsExpanded command r s
  unfolding execute_simple
  execute_simple-IsExpanded command r s h =
      let resolve = resolve_query_embedding services config command.question command.use_hyde in
      let (embedding, resolved, h₁) = bind-ok resolve (searching command) s r h in
      let dense_search = services.similarity_search embedding config.candidate_k in
      let lexical_search = services.lexical_search command.question config.candidate_k in
      let s₁ = (resolve s).1 in
      let ((dense, lexical), found, h₂) =
        bind-ok (together dense_search lexical_search) (ranking command embedding) s₁ r h₁ in
      let s₂ = (dense_search s₁).1 in
      let s₃ = (lexical_search s₂).1 in
      let (dense_found, lexical_found) =
        both-ok (dense_search s₁).0 (lexical_search s₂).0 dense lexical found in
      let merged = fused services config (dense ∷ lexical ∷ []) in
      let (ranked, ranks, h₃) =
        bind-ok (rank services config command.question merged) (expanding command embedding) s₃ r
          h₂ in
      let s₄ = (rank services config command.question merged s₃).1 in
      let hits = take command.top_k ranked in
      let expand = expand_with_siblings services.show services.find_by_parent_chunk_ids hits in
      let (enriched, expanded, h₄) = bind-ok expand (returned embedding) s₄ r h₃ in
      let (siblings, asked, whole, unasked, near) =
        expand_with_siblings-IsNeighbour services.show services.find_by_parent_chunk_ids hits
          enriched s₄ expanded in
      let by = rank-IsRankedBy command.question merged ranked s₃ ranks in
      let same : result embedding enriched ≡ r = ground arith in
      subst (λ x. IsExpanded command x s) same
        (record {
          dense = dense;
          lexical = lexical;
          ranked = ranked;
          siblings = keep (is_new_sibling services.show hits) siblings;
          embedded = resolved;
          dense_found = dense_found;
          lexical_found = lexical_found;
          by = by;
          whole = whole;
          near =
              All-keep (IsNeighbour services.show hits) (is_new_sibling services.show hits) siblings
                (λ c. (near c).0);
          once = IsRankedBy-IsUnique command.question command.top_k _ ranked s₃ by;
        })
