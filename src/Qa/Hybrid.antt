-- ===== src/Qa/Hybrid.antt =====
-- HybridSearchUseCase (application/hybrid-search.use-case.ts), whose expandWithSiblings is in
-- Qa.Siblings. The embeddings of texts, both searches, the reranker, the vector store and the
-- LLM are parameters. The calls of a `Promise.all` are made one after the other;
-- all of them are made, and the first that throws is what the whole throws.
pub mod Calls
pub mod Simple
pub mod Laws
use public_nest_server.Base.{
  ℕ, Option, none, some, List, [], ◌∷◌, map, String, Bool, true, false, not, ◌&&◌, ◌||◌, take,
  text_eq, if◌then◌else◌, Result, ok, err, Action, pure, throw, ◌>>=◌,
}
use public_nest_server.Llm.Fallback.{LlmMessage}
use public_nest_server.Qa.Chunks.{SimilaritySearchResult}
use public_nest_server.Qa.Decomposer.{
  should_decompose, decompose, should_apply, generate_hypothetical,
}
use public_nest_server.Qa.Embeddings.{Numbers, Embedding, with_hyde}
use public_nest_server.Qa.Fusion.{fuse}
use public_nest_server.Qa.Siblings.{chunk_key, expand_with_siblings}

pub record HybridSearchCommand : Type 0 where
  pub question : String
  pub top_k : ℕ
  pub use_hyde : Bool

-- the command of a part of the question
abbrev pub of_sub_query : HybridSearchCommand → String → HybridSearchCommand
of_sub_query command sq = record command { question = sq }

pub record HybridSearchResult (Vector : Type 0) : Type 0 where
  pub query_embedding : Vector
  pub chunks : List SimilaritySearchResult

pub record HybridConfig : Type 0 where
  pub candidate_k : ℕ
  pub reranker_top_n : ℕ
  pub reranker_enabled : Bool
  pub rrf_k : ℕ

abbrev pub default_candidate_k : ℕ
default_candidate_k = 40

abbrev pub default_reranker_top_n : ℕ
default_reranker_top_n = 12

abbrev pub default_rrf_k : ℕ
default_rrf_k = 60

-- A setting that is a number, which `number_of` reads, or a default.
abbrev pub number_or : (String → Option ℕ) → ℕ → Option String → ℕ
number_or number_of default none = default
number_or number_of default (some raw) = elim (number_of raw) [ none ↦ default | some n ↦ n ]

-- The reranker is off only where its setting is the text `false`.
abbrev pub is_enabled : Option String → Bool
is_enabled none = true
is_enabled (some raw) = not (text_eq raw "false")

-- the settings that the constructor reads
unfoldable pub config_of : (String → Option ℕ) → (String → Option String) → HybridConfig
config_of number_of get = record {
  candidate_k = number_or number_of default_candidate_k (get "HYBRID_CANDIDATE_K");
  reranker_top_n = number_or number_of default_reranker_top_n (get "RERANKER_TOP_N");
  reranker_enabled = is_enabled (get "RERANKER_ENABLED");
  rrf_k = number_or number_of default_rrf_k (get "RRF_K");
}

-- What the use case calls, and the texts and numbers that it computes with.
pub record SearchServices : Type 1 where
  pub State : Type 0
  pub Failure : Type 0
  pub numbers : Numbers
  -- the embedding of one text
  pub embed : String → Action Failure State (Embedding numbers)
  pub similarity_search : Embedding numbers → ℕ → Action Failure State (List SimilaritySearchResult)
  pub lexical_search : String → ℕ → Action Failure State (List SimilaritySearchResult)
  pub rerank :
      String → List SimilaritySearchResult → ℕ → Action Failure State (List SimilaritySearchResult)
  pub find_by_parent_chunk_ids : List String → Action Failure State (List SimilaritySearchResult)
  -- the LLM of the decomposer and of the hypothetical answers, read to its end
  pub llm_stream : List LlmMessage → Action Failure State (List String)
  -- what reading a property of `undefined` throws
  pub type_error : Failure
  pub to_lower : String → String
  pub trim : String → String
  pub without_dash : String → String
  pub show : ℕ → String
  -- 1 / n, in the unit of the scores
  pub reciprocal : ℕ → ℕ

abbrev pub Vector : SearchServices → Type 0
Vector services = Embedding services.numbers

-- what a search returns
abbrev pub Found : SearchServices → Type 0
Found services = HybridSearchResult (Vector services)

-- `Promise.all` of two calls, and of a call for each element of a list
abbrev pub both : {E A B : Type 0} → Result E A → Result E B → Result E (A × B)
both (ok a) (ok b) = ok (a, b)
both (ok a) (err e) = err e
both (err e) r = err e

module _ {E S : Type 0} where
  abbrev pub together : {A B : Type 0} → Action E S A → Action E S B → Action E S (A × B)
  together m n s = let (r, s₁) = m s in let (q, s₂) = n s₁ in (both r q, s₂)

  unfoldable pub all_of : {A B : Type 0} → (A → Action E S B) → List A → Action E S (List B)
  all_of f [] = pure []
  all_of f (x ∷ xs) = together (f x) (all_of f xs) >>= λ (y, ys). pure (y ∷ ys)

module _ (services : SearchServices) (config : HybridConfig) where
  open services use {State, Failure}

  -- the mean with the embedding of a hypothetical answer, if it is similar
  abbrev pub with_hypothetical : String → Vector services → Action Failure State (Vector services)
  unfolding generate_hypothetical with_hyde
  with_hypothetical question original = do
    hypothetical ← generate_hypothetical services.llm_stream question
    hyde ← services.embed hypothetical
    pure (with_hyde services.numbers original hyde)

  unfoldable pub resolve_query_embedding : String → Bool → Action Failure State (Vector services)
  unfolding should_apply
  resolve_query_embedding question use_hyde = services.embed question >>= λ original.
      if not use_hyde || not (should_apply services.trim question)
      then pure original
      else with_hypothetical question original

  -- `rrfFusion.fuse`
  abbrev pub fused : List (List SimilaritySearchResult) → List SimilaritySearchResult
  unfolding fuse
  fused lists = fuse (chunk_key services.show) services.reciprocal config.rrf_k lists

  -- `ranked`
  unfoldable pub rank :
      String → List SimilaritySearchResult → Action Failure State (List SimilaritySearchResult)
  rank question merged =
      if config.reranker_enabled
      then services.rerank question merged config.reranker_top_n
      else pure merged

  unfoldable pub execute_simple : HybridSearchCommand → Action Failure State (Found services)
  unfolding expand_with_siblings
  execute_simple command = do
    query_embedding ← resolve_query_embedding command.question command.use_hyde
    (dense_results, lexical_results) ←
        together (services.similarity_search query_embedding config.candidate_k)
          (services.lexical_search command.question config.candidate_k)
    ranked ← rank command.question (fused (dense_results ∷ lexical_results ∷ []))
    enriched ←
        expand_with_siblings services.show services.find_by_parent_chunk_ids
          (take command.top_k ranked)
    pure (record { query_embedding = query_embedding; chunks = enriched })

  -- from `subResults` to the end
  unfoldable pub merged_results : ℕ → List (Found services) → Action Failure State (Found services)
  merged_results top_k [] = throw services.type_error
  merged_results top_k (first ∷ results) = pure (record {
    query_embedding = first.query_embedding;
    chunks = take top_k (fused (first.chunks ∷ map (λ r. r.chunks) results));
  })

  unfoldable pub execute_decomposed : HybridSearchCommand → Action Failure State (Found services)
  unfolding decompose all_of
  execute_decomposed command = do
    queries ← decompose services.trim services.without_dash services.llm_stream command.question
    sub_results ← all_of (λ sq. execute_simple (of_sub_query command sq)) queries
    merged_results command.top_k sub_results

  unfoldable pub execute_hybrid : HybridSearchCommand → Action Failure State (Found services)
  unfolding should_decompose
  execute_hybrid command =
      if should_decompose services.to_lower command.question
      then execute_decomposed command
      else execute_simple command
