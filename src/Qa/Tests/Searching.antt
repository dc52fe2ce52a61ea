-- ===== src/Qa/Tests/Searching.antt =====
-- A question of two parts, in a small library of documents.
use public_nest_server.Base.{
  ℕ, ◌+◌, ◌*◌, ◌/◌, ◌==◌, length, codes, ◌≡◌, refl, Option, none, some, List, [], ◌∷◌, String, true,
  false, ok, ◌⊎◌, leb, text_eq, if◌then◌else◌,
}
use public_nest_server.Qa.Chunks.{SimilaritySearchResult}
use public_nest_server.Qa.Embeddings.{Numbers, with_hyde, cosine_similarity, sums, mean}
use public_nest_server.Qa.Hybrid.{
  HybridSearchCommand, HybridSearchResult, HybridConfig, SearchServices, config_of, execute_hybrid,
  execute_decomposed, execute_simple, resolve_query_embedding, rank, merged_results, all_of,
}
use public_nest_server.Qa.Agentic.{joined}
use public_nest_server.Qa.Decomposer.{should_decompose, decompose, sub_queries}
use public_nest_server.Qa.Filtering.{split_lines}
use public_nest_server.Qa.Rewriter.{includes}
use public_nest_server.Qa.Fusion.{fuse, ranked, sorted, place, add_lists, add_list, add_score}
use public_nest_server.Qa.Siblings.{
  expand_with_siblings, is_new_sibling, is_near_hit, hit_indices, parent_ids, parent_of, chunk_key,
}
use public_nest_server.Qa.Hybrid.Simple.{IsExpanded}
use public_nest_server.Qa.Hybrid.Laws.{IsMerged, execute_hybrid-IsSearched}

abbrev settings : String → Option String
settings name = if text_eq name "RERANKER_ENABLED" then some "false" else none

abbrev config : HybridConfig
config = record { candidate_k = 40; reranker_top_n = 12; reranker_enabled = false; rrf_k = 60 }

configured : config_of (λ raw. none) settings ≡ config
unfolding config_of
configured = refl

abbrev chunk : ℕ → ℕ → SimilaritySearchResult
chunk score i = record {
  text = "text";
  score = score;
  metadata = record {
    document_id = "d";
    file_name = "f";
    chunk_index = i;
    parent_text = none;
    parent_chunk_id = some "p";
  };
}

abbrev without_first : String → String
without_first String.[] = ""
without_first (String.◌∷◌ c s) = s

-- Whole numbers, where the square root of n is n.
abbrev whole_numbers : Numbers
whole_numbers = record {
  Number = ℕ;
  zero = 0;
  nan = 0;
  plus = λ m n. m + n;
  times = λ m n. m * n;
  over = λ m n. m / n;
  sqrt = λ n. n;
  two = 2;
  is_zero = λ n. n == 0;
  is_above_threshold = λ n. leb 1 n;
}

mean_of : with_hyde whole_numbers (1 ∷ 0 ∷ []) (1 ∷ []) ≡ 1 ∷ 0 ∷ []
unfolding with_hyde cosine_similarity sums mean
mean_of = refl

abbrev services : SearchServices
services = record {
  State = ℕ;
  Failure = String;
  numbers = whole_numbers;
  embed = λ text s. (ok (length (codes text) ∷ []), s);
  similarity_search = λ e k s. (ok (chunk 1 0 ∷ []), s);
  lexical_search = λ text k s. (ok (chunk 2 0 ∷ []), s);
  rerank = λ text chunks n s. (ok [], s);
  find_by_parent_chunk_ids = λ ids s. (ok (chunk 0 0 ∷ chunk 0 1 ∷ chunk 0 2 ∷ []), s);
  llm_stream = λ messages s. (ok ("-a\n" ∷ "-b" ∷ []), s);
  type_error = "TypeError";
  to_lower = λ text. text;
  trim = λ text. text;
  without_dash = without_first;
  show = λ n. if leb 2 n then "2" else (if leb 1 n then "1" else "0");
  reciprocal = λ n. 10000 / n;
}

abbrev command : HybridSearchCommand
command = record { question = "a? b?"; top_k = 5; use_hyde = false }

-- The neighbour of the chunk that was found for both parts comes after it.
abbrev both_parts : HybridSearchResult (List ℕ)
both_parts = record { query_embedding = 1 ∷ []; chunks = chunk 326 0 ∷ chunk 322 1 ∷ [] }

searched : (execute_hybrid services config command 0).0 ≡ ok both_parts
unfolding execute_hybrid execute_decomposed execute_simple resolve_query_embedding rank
    merged_results all_of should_decompose includes decompose sub_queries split_lines joined fuse
    ranked sorted place add_lists add_list add_score expand_with_siblings is_new_sibling is_near_hit
    hit_indices parent_ids parent_of chunk_key
searched = refl

execute_hybrid-IsSearched_example :
    ((should_decompose (λ text. text) "a? b?" ≡ false)
      × IsExpanded services config command both_parts 0)
    ⊎ ((should_decompose (λ text. text) "a? b?" ≡ true)
        × IsMerged services config command both_parts 0)
execute_hybrid-IsSearched_example =
    execute_hybrid-IsSearched services config command both_parts 0 searched
