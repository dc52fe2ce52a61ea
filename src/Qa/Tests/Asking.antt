-- ===== src/Qa/Tests/Asking.antt =====
-- The simple path of a question on small services, and the filter of an answer.
use public_nest_server.Base.{
  codes, ◌==◌, leb, ℕ, ◌+◌, ◌≡◌, refl, none, some, Option, List, [], ◌∷◌, String, Bool, true, false,
  ok, Result, text_eq, is_blank, if◌then◌else◌, ⊤, All, eq_iff, arith,
}
use public_nest_server.Qa.Agentic.{joined}
use public_nest_server.Qa.Chunks.{SimilaritySearchResult}
use public_nest_server.Qa.Filtering.{split_lines, filter_tokens, stream_filtered}
use public_nest_server.Qa.Filtering.Laws.{filter_text, IsPassed, stream_filtered-joined}
use public_nest_server.Qa.Ask.{
  AskCommand, LlmCache, AskServices, AskConfig, AskState, Answering, build_cache_key, generate,
  from_cache, execute_ask, build_rag_messages, keep_answer,
}
use public_nest_server.Qa.Ask.Outcomes.{IsAsked, execute_ask-IsAsked, from_cache_replays}

abbrev is_step : String → Bool
is_step line = text_eq line "Step 1"

abbrev tokens : List String
tokens = "Ste" ∷ "p 1\n\n" ∷ "\nHel" ∷ "lo" ∷ []

passed : stream_filtered is_step true tokens ≡ "\n" ∷ "Hello" ∷ []
unfolding filter_tokens is_blank
passed = refl

stream_filtered-joined_example :
    (stream_filtered is_step true tokens ≡ filter_text is_step true (joined tokens) 0)
    × (stream_filtered is_step true tokens ≡ stream_filtered is_step true (joined tokens ∷ []))
    × All (IsPassed is_step (split_lines (joined tokens)).1) (stream_filtered is_step true tokens)
stream_filtered-joined_example = stream_filtered-joined is_step true tokens

-- A cache as a list of keys and values.
abbrev Kept : Type 0
Kept = List (String × String)

abbrev look : String → Kept → Option String
look k [] = none
look k ((j, v) ∷ kept) = if text_eq k j then some v else look k kept

ok-option : (a b : Option String) → ◌≡◌ {A = Result String (Option String)} (ok a) (ok b) → b ≡ a
ok-option a b h = cc

abbrev cache : LlmCache String
cache = record {
  Store = Kept;
  content = look;
  get = λ k s. ok (look k s);
  set_with_ttl = λ k v ttl s. (ok tt, (k, v) ∷ s);
  get-ok = λ k r s h. ok-option (look k s) r h;
  set-ok = λ k j v ttl u s h. refl;
}

abbrev found : SimilaritySearchResult
found = record {
  text = "text";
  score = 1;
  metadata = record {
    document_id = "d";
    file_name = "f";
    chunk_index = 0;
    parent_text = none;
    parent_chunk_id = none;
  };
}

abbrev other : SimilaritySearchResult
other = record found { metadata = record found.metadata { document_id = "c" } }

-- The order of texts by their codes.
abbrev le_codes : List ℕ → List ℕ → Bool
le_codes [] t = true
le_codes (c ∷ s) [] = false
le_codes (c ∷ s) (d ∷ t) = if c == d then le_codes s t else leb c d

abbrev put_text : String → List String → List String
put_text s [] = s ∷ []
put_text s (t ∷ texts) =
    if le_codes (codes s) (codes t) then s ∷ t ∷ texts else t ∷ put_text s texts

abbrev sort_texts : List String → List String
sort_texts [] = []
sort_texts (s ∷ texts) = put_text s (sort_texts texts)

-- The state is the number of calls of the LLM.
abbrev services : AskServices
services = record {
  State = ℕ;
  Failure = String;
  Embedding = ⊤;
  find_history = λ id s. (ok none, s);
  rewriter_stream = λ messages s. (ok [], s);
  hybrid_search = λ query top_k use_hyde s. (ok (tt, found ∷ []), s);
  find_similar = λ e tenant s. (ok none, s);
  store_similar = λ e question answer ttl tenant s. (ok tt, s);
  active_prompt = λ name user s. (ok (λ context date. context), s);
  gateway_stream = λ messages feature tenant s. ("my ke" ∷ "y" ∷ [], ok tt, s + 1);
  current_date = λ s. "";
  to_lower = λ t. t;
  trim = λ t. t;
  is_injection = λ line. false;
  clean_lines = λ t. t ∷ [];
  is_filtered_line = λ line. false;
  mask = λ t. "***";
  show = λ n. "1";
  sources_text = λ chunks. "__SOURCES:d";
  sort = sort_texts;
  sha256 = λ t. t;
}

abbrev config : AskConfig
config = record { cache_ttl = 60; semantic_cache_enabled = true; semantic_cache_ttl = 60 }

abbrev ask_as : String → AskCommand
ask_as user = record {
  question = "q";
  top_k = 1;
  tenant = none;
  use_hyde = false;
  user_id = some user;
  conversation_history = none;
  session_id = none;
}

abbrev start : AskState services cache config
start = record { state = 0; store = [] }

asked : (execute_ask services cache config (ask_as "a") start).result ≡ ok tt
unfolding execute_ask filter_tokens joined
asked = refl

execute_ask-IsAsked_example :
    IsAsked services cache config
      (ask_as "a")
      start
      (execute_ask services cache config (ask_as "a") start)
execute_ask-IsAsked_example = execute_ask-IsAsked services cache config (ask_as "a") tt start asked

abbrev first_answer : Answering services cache config
first_answer =
    generate services cache config (ask_as "a") tt (found ∷ other ∷ []) none
      (build_cache_key services cache config "q" (found ∷ other ∷ [])) start

first_done : first_answer.result ≡ ok tt
unfolding generate keep_answer build_rag_messages filter_tokens joined
first_done = refl

abbrev later : AskState services cache config
later = record { state = 7; store = first_answer.after.store }

kept :
    cache.get (build_cache_key services cache config "q" (found ∷ other ∷ [])) later.store
    ≡ ok (some "***")
unfolding generate keep_answer build_rag_messages filter_tokens joined build_cache_key
kept = refl

from_cache_replays_example :
    from_cache services cache config (ask_as "b") tt (other ∷ found ∷ []) (some []) later
    ≡ record { yields = "***" ∷ []; result = ok tt; after = later }
from_cache_replays_example =
    from_cache_replays services cache config (ask_as "a") (ask_as "b") tt tt (found ∷ other ∷ [])
      (other ∷ found ∷ []) none (some []) tt (some "***") start later refl refl first_done refl kept
      (λ e. ground (arith, eq_iff "***" ""))
