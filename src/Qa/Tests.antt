-- ===== src/Qa/Tests.antt =====
-- The agentic loop and the fusion of ranked lists on small services.
mod Asking
mod Searching
use public_nest_server.Base.{
  ℕ, ◌+◌, ◌/◌, ◌≡◌, ◌≢◌, refl, none, some, List, [], ◌∷◌, map, String, false, ok, err, is_blank,
  arith, if◌then◌else◌, leb, Result, ⊤,
}
use public_nest_server.Llm.Models.{is_in, IsUnique}
use public_nest_server.Qa.Budget.{IterationBudget, is_exhausted, Critique, is_satisfied, refine}
use public_nest_server.Qa.Chunks.{SimilaritySearchResult, parent_key, dedupe, context_of}
use public_nest_server.Qa.Chunks.Context.{dedupe-IsOnePerParent, context_of_unfiltered}
use public_nest_server.Qa.Fusion.{add_score, add_list, add_lists, place, sorted, ranked}
use public_nest_server.Qa.Fusion.Sorting.{IsRanked}
use public_nest_server.Qa.Fusion.Scores.{Holds, occurs, contributions, ranked-Holds}
use public_nest_server.Qa.Agentic.{
  AgenticAskCommand, Services, out_of_fuel, execute_agentic, rounds_from, round, awaiting, judge,
  preceded, ended, answer, joined, build_messages,
}
use public_nest_server.Qa.Agentic.Answers.{IsAnswer, execute_agentic_ends, execute_agentic-IsAnswer}

abbrev two_rounds : IterationBudget
two_rounds = record { max_iterations = 2; token_budget = 1000; timeout_ms = 1000 }

abbrev chunk : String → ℕ → SimilaritySearchResult
chunk text i = record {
  text = text;
  score = 1;
  metadata = record {
    document_id = "d";
    file_name = "f";
    chunk_index = i;
    parent_text = some "parent";
    parent_chunk_id = some "p";
  };
}

abbrev found : List SimilaritySearchResult
found = chunk "a" 0 ∷ chunk "b" 1 ∷ []

abbrev show : ℕ → String
show n = if leb 1 n then "1" else "0"

-- A vector store that has three children of the parent.
abbrev children : List String → ℕ → Result ⊤ (List SimilaritySearchResult) × ℕ
children ids s = (ok (chunk "a" 0 ∷ chunk "b" 1 ∷ chunk "c" 2 ∷ []), s + 1)

abbrev expanded : List SimilaritySearchResult
expanded = chunk "a" 0 ∷ chunk "b" 1 ∷ []

abbrev wanting : Critique
wanting = record { answered = false; missing = []; next_query = ""; confidence = 500000 }

-- The state is the number of answers.
abbrev services : Services
services = record {
  State = ℕ;
  Failure = String;
  hybrid_search = λ query top_k use_hyde s. (ok found, s);
  active_prompt = λ name user s. (ok (λ context date. context), s);
  stream = λ messages feature tenant s. (ok ("answer" ∷ show s ∷ []), s + 1);
  generate_critique = λ question raw chunks tenant s. (ok wanting, s);
  now = λ s. 0;
  current_date = λ s. "";
  is_injection = λ line. false;
  clean_lines = λ text. text ∷ [];
  mask = λ text. text;
  show = show;
  sources_text = λ chunks. "__SOURCES";
}

abbrev ask : AgenticAskCommand
ask = record {
  question = "q";
  top_k = 5;
  tenant = none;
  budget = two_rounds;
  confidence_threshold = 600000;
  user_id = none;
  conversation_history = none;
  use_hyde = false;
}

asked :
    ((execute_agentic services ask 0).result ≡ ok tt)
    × ((execute_agentic services ask 0).yields ≡ "__SOURCES" ∷ "answer1" ∷ [])
unfolding execute_agentic rounds_from round awaiting judge preceded ended answer joined
    build_messages is_exhausted is_satisfied refine is_blank
    public_nest_server.Llm.Calls.utf16_length
asked = (refl, refl)

execute_agentic_ends_example : (execute_agentic services ask 0).result ≢ err out_of_fuel
execute_agentic_ends_example = execute_agentic_ends services ask 0 (omega arith)

execute_agentic-IsAnswer_example :
    IsAnswer services ask 0 0 ask.question 0 0 (execute_agentic services ask 0)
execute_agentic-IsAnswer_example = execute_agentic-IsAnswer services ask tt 0 (omega arith) asked.0

abbrev key : SimilaritySearchResult → String
key c = c.text

abbrev over : ℕ → ℕ
over n = 1000000 / n

ranked-b : map (λ e. e.key) (ranked key over 60 (found ∷ (chunk "b" 1 ∷ []) ∷ [])) ≡ "b" ∷ "a" ∷ []
unfolding ranked sorted place add_lists add_list add_score
ranked-b = refl

ranked-Holds_example :
    Holds key over 60 "b"
      (occurs key over 60 "b" (found ∷ (chunk "b" 1 ∷ []) ∷ []))
      (contributions key over 60 "b" (found ∷ (chunk "b" 1 ∷ []) ∷ []))
      (ranked key over 60 (found ∷ (chunk "b" 1 ∷ []) ∷ []))
    × IsRanked (ranked key over 60 (found ∷ (chunk "b" 1 ∷ []) ∷ []))
ranked-Holds_example = ranked-Holds key over 60 "b" (found ∷ (chunk "b" 1 ∷ []) ∷ [])
