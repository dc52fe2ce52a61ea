-- ===== src/Qa/Decomposer.antt =====
-- QueryDecomposer (application/query-decomposer.service.ts) and HydeService
-- (application/hyde.service.ts). The LLM's stream, `toLowerCase`, `trim` and the replacement of a leading
-- dash are parameters.
use Prim.Native.Char.{code}
use Prim.Native.String
use public_nest_server.Base.{
  ℕ, suc, ◌+◌, ◌/◌, ◌==◌, List, [], ◌∷◌, ◌++◌, map, String, Bool, true, false, not, ◌&&◌, ◌||◌, any,
  keep, take, leb, ltb, text_eq, codes, is_space, Action, pure, ◌>>=◌, if◌then◌else◌,
}
use public_nest_server.Llm.Calls.{utf16_length}
use public_nest_server.Llm.Fallback.{LlmMessage}
use public_nest_server.Qa.Agentic.{joined}
use public_nest_server.Qa.Filtering.{split_lines}
use public_nest_server.Qa.Rewriter.{includes}

abbrev pub max_sub_queries : ℕ
max_sub_queries = 3

abbrev pub compound_indicators : List String
compound_indicators =
    "그리고" ∷ "또한" ∷ "아울러" ∷ "뿐만 아니라" ∷ "더불어" ∷ "and also" ∷ "additionally" ∷ "furthermore"
    ∷ "moreover" ∷ []

-- `(question.match(/\?/g) ?? []).length`
abbrev pub question_marks : String → ℕ
question_marks String.[] = 0
question_marks (String.◌∷◌ c s) = (if code c == 63 then 1 else 0) + question_marks s

unfoldable pub should_decompose : (String → String) → String → Bool
unfolding includes
should_decompose to_lower question =
    any (includes (to_lower question)) compound_indicators || ltb 1 (question_marks question)

-- `split('\n')`
abbrev pub lines_of : String → List String
unfolding split_lines
lines_of text = let (lines, rest) = split_lines text in lines ++ rest ∷ []

abbrev pub decompose_prompt : String → String
decompose_prompt question =
    String.◌++◌
      "다음 복합 질문을 최대 3개의 독립적인 단순 질문으로 분해하세요.\n각 질문을 새 줄에 \"- \"로 시작하여 나열하세요. 질문만 출력하세요.\n\n질문: "
      question

-- `subQueries.length > 0 ? subQueries : [question]`
abbrev pub or_question : String → List String → List String
or_question question [] = question ∷ []
or_question question (q ∷ queries) = q ∷ queries

module _ {E S : Type 0} (trim without_dash : String → String)
    (stream : List LlmMessage → Action E S (List String)) where
  -- the non-empty lines of an answer, at most three
  unfoldable pub sub_queries : String → List String
  unfolding split_lines
  sub_queries answer = take max_sub_queries (
      keep (λ line. not (text_eq line ""))
        (map (λ line. trim (without_dash line)) (lines_of (trim answer))))

  unfoldable pub decompose : String → Action E S (List String)
  unfolding joined
  decompose question = do
    tokens ← stream (record { role = "user"; content = decompose_prompt question } ∷ [])
    pure (or_question question (sub_queries (joined tokens)))

abbrev pub min_query_words : ℕ
min_query_words = 3

abbrev pub max_query_words : ℕ
max_query_words = 10

-- `split(/\s+/).length`: one more than the runs of white space, from a code after white space or not
abbrev pub count_words : Bool → List ℕ → ℕ
unfolding is_space
count_words in_space [] = 1
count_words in_space (c ∷ cs) =
    let others = count_words false cs in
    let more = count_words true cs in
    if is_space c then (if in_space then more else suc more) else others

module _ (trim : String → String) where
  -- `getWordCount`; a single word counts a third of its UTF-16 code units
  unfoldable pub word_count : String → ℕ
  unfolding utf16_length is_space
  word_count text =
      let words = count_words false (codes (trim text)) in
      if words == 1
      then (utf16_length (keep (λ c. not (is_space c)) (codes text)) + 2) / 3
      else words

  unfoldable pub should_apply : String → Bool
  unfolding word_count
  should_apply question =
      let trimmed = trim question in
      let words = word_count trimmed in
      not (text_eq trimmed "") && leb min_query_words words && leb words max_query_words

module _ {E S : Type 0} (stream : List LlmMessage → Action E S (List String)) where
  unfoldable pub generate_hypothetical : String → Action E S String
  unfolding joined
  generate_hypothetical question = do
    tokens ← stream (
        record {
          role = "system";
          content = "다음 질문에 대해 간결하고 사실적인 답변을 2-3문장으로 작성하세요. 이 답변은 문서 검색 쿼리로 활용됩니다.";
        }
        ∷ record { role = "user"; content = question }
        ∷ [])
    pure (joined tokens)
