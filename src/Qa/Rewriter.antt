-- ===== src/Qa/Rewriter.antt =====
-- ConversationalQueryRewriter (application/conversational-query-rewriter.service.ts). The LLM's
-- stream, `toLowerCase` and `trim` are parameters.
use Prim.Native.Char.{code}
use Prim.Native.String
use public_nest_server.Base.{
  ◌-◌, ◌==◌, List, [], ◌∷◌, map, String, Bool, true, false, ◌&&◌, ◌||◌, any, drop, length, text_eq,
  Action, pure, ◌>>=◌, if◌then◌else◌,
}
use public_nest_server.Llm.Fallback.{LlmMessage}
use public_nest_server.Qa.Budget.{join}
use public_nest_server.Qa.Agentic.{joined}

abbrev pub follow_up_indicators : List String
follow_up_indicators =
    "이것" ∷ "그것" ∷ "저것" ∷ "위에서" ∷ "앞에서" ∷ "해당" ∷ "이 내용" ∷ "그 내용" ∷ "이거" ∷ "그거" ∷ "앞서" ∷ "거기" ∷ "여기"
    ∷ "더" ∷ "추가로" ∷ "그러면" ∷ "그럼" ∷ "방금" ∷ "위" ∷ "아래" ∷ " it " ∷ " this " ∷ " that " ∷ " those "
    ∷ " they " ∷ " there " ∷ []

abbrev pub starts_with : String → String → Bool
starts_with String.[] t = text_eq t ""
starts_with (String.◌∷◌ c s) String.[] = true
starts_with (String.◌∷◌ c s) (String.◌∷◌ d t) = code c == code d && starts_with s t

-- `s.includes(t)`
unfoldable pub includes : String → String → Bool
includes String.[] t = starts_with "" t
includes (String.◌∷◌ c s) t = starts_with (String.◌∷◌ c s) t || includes s t

unfoldable pub is_follow_up : (String → String) → String → List LlmMessage → Bool
unfolding includes
is_follow_up to_lower question [] = false
is_follow_up to_lower question (t ∷ history) =
    any (includes (to_lower question)) follow_up_indicators

-- `history.slice(-4)`
abbrev pub last_four : List LlmMessage → List LlmMessage
last_four history = drop (length history - 4) history

abbrev pub turn_text : LlmMessage → String
turn_text t =
    String.◌++◌ (if text_eq t.role "user" then "사용자" else "어시스턴트") (String.◌++◌ ": " t.content)

unfoldable pub rewrite_prompt : String → List LlmMessage → String
unfolding join
rewrite_prompt question history = String.◌++◌ "이전 대화:\n" (
    String.◌++◌ (join "\n" (map turn_text (last_four history))) (
      String.◌++◌
        "\n\n위 대화 맥락을 참고하여, 다음 질문을 이전 대화 없이도 이해할 수 있는 독립적인 질문으로 재작성하세요.\n재작성된 질문만 출력하세요.\n\n질문: "
        question))

module _ {E S : Type 0} (trim : String → String)
    (stream : List LlmMessage → Action E S (List String)) where
  unfoldable pub rewrite : String → List LlmMessage → Action E S String
  unfolding rewrite_prompt joined
  rewrite question history = do
    tokens ← stream (record { role = "user"; content = rewrite_prompt question history } ∷ [])
    let rewritten = trim (joined tokens)
    pure (if text_eq rewritten "" then question else rewritten)
