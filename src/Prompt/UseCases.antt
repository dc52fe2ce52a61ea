-- ===== src/Prompt/UseCases.antt =====
-- ActivatePromptUseCase, CreatePromptUseCase and GetActivePromptUseCase (application/*.use-case.ts).
pub mod Laws
pub mod Shown
pub mod Versions
use public_nest_server.Base.{
  ℕ, ◌+◌, Option, none, some, List, [], ◌∷◌, map, length, String, Bool, true, false, not, ◌&&◌, leb,
  text_eq, Result, ok, err, Action, pure, throw, lift, ◌>>=◌, ◌>>◌, ⊤, if◌then◌else◌,
}
use public_nest_server.Prompt.Template.{
  PromptError, prompt_not_found, forbidden, too_many_prompts, PromptTemplate, NewPrompt,
  create_template, restore_template, activate,
}
use public_nest_server.Prompt.Collection.{Collection}
use public_nest_server.Prompt.Repository.{
  persist_template, find_by_name_and_version, find_all_by_name, find_active, find_active_for_user,
  deactivate_all_by_name, deactivate_all_for_user, update_template,
}

pub record ActivatePromptCommand : Type 0 where
  pub name : String
  pub version : ℕ
  pub user_id : Option String

pub record CreatePromptCommand : Type 0 where
  pub name : String
  pub content : String
  pub variables : List String
  pub user_id : Option String

abbrev pub max_user_prompt_slots : ℕ
max_user_prompt_slots = 10

abbrev pub rag_qa_default_prompt : String
rag_qa_default_prompt =
    "당신은 주어진 문서를 기반으로 질문에 정확하게 답변하는 AI 어시스턴트입니다.\n오늘 날짜: {{currentDate}}\n\n## 출력 형식 규칙 (반드시 준수)\n- 오직 한국어와 마크다운(제목, 불릿, 번호 목록, 표)만 사용하세요.\n- \"Step 1:\", \"Step 2:\", \"## Step N\" 형식을 절대 사용하지 마세요.\n- \"The final answer is\", \"In conclusion\", \"To summarize\" 같은 영어 마무리 표현을 절대 사용하지 마세요.\n- 수학 기호($), LaTeX(\\boxed{}, \\frac{} 등)를 절대 사용하지 마세요.\n- 분석 과정을 단계별로 나열하지 말고, 결론을 직접 서술하세요.\n\n## 답변 원칙\n1. 반드시 아래 [컨텍스트]에 포함된 정보만을 사용하여 답변하세요.\n2. 답변 시 \"[출처 N]\"을 인용하여 근거를 제시하세요 (예: \"[출처 1]에 따르면 ...\").\n3. 컨텍스트에서 답변 가능한 내용은 최대한 구체적이고 상세하게 설명하세요.\n4. 부분적으로만 답변 가능한 경우, 확인된 내용을 먼저 답변한 후 부족한 부분을 명시하세요.\n5. 컨텍스트에 전혀 관련 정보가 없는 경우에만 \"해당 정보는 제공된 문서에 포함되어 있지 않습니다.\"라고 답변하세요.\n6. 시간적 표현(최근, 현재, 최신 등)이 포함된 질문은 오늘 날짜({{currentDate}})를 기준으로 컨텍스트의 날짜 정보를 비교하여 가장 최근 항목을 식별하세요.\n7. 목록, 단계, 비교가 필요한 경우 마크다운 형식(불릿, 번호 목록, 표)을 활용하여 구조화하세요.\n\n## 컨텍스트\n{{context}}"

-- whether an optional text counts as true
abbrev pub is_given : Option String → Bool
is_given none = false
is_given (some s) = not (text_eq s "")

abbrev pub same_user : Option String → Option String → Bool
same_user none none = true
same_user (some u) (some v) = text_eq u v
same_user _ _ = false

-- `Math.max(...versions)`
unfoldable pub max_version : List PromptTemplate → ℕ
max_version [] = 0
max_version (t ∷ templates) =
    let rest = max_version templates in if leb rest t.version then t.version else rest

-- `existing.length > 0 ? Math.max(…) + 1 : 1`
unfoldable pub next_version : List PromptTemplate → ℕ
unfolding max_version
next_version [] = 1
next_version (t ∷ templates) = max_version (t ∷ templates) + 1

module _ (collection : Collection) (now : ℕ) where
  open collection use {Store}

  unfoldable pub deactivate_scope : String → Option String → Action PromptError Store ⊤
  deactivate_scope name none = deactivate_all_by_name collection now name
  deactivate_scope name (some user) =
      if is_given (some user)
      then deactivate_all_for_user collection now name user
      else deactivate_all_by_name collection now name

  -- from the owner check to the end
  unfoldable pub activate_target :
      ActivatePromptCommand → PromptTemplate → Action PromptError Store PromptTemplate
  activate_target command target =
      if is_given command.user_id
        && is_given target.user_id
        && not (same_user target.user_id command.user_id)
      then throw forbidden
      else do
        deactivate_scope command.name command.user_id
        activated ← lift (activate now target)
        update_template collection now activated

  unfoldable pub target_found :
      ActivatePromptCommand → Option PromptTemplate → Action PromptError Store PromptTemplate
  target_found command none = throw (prompt_not_found command.name command.version)
  target_found command (some target) = activate_target command target

  unfoldable pub activate_prompt : ActivatePromptCommand → Action PromptError Store PromptTemplate
  activate_prompt command = do
    target ← find_by_name_and_version collection now command.name command.version none
    target_found command target

  unfoldable pub create_next :
      CreatePromptCommand → List PromptTemplate → Action PromptError Store PromptTemplate
  create_next command existing =
      if is_given command.user_id && leb max_user_prompt_slots (length existing)
      then throw too_many_prompts
      else do
        template ← lift (
            create_template now (record {
              name = command.name;
              content = command.content;
              variables = some command.variables;
              version = some (next_version existing);
              user_id = command.user_id;
            }))
        persist_template collection now template

  unfoldable pub create_prompt : CreatePromptCommand → Action PromptError Store PromptTemplate
  create_prompt command = do
    existing ← find_all_by_name collection now command.name command.user_id
    create_next command existing

  unfoldable pub default_prompt : String → Result PromptError PromptTemplate
  default_prompt name = restore_template now (record {
    id = none;
    name = name;
    version = 0;
    content = rag_qa_default_prompt;
    is_active = false;
    variables = "context" ∷ "currentDate" ∷ [];
    user_id = none;
    created_at = none;
    updated_at = none;
  })

  -- the prompt without a user, or the default
  unfoldable pub active_or_default : String → Action PromptError Store PromptTemplate
  unfolding default_prompt
  active_or_default name = do
    active ← find_active collection now name
    elim active [ some t ↦ pure t | none ↦ lift (default_prompt name) ]

  unfoldable pub user_prompt_or : String → String → Action PromptError Store PromptTemplate
  user_prompt_or name user = do
    user_prompt ← find_active_for_user collection now name user
    elim user_prompt [ some t ↦ pure t | none ↦ active_or_default name ]

  unfoldable pub get_active_prompt :
      String → Option String → Action PromptError Store PromptTemplate
  get_active_prompt name none = active_or_default name
  get_active_prompt name (some user) =
      if is_given (some user) then user_prompt_or name user else active_or_default name
