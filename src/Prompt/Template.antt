-- ===== src/Prompt/Template.antt =====
-- PromptName (domain/vo/prompt-name.vo.ts) and PromptTemplate (domain/model/prompt-template.ts).
-- `new Date()` is an argument.
use public_nest_server.Base.{
  ℕ, Option, none, some, or_else, List, [], ◌∷◌, String, Bool, true, false, not, ◌&&◌, ◌||◌, leb,
  ◌==◌, codes, is_blank, text_eq, Result, ok, err, result_map, if◌then◌else◌,
}

-- What the use cases throw, and what MongoDB throws, by its message.
pub data PromptError : Type 0 where
  empty_name bad_name : PromptError
  prompt_not_found : String → ℕ → PromptError
  forbidden too_many_prompts : PromptError
  external : String → PromptError

-- `/^[a-z0-9-]+$/` of a text that is not empty
unfoldable pub is_name : List ℕ → Bool
is_name [] = true
is_name (c ∷ cs) = ((leb 97 c && leb c 122) || (leb 48 c && leb c 57) || c == 45) && is_name cs

unfoldable pub prompt_name_of : String → Result PromptError String
unfolding is_name
prompt_name_of value =
    if text_eq value "" || is_blank value
    then err empty_name
    else (if not (is_name (codes value)) then err bad_name else ok value)

pub record PromptTemplate : Type 0 where
  pub id : Option ℕ
  pub name : String
  pub version : ℕ
  pub content : String
  pub is_active : Bool
  pub variables : List String
  pub created_at : ℕ
  pub updated_at : ℕ
  pub user_id : Option String

-- `PromptTemplateProps`
pub record PromptTemplateProps : Type 0 where
  pub id : Option ℕ
  pub name : String
  pub version : ℕ
  pub content : String
  pub is_active : Bool
  pub variables : List String
  pub user_id : Option String
  pub created_at : Option ℕ
  pub updated_at : Option ℕ

pub record NewPrompt : Type 0 where
  pub name : String
  pub content : String
  pub variables : Option (List String)
  pub version : Option ℕ
  pub user_id : Option String

unfoldable pub create_template : ℕ → NewPrompt → Result PromptError PromptTemplate
create_template now props =
    result_map
      (λ name. record {
        id = none;
        name = name;
        version = or_else props.version 1;
        content = props.content;
        is_active = false;
        variables = or_else props.variables [];
        created_at = now;
        updated_at = now;
        user_id = props.user_id;
      })
      (prompt_name_of props.name)

unfoldable pub restore_template : ℕ → PromptTemplateProps → Result PromptError PromptTemplate
restore_template now props =
    result_map
      (λ name. record {
        id = props.id;
        name = name;
        version = props.version;
        content = props.content;
        is_active = props.is_active;
        variables = props.variables;
        created_at = or_else props.created_at now;
        updated_at = or_else props.updated_at now;
        user_id = props.user_id;
      })
      (prompt_name_of props.name)

unfoldable pub activate : ℕ → PromptTemplate → Result PromptError PromptTemplate
unfolding restore_template
activate now t = restore_template now (record {
  id = t.id;
  name = t.name;
  version = t.version;
  content = t.content;
  is_active = true;
  variables = t.variables;
  user_id = t.user_id;
  created_at = some t.created_at;
  updated_at = some now;
})
