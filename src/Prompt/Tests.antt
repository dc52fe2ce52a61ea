-- ===== src/Prompt/Tests.antt =====
-- The use cases of prompts on a collection in memory.
use public_nest_server.Base.{
  ℕ, suc, ◌≡◌, refl, Option, none, some, List, [], ◌∷◌, ◌++◌, keep, find, length, String, Bool,
  true, false, Result, ok, All, Bool-cases, inl, inr, arith, is_blank,
}
use public_nest_server.Prompt.Template.{
  PromptError, PromptTemplate, is_name, prompt_name_of, create_template, restore_template, activate,
}
use public_nest_server.Prompt.Collection.{Collection, PromptTemplateRecord, updated}
use public_nest_server.Prompt.Repository.{
  template_of, templates_of, template_or_null, record_of, persist_template, find_template,
  find_by_name_and_version, find_all_by_name, find_active_for_user, deactivate_all_for_user,
  update_template,
}
use public_nest_server.Prompt.UseCases.{
  ActivatePromptCommand, CreatePromptCommand, max_version, next_version, deactivate_scope,
  activate_target, target_found, activate_prompt, create_next, create_prompt, active_or_default,
  user_prompt_or, get_active_prompt,
}
use public_nest_server.Prompt.UseCases.Laws.{IsActivated, activate_prompt-IsActivated}
use public_nest_server.Prompt.UseCases.Shown.{
  IsVisible, get_active_prompt-IsVisible, IsCreated, create_prompt-IsCreated,
}

found_passes :
    (test : PromptTemplateRecord → Bool) (r : PromptTemplateRecord) (l : List PromptTemplateRecord)
    → find test l ≡ some r
    → test r ≡ true
found_passes test r [] h = cc
found_passes test r (q ∷ l) h = ground (arith, found_passes test r l)

found_inside :
    (test : PromptTemplateRecord → Bool) (r : PromptTemplateRecord) (l : List PromptTemplateRecord)
    (P : PromptTemplateRecord → Type 0)
    → find test l ≡ some r
    → All P l
    → P r
found_inside test r [] P h all = cc
found_inside test r (q ∷ l) P h (p, all) = elim (Bool-cases (test q)) [
  | inl here ↦ let same : q ≡ r = ground arith in rw (← same) p
  | inr later ↦ found_inside test r l P (ground arith) all
]

ok-some :
    (a b : Option PromptTemplateRecord)
    → ◌≡◌ {A = Result PromptError (Option PromptTemplateRecord)} (ok a) (ok b)
    → a ≡ b
ok-some a b h = cc

ok-list :
    (a b : List PromptTemplateRecord)
    → ◌≡◌ {A = Result PromptError (List PromptTemplateRecord)} (ok a) (ok b)
    → a ≡ b
ok-list a b h = cc

ok-number : (a b : ℕ) → ◌≡◌ {A = Result PromptError ℕ} (ok a) (ok b) → a ≡ b
ok-number a b h = cc

abbrev in_memory : Collection
in_memory = record {
  Store = List PromptTemplateRecord;
  records = λ s. s;
  insert_one = λ r s. (ok (suc (length s)), s ++ record r { id = suc (length s) } ∷ []);
  find_one = λ test s. ok (find test s);
  find_by_version = λ test s. ok (keep test s);
  update_many = λ test change s. (ok tt, updated test change s);
  insert_one-ok = λ r i s h. rw (ok-number _ i h) refl;
  find_one-ok = λ test r s h. (
    found_passes test r s (ok-some _ (some r) h),
    λ P all. found_inside test r s P (ok-some _ (some r) h) all,
  );
  find_by_version-ok = λ test l s h. rw (← ok-list (keep test s) l h) (refl, λ P all. all);
  update_many-ok = λ test change u s h. refl;
}

abbrev stored : ℕ → ℕ → Bool → Option String → PromptTemplateRecord
stored i version is_active user = record {
  id = i;
  name = "rag";
  version = version;
  content = "c";
  is_active = is_active;
  variables = [];
  user_id = user;
  created_at = 0;
  updated_at = 0;
}

abbrev prompts : List PromptTemplateRecord
prompts = stored 1 1 true none ∷ stored 2 2 false none ∷ stored 3 3 true (some "u") ∷ []

abbrev template : ℕ → ℕ → ℕ → Bool → Option String → PromptTemplate
template i version now is_active user = record {
  id = some i;
  name = "rag";
  version = version;
  content = "c";
  is_active = is_active;
  variables = [];
  created_at = 0;
  updated_at = now;
  user_id = user;
}

-- A user activates a prompt of nobody, while another one of nobody is active.
abbrev command : ActivatePromptCommand
command = record { name = "rag"; version = 2; user_id = some "u" }

activated : (activate_prompt in_memory 9 command prompts).0 ≡ ok (template 2 2 9 true none)
unfolding activate_prompt find_by_name_and_version find_template template_or_null template_of
    target_found activate_target deactivate_scope deactivate_all_for_user activate restore_template
    update_template prompt_name_of is_name is_blank
activated = refl

activate_prompt-IsActivated_example :
    IsActivated in_memory 9 command
      (template 2 2 9 true none)
      prompts
      (activate_prompt in_memory 9 command prompts).1
activate_prompt-IsActivated_example =
    activate_prompt-IsActivated in_memory 9 command (template 2 2 9 true none) prompts activated

shown :
    (get_active_prompt in_memory 9 "rag" (some "u") prompts).0 ≡ ok (template 3 3 0 true (some "u"))
unfolding get_active_prompt user_prompt_or active_or_default find_active_for_user find_template
    template_or_null template_of restore_template prompt_name_of is_name is_blank
shown = refl

get_active_prompt-IsVisible_example :
    IsVisible in_memory 9 "rag" (some "u") (template 3 3 0 true (some "u"))
get_active_prompt-IsVisible_example =
    get_active_prompt-IsVisible in_memory 9 "rag" (some "u") (template 3 3 0 true (some "u"))
      prompts shown

abbrev new_prompt : CreatePromptCommand
new_prompt = record { name = "rag"; content = "c"; variables = []; user_id = some "u" }

abbrev added : PromptTemplate
added = record (template 4 4 9 false (some "u")) { created_at = 9 }

was_created : (create_prompt in_memory 9 new_prompt prompts).0 ≡ ok added
unfolding create_prompt find_all_by_name templates_of template_of restore_template create_next
    next_version max_version create_template persist_template record_of prompt_name_of is_name
    is_blank
was_created = refl

create_prompt-IsCreated_example :
    IsCreated in_memory 9 new_prompt added prompts (create_prompt in_memory 9 new_prompt prompts).1
create_prompt-IsCreated_example =
    create_prompt-IsCreated in_memory 9 new_prompt added prompts was_created
