-- ===== src/Prompt/Repository.antt =====
-- PromptTemplateRepositoryImpl (infrastructure/persistence/prompt-template.repository-impl.ts).
use public_nest_server.Base.{
  ℕ, Option, none, some, List, [], ◌∷◌, String, Bool, true, false, ◌&&◌, ◌==◌, text_eq, Result, ok,
  Action, pure, lift, ◌>>=◌, ◌>>◌, result_map, result_bind, ⊤,
}
use public_nest_server.Prompt.Template.{PromptError, PromptTemplate, restore_template}
use public_nest_server.Prompt.Collection.{PromptTemplateRecord, Collection}

-- the filter `{ userId }`, and the one for a record without a user
abbrev pub owned_by : String → Option String → Bool
owned_by user none = false
owned_by user (some u) = text_eq u user

abbrev pub has_no_user : Option String → Bool
has_no_user none = true
has_no_user (some u) = false

abbrev pub named : String → PromptTemplateRecord → Bool
named name r = text_eq r.name name

abbrev pub has_version : String → ℕ → Option String → PromptTemplateRecord → Bool
has_version name version none r = named name r && r.version == version
has_version name version (some user) r =
    named name r && r.version == version && owned_by user r.user_id

-- the filter of `findAllByName`
abbrev pub in_scope : String → Option String → PromptTemplateRecord → Bool
in_scope name none r = named name r && has_no_user r.user_id
in_scope name (some user) r = named name r && owned_by user r.user_id

abbrev pub is_active_in : String → Option String → PromptTemplateRecord → Bool
is_active_in name user r = in_scope name user r && r.is_active

abbrev pub deactivated : ℕ → PromptTemplateRecord → PromptTemplateRecord
deactivated now r = record r { is_active = false; updated_at = now }

unfoldable pub template_of : ℕ → PromptTemplateRecord → Result PromptError PromptTemplate
unfolding restore_template
template_of now r = restore_template now (record {
  id = some r.id;
  name = r.name;
  version = r.version;
  content = r.content;
  is_active = r.is_active;
  variables = r.variables;
  user_id = r.user_id;
  created_at = some r.created_at;
  updated_at = some r.updated_at;
})

unfoldable pub templates_of :
    ℕ → List PromptTemplateRecord → Result PromptError (List PromptTemplate)
templates_of now [] = ok []
templates_of now (r ∷ records) =
    result_bind (template_of now r) λ t. result_map (λ l. t ∷ l) (templates_of now records)

-- `record ? this.toDomain(record) : null`
unfoldable pub template_or_null :
    ℕ → Option PromptTemplateRecord → Result PromptError (Option PromptTemplate)
template_or_null now none = ok none
template_or_null now (some r) = result_map some (template_of now r)

-- the record that `persist` inserts, before it has an id
unfoldable pub record_of : PromptTemplate → PromptTemplateRecord
record_of t = record {
  id = 0;
  name = t.name;
  version = t.version;
  content = t.content;
  is_active = t.is_active;
  variables = t.variables;
  user_id = t.user_id;
  created_at = t.created_at;
  updated_at = t.updated_at;
}

abbrev pub is_record : Option ℕ → PromptTemplateRecord → Bool
is_record none r = false
is_record (some i) r = r.id == i

module _ (collection : Collection) (now : ℕ) where
  open collection use {Store, insert_one, find_one, find_by_version, update_many}

  unfoldable pub persist_template : PromptTemplate → Action PromptError Store PromptTemplate
  persist_template t = do
    id ← insert_one (record_of t)
    lift (template_of now (record (record_of t) { id = id }))

  unfoldable pub find_template :
      (PromptTemplateRecord → Bool) → Action PromptError Store (Option PromptTemplate)
  find_template test s = (result_bind (find_one test s) (template_or_null now), s)

  unfoldable pub find_by_name_and_version :
      String → ℕ → Option String → Action PromptError Store (Option PromptTemplate)
  find_by_name_and_version name version user = find_template (has_version name version user)

  unfoldable pub find_all_by_name :
      String → Option String → Action PromptError Store (List PromptTemplate)
  find_all_by_name name user s =
      (result_bind (find_by_version (in_scope name user) s) (templates_of now), s)

  unfoldable pub find_active : String → Action PromptError Store (Option PromptTemplate)
  find_active name = find_template (is_active_in name none)

  unfoldable pub find_active_for_user :
      String → String → Action PromptError Store (Option PromptTemplate)
  find_active_for_user name user = find_template (is_active_in name (some user))

  unfoldable pub deactivate_all_by_name : String → Action PromptError Store ⊤
  deactivate_all_by_name name = update_many (in_scope name none) (deactivated now)

  unfoldable pub deactivate_all_for_user : String → String → Action PromptError Store ⊤
  deactivate_all_for_user name user = update_many (in_scope name (some user)) (deactivated now)

  -- `update`, which sets the two fields that a template may change
  unfoldable pub update_template : PromptTemplate → Action PromptError Store PromptTemplate
  update_template t = do
    update_many (is_record t.id)
        (λ r. record r { is_active = t.is_active; updated_at = t.updated_at })
    pure t
