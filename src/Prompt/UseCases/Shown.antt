-- ===== src/Prompt/UseCases/Shown.antt =====
-- Which prompt is shown to a user, and the version that a new prompt gets.
use public_nest_server.Base.{
  ℕ, ◌<◌, ◌≡◌, refl, sym, ap, ◌∙◌, Option, none, some, List, [], ◌∷◌, ◌++◌, keep, length, String,
  Bool, true, false, eq_iff, ok, Result-cases, Option-cases, Bool-cases, inl, inr, All, arith,
}
use public_nest_server.Prompt.Template.{PromptTemplate, NewPrompt, prompt_name_of, create_template}
use public_nest_server.Prompt.Collection.{Collection, PromptTemplateRecord}
use public_nest_server.Prompt.Repository.{
  owned_by, in_scope, is_active_in, template_of, templates_of, template_or_null, record_of,
  persist_template, find_template, find_all_by_name, find_active, find_active_for_user,
}
use public_nest_server.Prompt.UseCases.{
  CreatePromptCommand, is_given, next_version, create_next, create_prompt, default_prompt,
  active_or_default, user_prompt_or, get_active_prompt,
}
use public_nest_server.Prompt.UseCases.Versions.{
  template_of-fields, templates_of-length, templates_of-next,
}

module _ (collection : Collection) (now : ℕ) where
  open collection use {Store, records}

  find_template-found :
      (test : PromptTemplateRecord → Bool) (t : PromptTemplate) (s : Store)
      → (find_template collection now test s).0 ≡ ok (some t)
      → (r : PromptTemplateRecord) × (test r ≡ true) × (template_of now r ≡ ok t)
  unfolding find_template template_or_null
  find_template-found test t s h = elim (Result-cases (collection.find_one test s)) [
    | inr (x, e) ↦ absurd (ground arith)
    | inl (found, e) ↦ elim (Option-cases found) [
      | inl missing ↦ absurd (ground arith)
      | inr (r, there) ↦ elim (Result-cases (template_of now r)) [
        | inr (x, e₂) ↦ absurd (ground arith)
        | inl (t', e₂) ↦
            let same : found ≡ some r = there in
            let here : collection.find_one test s ≡ ok (some r) = ground arith in
            (r, (collection.find_one-ok test r s here).0, ground arith)
      ]
    ]
  ]

  -- The prompts of a name that a user may be shown: active ones of the user or of nobody, and the
  -- default.
  pub data IsVisible (name : String) (user : Option String) (t : PromptTemplate) : Type 0 where
    own :
        (u : String)
        → user ≡ some u
        → owned_by u t.user_id ≡ true
        → t.is_active ≡ true
        → t.name ≡ name
        → IsVisible name user t
    of_nobody : t.user_id ≡ none → t.is_active ≡ true → t.name ≡ name → IsVisible name user t
    by_default : default_prompt collection now name ≡ ok t → IsVisible name user t

  active_or_default-IsVisible :
      (name : String) (user : Option String) (t : PromptTemplate) (s : Store)
      → (active_or_default collection now name s).0 ≡ ok t
      → IsVisible name user t
  unfolding active_or_default find_active
  active_or_default-IsVisible name user t s h =
      elim (Result-cases (find_template collection now (is_active_in name none) s).0) [
        | inr (x, e) ↦ absurd (ground arith)
        | inl (found, e) ↦ elim (Option-cases found) [
          | inl missing ↦ by_default (ground arith)
          | inr (p, there) ↦
              let (r, passes, read) =
                find_template-found (is_active_in name none) p s (e ∙ ap ok there) in
              let (on, named, owner, _) = template_of-fields now r p read in
              let same : p ≡ t = ground arith in
              elim (Option-cases r.user_id) [
                | inr (v, owned) ↦ absurd (ground arith)
                | inl nobody ↦
                    of_nobody (ground arith) (ground arith) (ground (arith, eq_iff r.name name))
              ]
        ]
      ]

  -- The prompt that is shown to a user is an active prompt of the name that is the user's own or
  -- nobody's, or else the default: never another user's, and never one that is switched off.
  pub get_active_prompt-IsVisible :
      (name : String) (user : Option String) (t : PromptTemplate) (s : Store)
      → (get_active_prompt collection now name user s).0 ≡ ok t
      → IsVisible name user t
  unfolding get_active_prompt user_prompt_or find_active_for_user find_template
  get_active_prompt-IsVisible name none t s h = active_or_default-IsVisible name none t s h
  get_active_prompt-IsVisible name (some u) t s h = elim (Bool-cases (is_given (some u))) [
    | inr empty ↦ active_or_default-IsVisible name (some u) t s (ground (arith, h))
    | inl given ↦
        let test : PromptTemplateRecord → Bool = is_active_in name (some u) in
        elim (Result-cases (find_template collection now test s).0) [
          | inr (x, e) ↦ absurd (ground arith)
          | inl (found, e) ↦ elim (Option-cases found) [
            | inl missing ↦ active_or_default-IsVisible name (some u) t s (ground (arith, h))
            | inr (p, there) ↦
                let (r, passes, read) = find_template-found test p s (e ∙ ap ok there) in
                let (on, named, owner, _) = template_of-fields now r p read in
                let same : p ≡ t = ground arith in
                own u refl (rw (← same, owner) (ground arith)) (ground arith)
                  (ground (arith, eq_iff r.name name))
          ]
        ]
  ]

  -- What is true when a prompt was created: one record has joined the collection, switched off, in
  -- the scope that the command names and with a version above all that were there, and a user who
  -- is named had fewer than ten.
  pub record IsCreated (command : CreatePromptCommand) (p : PromptTemplate) (s s' : Store)
      : Type 0 where
    pub added : PromptTemplateRecord
    pub appended : records s' ≡ records s ++ added ∷ []
    pub read : template_of now added ≡ ok p
    pub off : added.is_active ≡ false
    pub owner : added.user_id ≡ command.user_id
    pub name : added.name ≡ command.name
    pub above :
        All
          (λ r. r.version < added.version)
          (keep (in_scope command.name command.user_id) (records s))
    pub free :
        is_given command.user_id ≡ true
        → length (keep (in_scope command.name command.user_id) (records s)) < 10

  create_template-fields :
      (command : CreatePromptCommand) (version : ℕ) (t : PromptTemplate)
      → create_template now (record {
        name = command.name;
        content = command.content;
        variables = some command.variables;
        version = some version;
        user_id = command.user_id;
      })
        ≡ ok t
      → (t.name ≡ command.name)
        × (t.version ≡ version)
        × (t.is_active ≡ false)
        × (t.user_id ≡ command.user_id)
  unfolding create_template prompt_name_of
  create_template-fields command version t h = elim (Result-cases (prompt_name_of command.name)) [
    | inl (name, e) ↦ (ground arith, ground arith, ground arith, ground arith)
    | inr (x, e) ↦ absurd (ground arith)
  ]

  create_next-IsCreated :
      (command : CreatePromptCommand) (existing : List PromptTemplate) (p : PromptTemplate)
      (s : Store)
      → All
          (λ r. r.version < next_version existing)
          (keep (in_scope command.name command.user_id) (records s))
      → length existing ≡ length (keep (in_scope command.name command.user_id) (records s))
      → (create_next collection now command existing s).0 ≡ ok p
      → IsCreated command p s (create_next collection now command existing s).1
  unfolding create_next persist_template record_of
  create_next-IsCreated command existing p s above count h =
      let wanted : NewPrompt = record {
        name = command.name;
        content = command.content;
        variables = some command.variables;
        version = some (next_version existing);
        user_id = command.user_id;
      } in
      elim (Result-cases (create_template now wanted)) [
        | inr (x, e) ↦ absurd (ground arith)
        | inl (t, e) ↦
            let (name, version, off, owner) =
              create_template-fields command (next_version existing) t e in
            let write = collection.insert_one (record_of t) s in
            elim (Result-cases write.0) [
              | inr (x, e₂) ↦ absurd (ground arith)
              | inl (i, e₂) ↦
                  let end : (create_next collection now command existing s).1 ≡ write.1 =
                    ground arith in
                  let added : PromptTemplateRecord = record (record_of t) { id = i } in
                  rw end record {
                    added = added;
                    appended = collection.insert_one-ok (record_of t) i s e₂;
                    read = ground arith;
                    off = off;
                    owner = owner;
                    name = name;
                    above = rw version above;
                    free = λ given. ground arith;
                  }
            ]
      ]

  -- A prompt that was created is the next of its scope.
  pub create_prompt-IsCreated :
      (command : CreatePromptCommand) (p : PromptTemplate) (s : Store)
      → (create_prompt collection now command s).0 ≡ ok p
      → IsCreated command p s (create_prompt collection now command s).1
  unfolding create_prompt find_all_by_name
  create_prompt-IsCreated command p s h =
      let test : PromptTemplateRecord → Bool = in_scope command.name command.user_id in
      elim (Result-cases (collection.find_by_version test s)) [
        | inr (x, e) ↦ absurd (ground arith)
        | inl (l, e) ↦ elim (Result-cases (templates_of now l)) [
          | inr (x, e₂) ↦ absurd (ground arith)
          | inl (existing, e₂) ↦
              let (count, all) = collection.find_by_version-ok test l s e in
              let end : create_prompt collection now command s
                  ≡ create_next collection now command existing s =
                ground arith in
              rw end (
                create_next-IsCreated command existing p s
                  (all (λ r. r.version < next_version existing)
                    (templates_of-next now l existing e₂))
                  ((templates_of-length now l existing e₂).0 ∙ count) (ap (λ r. r.0) (sym end) ∙ h))
        ]
      ]
