-- ===== src/Prompt/UseCases/Laws.antt =====
-- What the use cases of prompts leave in the collection, and which prompt they show.
use public_nest_server.Base.{
  All, eq_iff, ◌++◌, ℕ, ◌≡◌, refl, sym, ap, ◌∙◌, Option, none, some, List, [], ◌∷◌, map, keep,
  String, Bool, true, not, ◌&&◌, ok, Result-cases, Option-cases, Bool-cases, inl, inr, ⊤,
  if◌then◌else◌, arith,
}
use public_nest_server.Prompt.Template.{PromptTemplate, prompt_name_of, restore_template, activate}
use public_nest_server.Prompt.Collection.{Collection, PromptTemplateRecord, updated}
use public_nest_server.Prompt.Repository.{
  template_of, template_or_null, has_version, has_no_user, in_scope, deactivated, is_record,
  find_template, find_by_name_and_version, deactivate_all_by_name, deactivate_all_for_user,
  update_template,
}
use public_nest_server.Prompt.UseCases.{
  ActivatePromptCommand, is_given, deactivate_scope, activate_target, target_found, activate_prompt,
}

-- The scope of a command: the user it names, or nobody.
abbrev pub scope_of : Option String → Option String
scope_of user = if is_given user then user else none

-- What an activation does to a record.
abbrev pub settled :
    ℕ → String → Option String → Option ℕ → PromptTemplateRecord → PromptTemplateRecord
settled now name scope id r =
    if is_record id r
    then record r { is_active = true; updated_at = now }
    else (if in_scope name scope r then deactivated now r else r)

name_kept : (value name : String) → prompt_name_of value ≡ ok name → name ≡ value
unfolding prompt_name_of
name_kept value name h = ground arith

activate-fields :
    (now : ℕ) (t a : PromptTemplate)
    → activate now t ≡ ok a
    → (a.id ≡ t.id) × (a.is_active ≡ true) × (a.updated_at ≡ now)
unfolding activate restore_template
activate-fields now t a h = elim (Result-cases (prompt_name_of t.name)) [
  | inl (name, e) ↦ (ground arith, ground arith, ground arith)
  | inr (x, e) ↦ absurd (ground arith)
]

twice_updated :
    (now : ℕ) (name : String) (scope : Option String) (id : Option ℕ)
    (records : List PromptTemplateRecord)
    → updated
        (is_record id)
        (λ r. record r { is_active = true; updated_at = now })
        (updated (in_scope name scope) (deactivated now) records)
      ≡ map (settled now name scope id) records
twice_updated now name scope id [] = refl
twice_updated now name scope none (r ∷ records) =
    ground (arith, twice_updated now name scope none records)
twice_updated now name scope (some i) (r ∷ records) =
    ground (arith, twice_updated now name scope (some i) records)

-- The prompts of nobody, but for one.
abbrev pub others_of_nobody : Option ℕ → PromptTemplateRecord → Bool
others_of_nobody id r = has_no_user r.user_id && not (is_record id r)

-- Where a record stands in a list.
abbrev pub IsInside : List PromptTemplateRecord → PromptTemplateRecord → Type 0
IsInside records r =
    (front : List PromptTemplateRecord) × (back : List PromptTemplateRecord) × (records
      ≡ front ++ r ∷ back)

later-IsInside :
    (r : PromptTemplateRecord) (records tail : List PromptTemplateRecord)
    → All (IsInside records) tail
    → All (IsInside (r ∷ records)) tail
later-IsInside r records [] all = tt
later-IsInside r records (q ∷ tail) ((front, back, same), all) =
    ((r ∷ front, back, ap (λ l. r ∷ l) same), later-IsInside r records tail all)

All-IsInside : (records : List PromptTemplateRecord) → All (IsInside records) records
All-IsInside [] = tt
All-IsInside (r ∷ records) =
    (([], records, refl), later-IsInside r records records (All-IsInside records))

template_of-id :
    (now : ℕ) (r : PromptTemplateRecord) (t : PromptTemplate)
    → template_of now r ≡ ok t
    → t.id ≡ some r.id
unfolding template_of restore_template prompt_name_of
template_of-id now r t h = elim (Result-cases (prompt_name_of r.name)) [
  | inl (name, e) ↦ ground arith
  | inr (x, e) ↦ absurd (ground arith)
]

module _ (collection : Collection) (now : ℕ) where
  open collection use {Store, records}

  deactivate_scope-records :
      (name : String) (user : Option String) (u : ⊤) (s : Store)
      → (deactivate_scope collection now name user s).0 ≡ ok u
      → records (deactivate_scope collection now name user s).1
        ≡ updated (in_scope name (scope_of user)) (deactivated now) (records s)
  unfolding deactivate_scope deactivate_all_for_user deactivate_all_by_name
  deactivate_scope-records name none u s h =
      collection.update_many-ok (in_scope name none) (deactivated now) u s h
  deactivate_scope-records name (some user) u s h = elim (Bool-cases (is_given (some user))) [
    | inl given ↦ rw given (
        collection.update_many-ok (in_scope name (some user)) (deactivated now) u s
          (ground (arith, h)))
    | inr empty ↦
        rw empty
          (collection.update_many-ok (in_scope name none) (deactivated now) u s (ground (arith, h)))
  ]

  activate_target-records :
      (command : ActivatePromptCommand) (target p : PromptTemplate) (s : Store)
      → (activate_target collection now command target s).0 ≡ ok p
      → (p.id ≡ target.id)
        × (records (activate_target collection now command target s).1
            ≡ map (settled now command.name (scope_of command.user_id) target.id) (records s))
  unfolding activate_target update_template
  activate_target-records command target p s h =
      let off = deactivate_scope collection now command.name command.user_id s in
      elim (Result-cases off.0) [
        | inr (x, e) ↦ absurd (ground arith)
        | inl (u, e) ↦ elim (Result-cases (activate now target)) [
          | inr (x, e₂) ↦ absurd (ground arith)
          | inl (a, e₂) ↦
              let (id, on, at) = activate-fields now target a e₂ in
              let change : PromptTemplateRecord → PromptTemplateRecord =
                λ r. record r { is_active = a.is_active; updated_at = a.updated_at } in
              let write = collection.update_many (is_record a.id) change off.1 in
              elim (Result-cases write.0) [
                | inr (x, e₃) ↦ absurd (ground arith)
                | inl (v, e₃) ↦
                    let end : activate_target collection now command target s ≡ (ok a, write.1) =
                      ground arith in
                    let same : a ≡ p = ground arith in
                    (
                      ap (λ q. q.id) (sym same) ∙ id,
                      ap (λ r. records r.1) end
                          ∙ collection.update_many-ok (is_record a.id) change v off.1 e₃
                          ∙ ap (updated (is_record a.id) change)
                              (deactivate_scope-records command.name command.user_id u s e)
                          ∙ rw (on, at, id)
                              (twice_updated now command.name (scope_of command.user_id) target.id
                                (records s)),
                    )
              ]
        ]
      ]

  -- What an activation did: a stored record of the command's name and version is the one that is
  -- returned, and is active; the other records are settled by the scope.
  pub record IsActivated (command : ActivatePromptCommand) (p : PromptTemplate) (s s' : Store)
      : Type 0 where
    pub target : PromptTemplateRecord
    pub stored : IsInside (records s) target
    pub name : target.name ≡ command.name
    pub version : target.version ≡ command.version
    pub returned : p.id ≡ some target.id
    pub changed :
        records s'
        ≡ map (settled now command.name (scope_of command.user_id) (some target.id)) (records s)

  found_inside :
      (command : ActivatePromptCommand) (t : PromptTemplate) (s : Store)
      → (find_by_name_and_version collection now command.name command.version none s).0
        ≡ ok (some t)
      → (r : PromptTemplateRecord) × IsInside (records s) r
        × (r.name ≡ command.name)
        × (r.version ≡ command.version)
        × (t.id ≡ some r.id)
  unfolding find_by_name_and_version find_template template_or_null
  found_inside command t s h =
      let test : PromptTemplateRecord → Bool = has_version command.name command.version none in
      elim (Result-cases (collection.find_one test s)) [
        | inr (x, e) ↦ absurd (ground arith)
        | inl (found, e) ↦ elim (Option-cases found) [
          | inl missing ↦ absurd (ground arith)
          | inr (r, there) ↦ elim (Result-cases (template_of now r)) [
            | inr (x, e₂) ↦ absurd (ground arith)
            | inl (t', e₂) ↦
                let same : t' ≡ t = ground arith in
                let here : collection.find_one test s ≡ ok (some r) = ground arith in
                let (passes, inside) = collection.find_one-ok test r s here in
                (
                  r,
                  inside (IsInside (records s)) (All-IsInside (records s)),
                  ground (arith, eq_iff r.name command.name),
                  ground arith,
                  ap (λ x. x.id) (sym same) ∙ template_of-id now r t' e₂,
                )
          ]
        ]
      ]

  -- An activation that does not throw has made one record active and returns it: a stored one with
  -- the name and version of the command. Every other prompt of the name in the command's scope, which
  -- is its user's prompts or those of nobody, is inactive; the update times of these records are set,
  -- and nothing else is changed.
  pub activate_prompt-IsActivated :
      (command : ActivatePromptCommand) (p : PromptTemplate) (s : Store)
      → (activate_prompt collection now command s).0 ≡ ok p
      → IsActivated command p s (activate_prompt collection now command s).1
  unfolding activate_prompt target_found find_by_name_and_version find_template
  activate_prompt-IsActivated command p s h =
      let found = find_by_name_and_version collection now command.name command.version none s in
      elim (Result-cases found.0) [
        | inr (x, e) ↦ absurd (ground arith)
        | inl (target, e) ↦ elim (Option-cases target) [
          | inl missing ↦ absurd (ground arith)
          | inr (t, there) ↦
              let (r, inside, name, version, id) = found_inside command t s (e ∙ ap ok there) in
              let end : activate_prompt collection now command s
                  ≡ activate_target collection now command t s =
                ground arith in
              let (same, changed) =
                activate_target-records command t p s (ap (λ r. r.0) (sym end) ∙ h) in
              record {
                target = r;
                stored = inside;
                name = name;
                version = version;
                returned = same ∙ id;
                changed =
                    ap (λ q. records q.1) end
                    ∙ changed
                    ∙ ap
                        (λ i.
                          map (settled now command.name (scope_of command.user_id) i) (records s))
                        id;
              }
        ]
      ]

  keep-settled :
      (name user : String) (id : Option ℕ) (l : List PromptTemplateRecord)
      → keep (others_of_nobody id) (map (settled now name (some user) id) l)
        ≡ keep (others_of_nobody id) l
  keep-settled name user none [] = refl
  keep-settled name user (some i) [] = refl
  keep-settled name user none (r ∷ l) = elim (Option-cases r.user_id) [
    | inl nobody ↦ ground (arith, keep-settled name user none l)
    | inr (v, owner) ↦ ground (arith, keep-settled name user none l)
  ]
  keep-settled name user (some i) (r ∷ l) = elim (Option-cases r.user_id) [
    | inl nobody ↦ ground (arith, keep-settled name user (some i) l)
    | inr (v, owner) ↦ ground (arith, keep-settled name user (some i) l)
  ]

  -- An activation in the name of a user leaves every other prompt of nobody as it was, also where
  -- the activated prompt is itself a prompt of nobody: another one that was active stays active.
  pub activate_prompt_keeps_others :
      (command : ActivatePromptCommand) (user : String) (p : PromptTemplate) (s : Store)
      → command.user_id ≡ some user
      → is_given (some user) ≡ true
      → (activate_prompt collection now command s).0 ≡ ok p
      → keep (others_of_nobody p.id) (records (activate_prompt collection now command s).1)
        ≡ keep (others_of_nobody p.id) (records s)
  activate_prompt_keeps_others command user p s of_user given h =
      let scope : scope_of command.user_id ≡ some user = rw (of_user, given) refl in
      let done = activate_prompt-IsActivated command p s h in
      let settle : Option ℕ → List PromptTemplateRecord =
        λ i. map (settled now command.name (scope_of command.user_id) i) (records s) in
      ap (keep (others_of_nobody p.id)) (done.changed ∙ ap settle (sym done.returned))
      ∙ rw scope (keep-settled command.name user p.id (records s))
