-- ===== src/Prompt/Collection.antt =====
-- What the prompt repository takes from MongoDB: a collection of records with generated ids, as a
-- parameter.
use public_nest_server.Base.{
  ℕ, ◌≡◌, Option, some, List, [], ◌∷◌, ◌++◌, String, Bool, true, Result, ok, Action, map, keep,
  length, All, ⊤, if◌then◌else◌,
}
use public_nest_server.Prompt.Template.{PromptError}

-- `PromptTemplateRecord`, with its `_id`
pub record PromptTemplateRecord : Type 0 where
  pub id : ℕ
  pub name : String
  pub version : ℕ
  pub content : String
  pub is_active : Bool
  pub variables : List String
  pub user_id : Option String
  pub created_at : ℕ
  pub updated_at : ℕ

-- A filter of records, and what an update makes of them.
abbrev pub updated :
    (PromptTemplateRecord → Bool)
    → (PromptTemplateRecord → PromptTemplateRecord)
    → List PromptTemplateRecord
    → List PromptTemplateRecord
updated test change records = map (λ r. if test r then change r else r) records

pub record Collection : Type 1 where
  pub Store : Type 0
  pub records : Store → List PromptTemplateRecord
  -- `insertOne` gives the record an id
  pub insert_one : PromptTemplateRecord → Action PromptError Store ℕ
  pub find_one :
      (PromptTemplateRecord → Bool) → Store → Result PromptError (Option PromptTemplateRecord)
  -- `find(filter).sort({ version: -1 })`
  pub find_by_version :
      (PromptTemplateRecord → Bool) → Store → Result PromptError (List PromptTemplateRecord)
  -- `updateMany`, and `updateOne` by an id
  pub update_many :
      (PromptTemplateRecord → Bool)
      → (PromptTemplateRecord → PromptTemplateRecord)
      → Action PromptError Store ⊤
  pub insert_one-ok :
      (r : PromptTemplateRecord) (i : ℕ) (s : Store)
      → (insert_one r s).0 ≡ ok i
      → records (insert_one r s).1 ≡ records s ++ record r { id = i } ∷ []
  -- any record that passes the filter may be the one that is found
  pub find_one-ok :
      (test : PromptTemplateRecord → Bool) (r : PromptTemplateRecord) (s : Store)
      → find_one test s ≡ ok (some r)
      → (test r ≡ true) × ((P : PromptTemplateRecord → Type 0) → All P (records s) → P r)
  pub find_by_version-ok :
      (test : PromptTemplateRecord → Bool) (l : List PromptTemplateRecord) (s : Store)
      → find_by_version test s ≡ ok l
      → (length l ≡ length (keep test (records s)))
        × ((P : PromptTemplateRecord → Type 0) → All P l → All P (keep test (records s)))
  pub update_many-ok :
      (test : PromptTemplateRecord → Bool) (change : PromptTemplateRecord → PromptTemplateRecord)
      (u : ⊤) (s : Store)
      → (update_many test change s).0 ≡ ok u
      → records (update_many test change s).1 ≡ updated test change (records s)
