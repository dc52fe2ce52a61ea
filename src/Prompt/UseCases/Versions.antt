-- ===== src/Prompt/UseCases/Versions.antt =====
-- The fields that a stored prompt shows, and the version above all others.
use mathlib.Core.Path.{subst}
use public_nest_server.Base.{
  ℕ, suc, ◌+◌, ◌≤◌, ◌<◌, ◌≡◌, sym, ap, List, [], ◌∷◌, length, ok, Result-cases, inl, inr, All,
  arith,
}
use public_nest_server.Prompt.Template.{PromptTemplate, prompt_name_of, restore_template}
use public_nest_server.Prompt.Collection.{PromptTemplateRecord}
use public_nest_server.Prompt.Repository.{template_of, templates_of}
use public_nest_server.Prompt.UseCases.{max_version, next_version}

pub template_of-fields :
    (now : ℕ) (r : PromptTemplateRecord) (t : PromptTemplate)
    → template_of now r ≡ ok t
    → (t.is_active ≡ r.is_active)
      × (t.name ≡ r.name)
      × (t.user_id ≡ r.user_id)
      × (t.version ≡ r.version)
unfolding template_of restore_template prompt_name_of
template_of-fields now r t h = elim (Result-cases (prompt_name_of r.name)) [
  | inl (name, e) ↦ (ground arith, ground arith, ground arith, ground arith)
  | inr (x, e) ↦ absurd (ground arith)
]

All-below :
    (low high : ℕ) (l : List PromptTemplateRecord)
    → low ≤ high
    → All (λ r. r.version ≤ low) l
    → All (λ r. r.version ≤ high) l
All-below low high [] le h = tt
All-below low high (r ∷ l) le (p, h) = (omega arith, All-below low high l le h)

All-lt :
    (high : ℕ) (l : List PromptTemplateRecord)
    → All (λ r. r.version ≤ high) l
    → All (λ r. r.version < high + 1) l
All-lt high [] h = tt
All-lt high (r ∷ l) (p, h) = (omega arith, All-lt high l h)

max_version-max :
    (t : PromptTemplate) (ts : List PromptTemplate)
    → (t.version ≤ max_version (t ∷ ts)) × (max_version ts ≤ max_version (t ∷ ts))
unfolding max_version
max_version-max t ts = (ground arith, ground arith)

-- The templates of some records: as many, and none above the version that comes next.
pub templates_of-length :
    (now : ℕ) (l : List PromptTemplateRecord) (ts : List PromptTemplate)
    → templates_of now l ≡ ok ts
    → (length ts ≡ length l) × All (λ r. r.version ≤ max_version ts) l
unfolding templates_of
templates_of-length now [] ts h = (ground arith, tt)
templates_of-length now (r ∷ l) ts h = elim (Result-cases (template_of now r)) [
  | inr (x, e) ↦ absurd (ground arith)
  | inl (t, e) ↦ elim (Result-cases (templates_of now l)) [
    | inr (x, e₂) ↦ absurd (ground arith)
    | inl (rest, e₂) ↦
        let same : ts ≡ t ∷ rest = ground arith in
        let (_, _, _, version) = template_of-fields now r t e in
        let (count, below) = templates_of-length now l rest e₂ in
        let (first, more) = max_version-max t rest in
        let lower : r.version ≤ max_version (t ∷ rest) = omega (arith, first, version) in
        subst (λ ts. (length ts ≡ suc (length l)) × All (λ q. q.version ≤ max_version ts) (r ∷ l))
          (sym same)
          (
            ap suc count,
            (lower, All-below (max_version rest) (max_version (t ∷ rest)) l more below),
          )
  ]
]

-- They are all below the version that comes next.
pub templates_of-next :
    (now : ℕ) (l : List PromptTemplateRecord) (ts : List PromptTemplate)
    → templates_of now l ≡ ok ts
    → All (λ r. r.version < next_version ts) l
unfolding next_version
templates_of-next now [] ts h = tt
templates_of-next now (r ∷ l) [] h =
    let (count, _) = templates_of-length now (r ∷ l) [] h in absurd (cc)
templates_of-next now (r ∷ l) (t ∷ ts) h =
    All-lt (max_version (t ∷ ts)) (r ∷ l) (templates_of-length now (r ∷ l) (t ∷ ts) h).1
