-- ===== src/Llm/Models.antt =====
-- Lists of model names: membership, and lists without a repetition.
use public_nest_server.Base.{
  ◌≡◌, refl, List, [], ◌∷◌, ◌++◌, String, Bool, false, not, ◌&&◌, ◌||◌, any, keep, text_eq, arith,
  eq_iff,
}

abbrev pub is_in : String → List String → Bool
is_in m models = any (text_eq m) models

abbrev pub IsUnique : List String → Type 0
IsUnique [] = Unit
IsUnique (m ∷ models) = (is_in m models ≡ false) × IsUnique models

-- `models.filter((m) => m !== model)`
abbrev pub without : String → List String → List String
without model models = keep (λ m. not (text_eq m model)) models

pub is_in-without :
    (m model : String) (models : List String)
    → is_in m (without model models) ≡ is_in m models && not (text_eq m model)
is_in-without m model [] = refl
is_in-without m model (x ∷ models) =
    ground (arith, eq_iff m x, eq_iff x model, eq_iff m model, is_in-without m model models)

pub without-IsUnique :
    (model : String) (models : List String) → IsUnique models → IsUnique (without model models)
without-IsUnique model [] h = tt
without-IsUnique model (x ∷ models) (new, h) =
    ground (arith, is_in-without x model models, without-IsUnique model models h)

pub is_in-append :
    (m : String) (xs ys : List String) → is_in m (xs ++ ys) ≡ is_in m xs || is_in m ys
is_in-append m [] ys = refl
is_in-append m (x ∷ xs) ys = ground (arith, is_in-append m xs ys)

pub append-IsUnique :
    (m : String) (models : List String)
    → IsUnique models
    → is_in m models ≡ false
    → IsUnique (models ++ m ∷ [])
append-IsUnique m [] h new = (refl, tt)
append-IsUnique m (x ∷ models) (first, h) new = (
  ground (arith, is_in-append x models (m ∷ []), eq_iff m x, eq_iff x m),
  append-IsUnique m models h (ground arith),
)
