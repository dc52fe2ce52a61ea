-- ===== src/Llm/Routing.antt =====
-- LlmRoutingService (application/llm-routing.service.ts). A configuration is a function from the
-- names of the settings to their values.
use Prim.Native.Char.{code}
use public_nest_server.Base.{
  ◌≡◌, refl, Option, none, some, List, [], ◌∷◌, map, String, false, not, ◌&&◌, ◌||◌, keep, or_else,
  text_eq, is_space, ◌==◌, if◌then◌else◌, arith, eq_iff, eq_refl,
}
use public_nest_server.Llm.Models.{is_in, IsUnique, without, is_in-without, without-IsUnique}

abbrev pub default_chain : List String
default_chain = "claude-sonnet-4-6" ∷ []

-- `raw.split(',')`
unfoldable pub split_at_commas : String → List String
split_at_commas String.[] = "" ∷ []
split_at_commas (String.◌∷◌ c s) =
    let rest = split_at_commas s in
    if code c == 44
    then "" ∷ rest
    else elim rest [ [] ↦ String.◌∷◌ c "" ∷ [] | first ∷ others ↦ String.◌∷◌ c first ∷ others ]

unfoldable pub trim_start : String → String
trim_start String.[] = ""
trim_start (String.◌∷◌ c s) =
    let rest = trim_start s in if is_space (code c) then rest else String.◌∷◌ c s

unfoldable pub trim_end : String → String
trim_end String.[] = ""
trim_end (String.◌∷◌ c s) =
    let rest = trim_end s in if text_eq rest "" && is_space (code c) then "" else String.◌∷◌ c rest

unfoldable pub trim : String → String
unfolding trim_start trim_end
trim s = trim_end (trim_start s)

-- `.split(',').map((m) => m.trim()).filter(Boolean)`
unfoldable pub models_of : String → List String
unfolding split_at_commas trim
models_of raw = keep (λ m. not (text_eq m "")) (map trim (split_at_commas raw))

-- `raw ? … : DEFAULT_CHAIN`
unfoldable pub raw_chain : Option String → List String
unfolding models_of
raw_chain none = default_chain
raw_chain (some raw) = if text_eq raw "" then default_chain else models_of raw

module _ (get : String → Option String) where
  unfoldable pub resolve_provider_model : Option String
  resolve_provider_model =
      let provider : String = or_else (get "LLM_PROVIDER") "ollama" in
      if text_eq provider "groq"
      then some (or_else (get "GROQ_MODEL") "llama-3.3-70b-versatile")
      else (if text_eq provider "ollama"
          then get "OLLAMA_MODEL"
          else (if text_eq provider "openai"
              then get "OPENAI_MODEL"
              else (if text_eq provider "claude"
                  then get "CLAUDE_MODEL"
                  else (if text_eq provider "gemini" then get "GOOGLE_MODEL" else none))))

  -- the constructor
  unfoldable pub configured_chain : List String
  unfolding resolve_provider_model raw_chain
  configured_chain =
      let raw = raw_chain (get "LLM_FALLBACK_CHAIN") in
      elim resolve_provider_model [
        | none ↦ raw
        | some primary ↦ if text_eq primary "" then raw else primary ∷ without primary raw
      ]

-- `resolveChain`, of the service's chain
unfoldable pub resolve_chain : List String → Option String → List String
resolve_chain chain none = chain
resolve_chain chain (some preferred) =
    if text_eq preferred "" then chain else preferred ∷ without preferred chain

-- A preferred model comes first and is tried once; the chain that is tried has the configured
-- models and the preferred one, and no others, and no repetition if the configured one has none.
pub resolve_chain-IsUnique :
    (chain : List String) (preferred : String)
    → IsUnique chain
    → text_eq preferred "" ≡ false
    → (rest : List String) × (resolve_chain chain (some preferred) ≡ preferred ∷ rest)
      × IsUnique (preferred ∷ rest)
      × ((m : String) → is_in m (preferred ∷ rest) ≡ text_eq m preferred || is_in m chain)
unfolding resolve_chain
resolve_chain-IsUnique chain preferred unique given = (
  without preferred chain,
  rw given refl,
  (
    ground (arith, is_in-without preferred preferred chain, eq_refl preferred),
    without-IsUnique preferred chain unique,
  ),
  λ m. ground (arith, is_in-without m preferred chain, eq_iff m preferred),
)
