-- ===== src/Qa/Chunks.antt =====
-- The chunks that a search finds (knowledge/domain/port/vector-store.port.ts), what
-- RagContentValidator.sanitize (application/filter/rag-content-validator.ts) does to them, and the
-- context that AgenticAskUseCase.buildMessages makes of them. The patterns and the normal form of
-- texts are parameters: a test of a line, and a function that splits a cleaned text into lines.
pub mod Context
use Prim.Native.String
use public_nest_server.Base.{
  ℕ, ◌+◌, ◌≡◌, refl, Option, none, some, or_else, List, [], ◌∷◌, ◌++◌, map, keep, any, String, Bool,
  true, false, not, ◌&&◌, text_eq, if◌then◌else◌, arith, ap, ◌∙◌, sym, eq_iff, eq_refl,
}
use public_nest_server.Llm.Models.{is_in, IsUnique, is_in-append}
use public_nest_server.Qa.Budget.{join}

pub record Metadata : Type 0 where
  pub document_id : String
  pub file_name : String
  pub chunk_index : ℕ
  pub parent_text : Option String
  pub parent_chunk_id : Option String

pub record SimilaritySearchResult : Type 0 where
  pub text : String
  pub score : ℕ
  pub metadata : Metadata

module _ (is_injection : String → Bool) (clean_lines : String → List String) where
  -- the `filter` of the lines of a text
  unfoldable pub safe_text : String → String
  unfolding join
  safe_text text = join "\n" (keep (λ line. not (is_injection line)) (clean_lines text))

  unfoldable pub sanitize : List SimilaritySearchResult → List SimilaritySearchResult
  unfolding safe_text
  sanitize [] = []
  sanitize (c ∷ chunks) = record c { text = safe_text c.text } ∷ sanitize chunks

-- `parentChunkId ?? documentId:chunkIndex`, with the number's text as a parameter
unfoldable pub parent_key : (ℕ → String) → SimilaritySearchResult → String
parent_key show c =
    or_else c.metadata.parent_chunk_id
      (String.◌++◌ c.metadata.document_id (String.◌++◌ ":" (show c.metadata.chunk_index)))

-- The values of `seenParents`, which starts with the chunks of the keys `seen`: the first chunk of
-- each key, in order.
unfoldable pub dedupe :
    (SimilaritySearchResult → String)
    → List String
    → List SimilaritySearchResult
    → List SimilaritySearchResult
dedupe key seen [] = []
dedupe key seen (c ∷ chunks) =
    let more = dedupe key (key c ∷ seen) chunks in
    let others = dedupe key seen chunks in if is_in (key c) seen then others else c ∷ more

-- what a chunk puts into the context
abbrev pub body_of : SimilaritySearchResult → String
body_of c = or_else c.metadata.parent_text c.text

-- one entry of the context, numbered from one
unfoldable pub entry : (ℕ → String) → ℕ → SimilaritySearchResult → String
entry show i c = String.◌++◌ "[출처 " (
    String.◌++◌ (show (i + 1)) (
      String.◌++◌ ": " (
        String.◌++◌ c.metadata.file_name (
          String.◌++◌ " (섹션 "
            (String.◌++◌ (show (c.metadata.chunk_index + 1)) (String.◌++◌ ")]\n" (body_of c)))))))

unfoldable pub entries : (ℕ → String) → ℕ → List SimilaritySearchResult → List String
unfolding entry
entries show i [] = []
entries show i (c ∷ chunks) = entry show i c ∷ entries show (i + 1) chunks

unfoldable pub context_of :
    (String → Bool) → (String → List String) → (ℕ → String) → List SimilaritySearchResult → String
unfolding entries sanitize parent_key dedupe join
context_of is_injection clean_lines show chunks =
    join "\n\n"
      (entries show 0 (dedupe (parent_key show) [] (sanitize is_injection clean_lines chunks)))
