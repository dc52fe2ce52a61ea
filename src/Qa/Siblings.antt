-- ===== src/Qa/Siblings.antt =====
-- HybridSearchUseCase.expandWithSiblings (application/hybrid-search.use-case.ts): the chunks next to
-- those that were found. The vector store is a parameter, and so is the text of a number.
pub mod Laws
use Prim.Native.String
use public_nest_server.Base.{
  ℕ, ◌+◌, Option, none, some, List, [], ◌∷◌, ◌++◌, map, keep, String, Bool, true, false, not, ◌&&◌,
  leb, text_eq, if◌then◌else◌, Action, pure, ◌>>=◌,
}
use public_nest_server.Llm.Models.{is_in}
use public_nest_server.Qa.Chunks.{SimilaritySearchResult}

-- a `parentChunkId` that is truthy
unfoldable pub parent_of : SimilaritySearchResult → Option String
parent_of c = elim c.metadata.parent_chunk_id [
  | none ↦ none
  | some p ↦ if text_eq p "" then none else some p
]

-- `documentId:chunkIndex`
unfoldable pub chunk_key : (ℕ → String) → SimilaritySearchResult → String
chunk_key show c =
    String.◌++◌ c.metadata.document_id (String.◌++◌ ":" (show c.metadata.chunk_index))

-- the parents that are not in `seen`, each once, in order
unfoldable pub parent_ids : List String → List SimilaritySearchResult → List String
parent_ids seen [] = []
parent_ids seen (c ∷ chunks) =
    let same = parent_ids seen chunks in
    elim (parent_of c) [
      | none ↦ same
      | some p ↦ let more = parent_ids (p ∷ seen) chunks in if is_in p seen then same else p ∷ more
    ]

-- `Map.set`
abbrev pub set_hit : (String → Option ℕ) → String → ℕ → String → Option ℕ
set_hit hits p i = λ q. if text_eq p q then some i else hits q

unfoldable pub hit_indices : (String → Option ℕ) → List SimilaritySearchResult → String → Option ℕ
hit_indices hits [] = hits
hit_indices hits (c ∷ chunks) = elim (parent_of c) [
  | none ↦ hit_indices hits chunks
  | some p ↦ hit_indices (set_hit hits p c.metadata.chunk_index) chunks
]

-- `Math.abs(i - j) <= 1`
abbrev pub is_near : ℕ → ℕ → Bool
is_near i j = leb i (j + 1) && leb j (i + 1)

unfoldable pub is_near_hit : (String → Option ℕ) → ℕ → Option String → Bool
is_near_hit hits i none = false
is_near_hit hits i (some p) = elim (hits p) [ none ↦ false | some j ↦ is_near i j ]

-- the test of the `filter`
unfoldable pub is_new_sibling :
    (ℕ → String) → List SimilaritySearchResult → SimilaritySearchResult → Bool
unfolding is_near_hit
is_new_sibling show chunks s =
    not (is_in (chunk_key show s) (map (chunk_key show) chunks))
    && is_near_hit (hit_indices (λ q. none) chunks) s.metadata.chunk_index (parent_of s)

module _ {E S : Type 0} (show : ℕ → String)
    (find_by_parent_chunk_ids : List String → Action E S (List SimilaritySearchResult)) where
  abbrev pub expand_under :
      List SimilaritySearchResult → List String → Action E S (List SimilaritySearchResult)
  expand_under chunks [] = pure chunks
  expand_under chunks (p ∷ ids) = do
    siblings ← find_by_parent_chunk_ids (p ∷ ids)
    pure (chunks ++ keep (is_new_sibling show chunks) siblings)

  unfoldable pub expand_with_siblings :
      List SimilaritySearchResult → Action E S (List SimilaritySearchResult)
  unfolding is_new_sibling
  expand_with_siblings chunks = expand_under chunks (parent_ids [] chunks)
