-- ===== src/Knowledge/Offsets.antt =====
-- IngestDocumentUseCase.computeChunkOffsets and the window of generateContextualPrefix
-- (application/ingest-document.use-case.ts). A text is the list of its UTF-16 code units.
pub mod Laws
use public_nest_server.Base.{
  ℕ, zero, suc, ◌+◌, ◌-◌, ◌/◌, ◌==◌, Option, none, some, List, [], ◌∷◌, Bool, true, false, ◌&&◌,
  ltb, leb, take, drop, length, if◌then◌else◌,
}

-- `startsWith`
unfoldable pub is_prefix : List ℕ → List ℕ → Bool
is_prefix [] text = true
is_prefix (c ∷ probe) [] = false
is_prefix (c ∷ probe) (d ∷ text) = c == d && is_prefix probe text

unfoldable pub index_at : List ℕ → List ℕ → ℕ → Option ℕ
unfolding is_prefix
index_at probe [] i = if is_prefix probe [] then some i else none
index_at probe (d ∷ text) i =
    let later = index_at probe text (i + 1) in if is_prefix probe (d ∷ text) then some i else later

-- `Math.min(a, b)`
abbrev pub smaller : ℕ → ℕ → ℕ
smaller a b = if leb a b then a else b

-- `text.indexOf(probe, start)`
unfoldable pub index_of : List ℕ → List ℕ → ℕ → Option ℕ
unfolding index_at
index_of probe text start = index_at probe (drop start text) (smaller start (length text))

abbrev pub probe_of : List ℕ → List ℕ
probe_of chunk = take 50 chunk

-- the loop over the chunks, with `searchStart`
unfoldable pub offsets_from : List ℕ → ℕ → List (List ℕ) → List ℕ
unfolding index_of
offsets_from text search_start [] = []
offsets_from text search_start (chunk ∷ chunks) =
    elim (index_of (probe_of chunk) text search_start) [
      | none ↦ search_start ∷ offsets_from text search_start chunks
      | some i ↦ i ∷ offsets_from text (i + length chunk) chunks
    ]

abbrev pub compute_chunk_offsets : List ℕ → List (List ℕ) → List ℕ
compute_chunk_offsets text chunks = offsets_from text 0 chunks

-- `substring`, of bounds that are in order
abbrev pub substring : ℕ → ℕ → List ℕ → List ℕ
substring from to text = take (to - from) (drop from text)

-- the text around a chunk that its prefix is made from
unfoldable pub local_context : List ℕ → List ℕ → ℕ → List ℕ
local_context full_text chunk chunk_offset =
    substring (chunk_offset - 300) (smaller (length full_text) (chunk_offset + length chunk + 100))
      full_text
