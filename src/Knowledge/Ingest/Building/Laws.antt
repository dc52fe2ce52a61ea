-- ===== src/Knowledge/Ingest/Building/Laws.antt =====
-- The numbers and the ids of the chunks of a document.
use public_nest_server.Base.{
  ℕ, suc, ◌+◌, ◌≡◌, refl, sym, ap, ◌∙◌, Option, some, List, [], ◌∷◌, ◌++◌, map, length, get_elem?,
  String, false, is_blank, ok, Result-cases, arith, ⊤, inl, inr, Bool-cases, pure, ◌>>=◌,
}
use public_nest_server.Knowledge.Vectors.{VectorDocument}
use public_nest_server.Knowledge.Splitting.{split_by_paragraph_first, size}
use public_nest_server.Knowledge.Offsets.{compute_chunk_offsets}
use public_nest_server.Knowledge.Ingest.Building.{
  Units, units, Ports, context_prefixes, parent_id, child_id, embedding_input, child_doc,
  child_docs, parent_docs, build_vector_docs,
}

module _ {E W V : Type 0} (ports : Ports E W V) (parents : List String)
    (document_id : Option String) (file_name : String) where
  -- The chunk with a number: its id and size, and the parent that it names and whose text it has.
  abbrev pub IsChunk : ℕ → VectorDocument V → Type 0
  IsChunk i d =
      (d.id ≡ child_id ports document_id i)
      × (d.metadata.chunk_index ≡ i)
      × (d.metadata.document_id ≡ document_id)
      × (d.metadata.file_name ≡ file_name)
      × (is_blank d.text ≡ false)
      × (d.metadata.char_count ≡ some (size d.text))
      × ((k : ℕ) × (p : String) × (get_elem? parents k ≡ some p)
          × (d.metadata.parent_text ≡ some p)
          × (d.metadata.parent_chunk_id ≡ some (parent_id ports document_id k)))

  abbrev pub AreChunks : ℕ → List (VectorDocument V) → Type 0
  AreChunks i [] = ⊤
  AreChunks i (d ∷ docs) = IsChunk i d × AreChunks (i + 1) docs

  AreChunks-append :
      (i : ℕ) (docs others : List (VectorDocument V))
      → AreChunks i docs
      → AreChunks (i + length docs) others
      → AreChunks i (docs ++ others)
  AreChunks-append i [] others here there =
      let same : i + 0 ≡ i = omega arith in rw (sym same) there
  AreChunks-append i (d ∷ docs) others (first, here) there =
      let next : i + length (d ∷ docs) ≡ i + 1 + length docs = omega arith in
      (first, AreChunks-append (i + 1) docs others here (rw (sym next) there))

  child_docs-AreChunks :
      (parent_text : String) (pi : ℕ) (embeddings : List V) (ci index : ℕ) (texts : List String)
      (docs : List (VectorDocument V))
      → get_elem? parents pi ≡ some parent_text
      → child_docs ports document_id file_name parent_text pi embeddings ci index texts ≡ ok docs
      → AreChunks index docs × (length docs ≡ length texts)
  unfolding child_docs child_doc
  child_docs-AreChunks parent_text pi embeddings ci index [] docs parent h =
      let end : docs ≡ [] = ground arith in rw end (tt, refl)
  child_docs-AreChunks parent_text pi embeddings ci index (text ∷ texts) docs parent h =
      let rest =
        child_docs ports document_id file_name parent_text pi embeddings (ci + 1) (index + 1)
          texts in
      elim (Bool-cases (is_blank text)) [
        | inl blank ↦ absurd (ground arith)
        | inr visible ↦ elim (Result-cases rest) [
          | inr (x, e) ↦ absurd (ground arith)
          | inl (others, e) ↦
              let (all, same) =
                child_docs-AreChunks parent_text pi embeddings (ci + 1) (index + 1) texts others
                  parent e in
              let end : docs
                  ≡ child_doc ports document_id file_name parent_text pi index
                      (get_elem? embeddings ci) text
                    ∷ others =
                ground arith in
              rw end (
                (
                  (refl, refl, refl, refl, visible, refl, (pi, parent_text, parent, refl, refl)),
                  all,
                ),
                ap suc same,
              )
        ]
      ]

  abbrev IsInside : ℕ → List String → Type 0
  IsInside pi rest =
      (k : ℕ) (p : String) → get_elem? rest k ≡ some p → get_elem? parents (pi + k) ≡ some p

  next-IsInside :
      (p : String) (rest : List String) (pi : ℕ) → IsInside pi (p ∷ rest) → IsInside (pi + 1) rest
  next-IsInside p rest pi inside k q e = ap (get_elem? parents) (omega arith) ∙ inside (suc k) q e

  -- The chunks of one parent, before those of the others.
  joined_chunks :
      (p : String) (rest : List String) (prefixes : List Units) (pi index : ℕ) (texts : List String)
      (embeddings : List V) (own docs : List (VectorDocument V)) (w w' : W)
      → IsInside pi (p ∷ rest)
      → child_docs ports document_id file_name p pi embeddings 0 index texts ≡ ok own
      → (parent_docs ports document_id file_name rest prefixes (pi + 1) (index + length texts)
            >>= λ others. pure (own ++ others))
          w
        ≡ (ok docs, w')
      → ((others : List (VectorDocument V)) (v : W)
          → parent_docs ports document_id file_name rest prefixes (pi + 1) (index + length texts) w
            ≡ (ok others, v)
          → AreChunks (index + length texts) others)
      → AreChunks index docs
  joined_chunks p rest prefixes pi index texts embeddings own docs w w' inside made h more =
      let step =
        parent_docs ports document_id file_name rest prefixes (pi + 1) (index + length texts) w in
      elim (Result-cases step.0) [
        | inr (x, e) ↦ absurd (ground arith)
        | inl (others, e) ↦
            let end : docs ≡ own ++ others = ground arith in
            let here =
              child_docs-AreChunks p pi embeddings 0 index texts own
                (ap (get_elem? parents) (omega arith) ∙ inside 0 p refl) made in
            let place : index + length texts ≡ index + length own =
              ap (λ n. index + n) (sym (here.1)) in
            let there = more others step.1 (ap (λ r. (r, step.1)) e) in
            rw end (AreChunks-append index own others (here.0) (rw (sym place) there))
      ]

  parent_docs-AreChunks :
      (rest : List String) (prefixes : List Units) (pi index : ℕ) (docs : List (VectorDocument V))
      (w w' : W)
      → IsInside pi rest
      → parent_docs ports document_id file_name rest prefixes pi index w ≡ (ok docs, w')
      → AreChunks index docs
  unfolding parent_docs
  parent_docs-AreChunks [] prefixes pi index docs w w' inside h =
      let end : docs ≡ [] = ground arith in rw end tt
  parent_docs-AreChunks (p ∷ rest) [] pi index docs w w' inside h =
      let end : docs ≡ [] = ground arith in rw end tt
  parent_docs-AreChunks (p ∷ rest) (prefix ∷ prefixes) pi index docs w w' inside h =
      let split = ports.split_child p w in
      elim (Result-cases split.0) [
        | inr (x, e) ↦ absurd (ground arith)
        | inl (texts, e) ↦
            let embedded = ports.embed (map (embedding_input ports prefix p) texts) split.1 in
            elim (Result-cases embedded.0) [
              | inr (x, e₁) ↦ absurd (ground arith)
              | inl (embeddings, e₁) ↦
                  elim (Result-cases
                    (child_docs ports document_id file_name p pi embeddings 0 index texts)) [
                      | inr (x, e₂) ↦ absurd (ground arith)
                      | inl (own, e₂) ↦
                          joined_chunks p rest prefixes pi index texts embeddings own docs
                            embedded.1 w' inside e₂ (ground arith)
                            (λ others v step.
                              parent_docs-AreChunks rest prefixes (pi + 1) (index + length texts)
                                others embedded.1 v (next-IsInside p rest pi inside) step)
                    ]
            ]
      ]

module _ {E W V : Type 0} (ports : Ports E W V) where
  -- The chunks that are made of a text without an exception have the numbers 0, 1, 2, … over all of
  -- its parents, each with the id of its number, its own size, and the text and id of one of the
  -- parents into which the text was split; none is blank.
  pub build_vector_docs-AreChunks :
      (raw_text : String) (document_id : Option String) (file_name : String)
      (docs : List (VectorDocument V)) (w w' : W)
      → build_vector_docs ports raw_text document_id file_name w ≡ (ok docs, w')
      → (parents : List String) × ((split_by_paragraph_first ports.split_parent raw_text w).0
          ≡ ok parents)
        × AreChunks ports parents document_id file_name 0 docs
  unfolding build_vector_docs
  build_vector_docs-AreChunks raw_text document_id file_name docs w w' h =
      let split = split_by_paragraph_first ports.split_parent raw_text w in
      elim (Result-cases split.0) [
        | inr (x, e) ↦ absurd (ground arith)
        | inl (parents, e) ↦
            let made =
              context_prefixes ports file_name (units raw_text) parents
                (compute_chunk_offsets (units raw_text) (map units parents)) split.1 in
            elim (Result-cases made.0) [
              | inr (x, e₁) ↦ absurd (ground arith)
              | inl (prefixes, e₁) ↦ (
                parents,
                e,
                parent_docs-AreChunks ports parents document_id file_name parents prefixes 0 0 docs
                    made.1 w' (λ k p here. ap (get_elem? parents) (omega arith) ∙ here)
                    (ground arith),
              )
            ]
      ]
