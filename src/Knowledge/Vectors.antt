-- ===== src/Knowledge/Vectors.antt =====
-- MongoDBVectorAdapter (infrastructure/vector/mongodb-vector.adapter.ts) on the list of the records of
-- its collection; the collection in MongoDB is a parameter, whose laws say what its commands do to
-- the records. An embedding is of a type that is a parameter.
pub mod Laws
use public_nest_server.Base.{
  ℕ, Option, none, some, or_else, List, [], ◌∷◌, ◌++◌, map, keep, any, String, Bool, true, false,
  not, text_eq, ◌&&◌, ltb, if◌then◌else◌, Action, ⊤, ◌≡◌, ok,
}

pub record VectorMetadata : Type 0 where
  pub document_id : Option String
  pub file_name : String
  pub chunk_index : ℕ
  pub char_count : Option ℕ
  pub parent_text : Option String
  pub parent_chunk_id : Option String

pub record VectorDocument (V : Type 0) : Type 0 where
  pub id : String
  pub text : String
  pub embedding : Option V
  pub metadata : VectorMetadata

-- Whether two ids, each of which may be missing, are the same.
abbrev pub same_document : Option String → Option String → Bool
same_document none none = true
same_document none (some b) = false
same_document (some a) none = false
same_document (some a) (some b) = text_eq a b

module _ {ℓ} {A : Type ℓ} where
  -- `$set` of a field that is left out where it is not defined
  abbrev pub kept_or : Option A → Option A → Option A
  kept_or none old = old
  kept_or (some a) old = some a

module _ {V : Type 0} where
  -- `$set` on a record
  abbrev pub set_record : VectorDocument V → VectorDocument V → VectorDocument V
  set_record doc old = record doc {
    metadata = record (doc.metadata) {
      char_count = kept_or doc.metadata.char_count old.metadata.char_count;
      parent_text = kept_or doc.metadata.parent_text old.metadata.parent_text;
      parent_chunk_id = kept_or doc.metadata.parent_chunk_id old.metadata.parent_chunk_id;
    };
  }

  -- `updateOne` with `upsert: true`
  unfoldable pub upsert_one : VectorDocument V → List (VectorDocument V) → List (VectorDocument V)
  upsert_one doc [] = doc ∷ []
  upsert_one doc (old ∷ records) =
      let rest = upsert_one doc records in
      if text_eq old.id doc.id then set_record doc old ∷ records else old ∷ rest

  -- `bulkWrite` of the operations in order
  unfoldable pub upsert :
      List (VectorDocument V) → List (VectorDocument V) → List (VectorDocument V)
  unfolding upsert_one
  upsert [] records = records
  upsert (doc ∷ docs) records = upsert docs (upsert_one doc records)

  abbrev pub is_of : Option String → VectorDocument V → Bool
  is_of document_id r = same_document r.metadata.document_id document_id

  unfoldable pub delete_by_document_id :
      Option String → List (VectorDocument V) → List (VectorDocument V)
  delete_by_document_id document_id records = keep (λ r. not (is_of document_id r)) records

  -- `sort({ chunkIndex: 1 })`, which leaves records of one index in their order
  unfoldable pub place_chunk : VectorDocument V → List (VectorDocument V) → List (VectorDocument V)
  place_chunk r [] = r ∷ []
  place_chunk r (q ∷ records) =
      let rest = place_chunk r records in
      if ltb q.metadata.chunk_index r.metadata.chunk_index then q ∷ rest else r ∷ q ∷ records

  unfoldable pub by_chunk_index : List (VectorDocument V) → List (VectorDocument V)
  unfolding place_chunk
  by_chunk_index [] = []
  by_chunk_index (r ∷ records) = place_chunk r (by_chunk_index records)

  -- whether a record is under one of the parents
  abbrev pub is_under : List String → VectorDocument V → Bool
  is_under parents r = any (λ p. same_document r.metadata.parent_chunk_id (some p)) parents

  unfoldable pub find_by_parent_chunk_ids :
      List String → List (VectorDocument V) → List (VectorDocument V)
  unfolding by_chunk_index
  find_by_parent_chunk_ids [] records = []
  find_by_parent_chunk_ids (p ∷ parents) records =
      by_chunk_index (keep (is_under (p ∷ parents)) records)

  unfoldable pub find_chunks_by_document_id :
      Option String → List (VectorDocument V) → List (VectorDocument V)
  unfolding by_chunk_index
  find_chunks_by_document_id document_id records = by_chunk_index (keep (is_of document_id) records)

-- The collection: `deleteMany` of a document and `bulkWrite` of upserts.
pub record Chunks (E V : Type 0) : Type 1 where
  pub Store : Type 0
  pub content : Store → List (VectorDocument V)
  pub delete_many : Option String → Action E Store ⊤
  pub bulk_write : List (VectorDocument V) → Action E Store ⊤
  pub delete-ok :
      (id : Option String) (s t : Store) (u : ⊤)
      → delete_many id s ≡ (ok u, t)
      → content t ≡ delete_by_document_id id (content s)
  pub write-ok :
      (docs : List (VectorDocument V)) (s t : Store) (u : ⊤)
      → bulk_write docs s ≡ (ok u, t)
      → content t ≡ upsert docs (content s)
