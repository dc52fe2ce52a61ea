-- ===== src/Knowledge/Ingest.antt =====
-- IngestDocumentUseCase (application/ingest-document.use-case.ts): a file is read, checked, cut into
-- parents and children, embedded and stored.
pub mod Building
pub mod Steps
pub mod Outcomes
pub mod Freshness
pub mod Replacement
pub mod Storing
use Prim.Native.String
use public_nest_server.Base.{
  ℕ, ◌+◌, Option, none, some, or_else, List, [], ◌∷◌, ◌++◌, length, String, Bool, true, false, not,
  text_eq, if◌then◌else◌, ok, err, Result, Action, pure, throw, gets, modify, guard, ◌>>=◌, ◌>>◌, ⊤,
}
use public_nest_server.Knowledge.Document.{
  Document, Documents, create_document, mark_processed, mark_failed,
}
use public_nest_server.Knowledge.Vectors.{VectorDocument, Chunks}
use public_nest_server.Knowledge.Ingest.Building.{Ports, build_vector_docs}

pub record IngestDocumentCommand (B : Type 0) : Type 0 where
  pub file_name : String
  pub mime_type : String
  pub buffer : B
  pub document_id : Option String

-- The two collections, and the world of the ports.
pub record IngestState (D C W : Type 0) : Type 0 where
  pub documents : D
  pub chunks : C
  pub world : W

-- What stands around the use case.
pub record Databases (E W V B : Type 0) : Type 1 where
  pub documents : Documents E
  pub chunks : Chunks E V
  pub is_object_id : String → Bool
  pub wrong_id : E
  pub now : Action E W ℕ
  pub extract_text : B → String → Action E W String
  pub is_suspicious : String → Bool

module _ {E W V B : Type 0} (ports : Ports E W V) (db : Databases E W V B) where
  abbrev pub State : Type 0
  State = IngestState db.documents.Store db.chunks.Store W

  -- a call that changes only the world of the ports, and those of the collections
  abbrev pub outside : {A : Type 0} → Action E W A → Action E State A
  outside m s = let (r, w) = m s.world in (r, record s { world = w })

  abbrev pub in_documents : {A : Type 0} → Action E db.documents.Store A → Action E State A
  in_documents m s = let (r, d) = m s.documents in (r, record s { documents = d })

  abbrev pub in_chunks : {A : Type 0} → Action E db.chunks.Store A → Action E State A
  in_chunks m s = let (r, c) = m s.chunks in (r, record s { chunks = c })

  unfoldable pub persist_document : Document → Action E State Document
  persist_document d = do
    id ← in_documents (db.documents.insert_one d)
    pure (record d { id = some id })

  -- `new ObjectId(id)` throws on a text that is none
  unfoldable pub find_document : String → Action E State (Option Document)
  find_document id =
      guard (db.is_object_id id) db.wrong_id >> in_documents (db.documents.find_one id)

  abbrev pub guard_id : Option String → Action E State ⊤
  guard_id none = pure tt
  guard_id (some id) = guard (db.is_object_id id) db.wrong_id

  unfoldable pub update_document : Document → Action E State Document
  update_document d = do guard_id d.id; in_documents (db.documents.update_where d); pure d

  -- `existing ?? Document.create(…)`
  unfoldable pub existing_or_new :
      IngestDocumentCommand B → Option Document → Action E State Document
  existing_or_new command (some existing) = pure existing
  existing_or_new command none = do
    now ← outside db.now
    pure (create_document command.file_name command.mime_type now)

  -- the document that is ingested: the stored one, or a new one
  unfoldable pub document_of : IngestDocumentCommand B → Action E State Document
  unfolding find_document persist_document existing_or_new
  document_of command =
      let id = or_else command.document_id "" in
      if not (text_eq id "")
      then find_document id >>= existing_or_new command
      else (existing_or_new command none >>= persist_document)

  -- `inspectInput`, whose block is thrown
  abbrev pub blocked : E
  blocked = ports.new_error "인제스트 차단: 의심스러운 지시문 패턴"

  -- `upsert`, which does nothing for no documents
  unfoldable pub store : List (VectorDocument V) → Action E State ⊤
  store [] = pure tt
  store (doc ∷ docs) = in_chunks (db.chunks.bulk_write (doc ∷ docs))

  -- the chunks of the document are deleted, and the new ones stored
  unfoldable pub replace_chunks : Document → List (VectorDocument V) → Action E State Document
  unfolding store
  replace_chunks document vector_docs = do
    in_chunks (db.chunks.delete_many document.id)
    store vector_docs
    pure (mark_processed document (length vector_docs))

  unfoldable pub ingest_text : IngestDocumentCommand B → Document → String → Action E State Document
  unfolding build_vector_docs replace_chunks
  ingest_text command document raw_text =
      guard (not (db.is_suspicious raw_text)) blocked
      >> (outside (build_vector_docs ports raw_text document.id command.file_name)
          >>= replace_chunks document)

  -- the body of the `try`, up to its last update
  unfoldable pub ingest : IngestDocumentCommand B → Document → Action E State Document
  unfolding ingest_text
  ingest command document =
      outside (db.extract_text command.buffer command.mime_type) >>= ingest_text command document

  -- After the body: `return this.documentRepo.update(processed)` is not awaited, so what it throws
  -- is not caught; the `catch` marks the document failed and throws on.
  unfoldable pub settle_ingest : Document → Result E Document × State → Result E Document × State
  unfolding update_document
  settle_ingest document (ok done, after) = update_document done after
  settle_ingest document (err e, after) = (update_document (mark_failed document) >> throw e) after

  unfoldable pub ingest_document : IngestDocumentCommand B → Document → Action E State Document
  unfolding ingest settle_ingest
  ingest_document command document s = settle_ingest document (ingest command document s)

  unfoldable pub execute_ingest : IngestDocumentCommand B → Action E State Document
  unfolding document_of ingest_document
  execute_ingest command = document_of command >>= ingest_document command
