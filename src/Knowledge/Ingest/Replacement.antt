-- ===== src/Knowledge/Ingest/Replacement.antt =====
-- What an ingestion leaves in the collection of chunks.
use mathlib.Core.Path.{subst}
use public_nest_server.Base.{
  ◌≡◌, refl, sym, ap, ◌∙◌, Option, none, some, or_else, List, length, String, keep, not, text_eq,
  ok, err, Action, pure, guard, arith, inl, inr, Bool-cases,
}
use public_nest_server.Knowledge.Document.{
  Document, processed, create_document, mark_processed, mark_failed,
}
use public_nest_server.Knowledge.Splitting.{split_by_paragraph_first}
use public_nest_server.Knowledge.Vectors.{VectorDocument, delete_by_document_id, is_of}
use public_nest_server.Knowledge.Vectors.Laws.{upsert-delete_by_document_id}
use public_nest_server.Knowledge.Ingest.Building.{Ports}
use public_nest_server.Knowledge.Ingest.Building.Laws.{AreChunks, build_vector_docs-AreChunks}
use public_nest_server.Knowledge.Ingest.Steps.{Action-cases, >>=-err, >>=-Keeps, Keeps}
use public_nest_server.Knowledge.Ingest.Outcomes.{
  chunks_of, guard-Keeps, IsSettled, IsEnded-err, IsEnded-ok, execute_ingest-IsSettled,
}
use public_nest_server.Knowledge.Ingest.{
  IngestDocumentCommand, Databases, State, outside, in_documents, document_of, existing_or_new,
  find_document, persist_document, ingest, ingest_document, execute_ingest,
}
use public_nest_server.Knowledge.Ingest.Freshness.{AreApart, IsInjective, AreChunks-AreFresh}
use public_nest_server.Knowledge.Ingest.Storing.{result_ok, ok_not_err, ingest_stored}

module _ {E W V B : Type 0} (ports : Ports E W V) (db : Databases E W V B) where
  existing_or_new-Keeps :
      (command : IngestDocumentCommand B) (existing : Option Document)
      → Keeps (chunks_of ports db) (existing_or_new ports db command existing)
  unfolding existing_or_new
  existing_or_new-Keeps command (some d) s = refl
  existing_or_new-Keeps command none s =
      >>=-Keeps (chunks_of ports db)
        (λ now. pure (create_document command.file_name command.mime_type now))
        (outside ports db db.now) (λ s. refl) (λ now s. refl) s

  find_document-Keeps : (id : String) → Keeps (chunks_of ports db) (find_document ports db id)
  unfolding find_document
  find_document-Keeps id =
      >>=-Keeps (chunks_of ports db) (λ _. in_documents ports db (db.documents.find_one id))
        (guard (db.is_object_id id) db.wrong_id)
        (guard-Keeps ports db (chunks_of ports db) (db.is_object_id id) db.wrong_id) (λ _ s. refl)

  persist_document-Keeps : (d : Document) → Keeps (chunks_of ports db) (persist_document ports db d)
  unfolding persist_document
  persist_document-Keeps d =
      let named : String → Action E (State ports db) Document =
        λ id. pure (record d { id = some id }) in
      >>=-Keeps (chunks_of ports db) named (in_documents ports db (db.documents.insert_one d))
        (λ s. refl) (λ id s. refl)

  document_of-Keeps :
      (command : IngestDocumentCommand B)
      → Keeps (chunks_of ports db) (document_of ports db command)
  unfolding document_of
  document_of-Keeps command s =
      let id = or_else command.document_id "" in
      elim (Bool-cases (text_eq id "")) [
        | inl empty ↦ rw empty (
            >>=-Keeps (chunks_of ports db) (persist_document ports db)
              (existing_or_new ports db command none) (existing_or_new-Keeps command none)
              persist_document-Keeps s)
        | inr given ↦ rw given (
            >>=-Keeps (chunks_of ports db) (existing_or_new ports db command)
              (find_document ports db id) (find_document-Keeps id) (existing_or_new-Keeps command)
              s)
      ]

  -- The chunks of a document are those of the parents into which the text of its file is split, which
  -- is extracted from a state of the services on; they are exactly as many as it says, numbered from
  -- 0 on, and the chunks of every other document are what they were.
  abbrev pub IsIngested :
      IngestDocumentCommand B
      → W
      → List (VectorDocument V)
      → Document
      → List (VectorDocument V)
      → Type 0
  IsIngested command w before d after =
      let extracted = db.extract_text command.buffer command.mime_type w in
      (d.status ≡ processed)
      × ((docs : List (VectorDocument V)) × (text : String) × (parents : List String) × (extracted.0
            ≡ ok text)
          × ((split_by_paragraph_first ports.split_parent text extracted.1).0 ≡ ok parents)
          × (d.chunk_count ≡ length docs)
          × AreChunks ports parents d.id command.file_name 0 docs
          × (keep (is_of d.id) after ≡ docs)
          × (keep (λ r. not (is_of d.id r)) after ≡ keep (λ r. not (is_of d.id r)) before))

  -- The ids of the chunks of a document are distinct, and among some records none but its own have
  -- one of them.
  abbrev pub AreOwn : Document → List (VectorDocument V) → Type 0
  AreOwn d records =
      IsInjective ports d.id d.chunk_count
      × AreApart ports d.id 0 d.chunk_count (delete_by_document_id d.id records)

  ingest-IsIngested :
      (command : IngestDocumentCommand B) (d done : Document) (s t : State ports db)
      → AreOwn done (db.chunks.content s.chunks)
      → ingest ports db command d s ≡ (ok done, t)
      → IsIngested command s.world (db.chunks.content s.chunks) done (db.chunks.content t.chunks)
  ingest-IsIngested command d done s t own h =
      let before = db.chunks.content s.chunks in
      let (text, docs, w, w', read, built, count, stored) =
        ingest_stored ports db command d done s t h in
      let (parents, split, chunks) =
        build_vector_docs-AreChunks ports text d.id command.file_name docs w w' built in
      let (distinct, apart) : AreOwn (mark_processed d (length docs)) before =
        subst (λ x. AreOwn x before) count own in
      let (fresh, of_all) =
        AreChunks-AreFresh ports parents d.id command.file_name 0 (length docs) docs
          (delete_by_document_id d.id before) distinct (omega arith) apart chunks in
      let (exactly, others) = upsert-delete_by_document_id d.id docs before of_all fresh in
      subst (λ x. IsIngested command s.world before x (db.chunks.content t.chunks)) (sym count)
        (
          refl,
          (
            docs,
            text,
            parents,
            ap (λ p. p.0) read,
            ap (λ p. (split_by_paragraph_first ports.split_parent text p.1).0) read ∙ split,
            refl,
            chunks,
            ap (keep (is_of d.id)) stored ∙ exactly,
            ap (keep (λ r. not (is_of d.id r))) stored ∙ others,
          ),
        )

  settled-IsIngested :
      (command : IngestDocumentCommand B) (document d : Document) (s t : State ports db)
      → AreOwn d (db.chunks.content s.chunks)
      → IsSettled ports db document s (ingest ports db command document s) (ok d, t)
      → IsIngested command s.world (db.chunks.content s.chunks) d (db.chunks.content t.chunks)
  settled-IsIngested command document d s t own settled =
      let before = db.chunks.content s.chunks in
      elim (Action-cases (ingest ports db command document) s) [
        | inr (e, v, wrong) ↦
            let (chunks, ends) : IsSettled ports db document s (err e, v) (ok d, t) =
              subst (λ b. IsSettled ports db document s b (ok d, t)) wrong settled in
            absurd (IsEnded-err ports db _ e (mark_failed document) d s t ends)
        | inl (done, v, went) ↦
            let (chunks, ends) : IsSettled ports db document s (ok done, v) (ok d, t) =
              subst (λ b. IsSettled ports db document s b (ok d, t)) went settled in
            let same : d ≡ done = result_ok (IsEnded-ok ports db _ done d s t ends) in
            subst (λ c. IsIngested command s.world before d (db.chunks.content c)) (sym chunks)
              (subst (λ x. IsIngested command s.world before x (db.chunks.content v.chunks))
                (sym same)
                (ingest-IsIngested command document done s v (subst (λ x. AreOwn x before) same own)
                  went))
      ]

  -- An ingestion that returns a document has replaced its chunks by new ones: each has the number, id
  -- and size that are its own, and one of the parents into which the text of the file was split,
  -- numbered from 0 on, as many as the document, which is PROCESSED, says; the chunks of other
  -- documents are untouched. The condition is that the ids of these chunks are distinct, and that no
  -- chunk of another document has one of them.
  pub execute_ingest-IsIngested :
      (command : IngestDocumentCommand B) (d : Document) (s t : State ports db)
      → AreOwn d (db.chunks.content s.chunks)
      → execute_ingest ports db command s ≡ (ok d, t)
      → IsIngested command
          (document_of ports db command s).1.world
          (db.chunks.content s.chunks)
          d
          (db.chunks.content t.chunks)
  unfolding execute_ingest
  execute_ingest-IsIngested command d s t own h =
      let first = document_of ports db command in
      elim (Action-cases first s) [
        | inr (x, v, wrong) ↦
            absurd (ok_not_err (sym h ∙ >>=-err (ingest_document ports db command) first s v wrong))
        | inl (document, s₁, found) ↦
            let settled =
              subst (IsSettled ports db document s₁ (ingest ports db command document s₁)) h
                (execute_ingest-IsSettled ports db command document s s₁ found) in
            let kept : s₁.chunks ≡ s.chunks =
              ap (λ p. p.1.chunks) (sym found) ∙ document_of-Keeps command s in
            let world : s₁.world ≡ (first s).1.world = ap (λ p. p.1.world) (sym found) in
            subst
              (λ w.
                IsIngested command w (db.chunks.content s.chunks) d (db.chunks.content t.chunks))
              world
              (subst
                (λ c.
                  IsIngested command s₁.world (db.chunks.content c) d (db.chunks.content t.chunks))
                kept
                (settled-IsIngested command document d s₁ t
                  (subst (λ c. AreOwn d (db.chunks.content c)) (sym kept) own) settled))
      ]
