-- ===== src/Knowledge/Ingest/Outcomes.antt =====
-- How an ingestion ends.
use mathlib.Core.Path.{subst}
use public_nest_server.Base.{
  ◌≡◌, refl, sym, ap, ◌∙◌, Option, none, some, List, [], ◌∷◌, length, Bool, true, false, not,
  Result, ok, err, Action, pure, throw, guard, ◌>>=◌, ◌>>◌, arith, ⊤, inl, inr, ◌⊎◌, String,
}
use public_nest_server.Knowledge.Document.{Document, mark_processed, mark_failed, update_one}
use public_nest_server.Knowledge.Vectors.{VectorDocument}
use public_nest_server.Knowledge.Ingest.Building.{Ports, build_vector_docs}
use public_nest_server.Knowledge.Ingest.Steps.{Action-cases, >>=-ok, >>=-err, >>=-Keeps, Keeps}
use public_nest_server.Knowledge.Ingest.{
  IngestDocumentCommand, Databases, State, outside, in_documents, in_chunks, update_document,
  guard_id, document_of, blocked, store, replace_chunks, ingest_text, ingest, settle_ingest,
  ingest_document, execute_ingest,
}

module _ {E W V B : Type 0} (ports : Ports E W V) (db : Databases E W V B) where
  abbrev pub documents_of : State ports db → db.documents.Store
  documents_of s = s.documents

  abbrev pub chunks_of : State ports db → db.chunks.Store
  chunks_of s = s.chunks

  pub guard-Keeps :
      {X : Type 0} (part : State ports db → X) (b : Bool) (e : E) → Keeps part (guard b e)
  guard-Keeps part true e s = refl
  guard-Keeps part false e s = refl

  guard_id-Keeps :
      {X : Type 0} (part : State ports db → X) (id : Option String)
      → Keeps part (guard_id ports db id)
  guard_id-Keeps part none s = refl
  guard_id-Keeps part (some id) s = guard-Keeps part (db.is_object_id id) db.wrong_id s

  store-Keeps : (docs : List (VectorDocument V)) → Keeps documents_of (store ports db docs)
  unfolding store
  store-Keeps [] s = refl
  store-Keeps (doc ∷ docs) s = refl

  replace_chunks-Keeps :
      (d : Document) (docs : List (VectorDocument V))
      → Keeps documents_of (replace_chunks ports db d docs)
  unfolding replace_chunks
  replace_chunks-Keeps d docs =
      let deleted = in_chunks ports db (db.chunks.delete_many d.id) in
      let done : ⊤ → Action E (State ports db) Document =
        λ _. pure (mark_processed d (length docs)) in
      >>=-Keeps documents_of (λ _. store ports db docs >>= done) deleted (λ s. refl)
        (λ _. >>=-Keeps documents_of done (store ports db docs) (store-Keeps docs) (λ _ s. refl))

  ingest_text-Keeps :
      (command : IngestDocumentCommand B) (d : Document) (text : String)
      → Keeps documents_of (ingest_text ports db command d text)
  unfolding ingest_text
  ingest_text-Keeps command d text =
      let built = outside ports db (build_vector_docs ports text d.id command.file_name) in
      >>=-Keeps documents_of (λ _. built >>= replace_chunks ports db d)
        (guard (not (db.is_suspicious text)) (blocked ports db))
        (guard-Keeps documents_of (not (db.is_suspicious text)) (blocked ports db))
        (λ _.
          >>=-Keeps documents_of (replace_chunks ports db d) built (λ s. refl)
            (λ docs. replace_chunks-Keeps d docs))

  ingest-Keeps :
      (command : IngestDocumentCommand B) (d : Document)
      → Keeps documents_of (ingest ports db command d)
  unfolding ingest
  ingest-Keeps command d =
      >>=-Keeps documents_of (ingest_text ports db command d)
        (outside ports db (db.extract_text command.buffer command.mime_type)) (λ s. refl)
        (λ text. ingest_text-Keeps command d text)

  -- An update that answers changes the document's status and count, one that throws nothing.
  abbrev pub IsUpdated : Document → State ports db → Result E Document × State ports db → Type 0
  IsUpdated d s p =
      (p.1.chunks ≡ s.chunks)
      × (((p.0 ≡ ok d)
            × (db.documents.content p.1.documents
                ≡ update_one d (db.documents.content s.documents)))
          ⊎ ((x : E) × (p.0 ≡ err x)
              × (db.documents.content p.1.documents ≡ db.documents.content s.documents)))

  update_where-IsUpdated :
      (d : Document) (s : State ports db)
      → IsUpdated d s ((in_documents ports db (db.documents.update_where d) >> pure d) s)
  update_where-IsUpdated d s =
      let change = db.documents.update_where d in
      let changed = in_documents ports db change in
      let done : ⊤ → Action E (State ports db) Document = λ _. pure d in
      elim (Action-cases change s.documents) [
        | inr (x, t, fails) ↦
            let lifted : changed s ≡ (err x, record s { documents = t }) =
              ap (λ p. (p.0, record s { documents = p.1 })) fails in
            let end : (changed >> pure d) s ≡ (err x, record s { documents = t }) =
              >>=-err done changed s (record s { documents = t }) lifted in
            subst (IsUpdated d s) (sym end)
              (refl, inr (x, refl, db.documents.update-err d s.documents t x fails))
        | inl (u, t, answers) ↦
            let lifted : changed s ≡ (ok u, record s { documents = t }) =
              ap (λ p. (p.0, record s { documents = p.1 })) answers in
            let end : (changed >> pure d) s ≡ (ok d, record s { documents = t }) =
              >>=-ok done changed s (record s { documents = t }) lifted in
            subst (IsUpdated d s) (sym end)
              (refl, inl (refl, db.documents.update-ok d s.documents t u answers))
      ]

  update_document-IsUpdated :
      (d : Document) (s : State ports db) → IsUpdated d s (update_document ports db d s)
  unfolding update_document
  update_document-IsUpdated d s =
      let changed = in_documents ports db (db.documents.update_where d) in
      let guarded = guard_id ports db d.id in
      let rest : ⊤ → Action E (State ports db) Document = λ _. changed >> pure d in
      elim (Action-cases guarded s) [
        | inr (x, t, wrong) ↦
            let same : t ≡ s = ap (λ p. p.1) (sym wrong) ∙ guard_id-Keeps (λ s. s) d.id s in
            let end : update_document ports db d s ≡ (err x, t) = >>=-err rest guarded s t wrong in
            rw end
              (ap chunks_of same, inr (x, refl, ap (λ s. db.documents.content s.documents) same))
        | inl (u, t, right) ↦
            let same : t ≡ s = ap (λ p. p.1) (sym right) ∙ guard_id-Keeps (λ s. s) d.id s in
            let end : update_document ports db d s ≡ rest u t = >>=-ok rest guarded s t right in
            rw (end, same) (update_where-IsUpdated d s)
      ]

  -- How an ingestion ends by what its last update answered: an update that answers leaves the
  -- document as it was updated, and one that throws leaves the documents, and throws on.
  abbrev pub IsEnded :
      Result E Document
      → Result E Document
      → Document
      → State ports db
      → Result E Document × State ports db
      → Type 0
  IsEnded (ok u) outcome changed s p =
      (p.0 ≡ outcome)
      × (db.documents.content p.1.documents ≡ update_one changed (db.documents.content s.documents))
  IsEnded (err x) outcome changed s p =
      (p.0 ≡ err x) × (db.documents.content p.1.documents ≡ db.documents.content s.documents)

  pub IsEnded-ok :
      (answer : Result E Document) (changed d : Document) (s t : State ports db)
      → IsEnded answer (ok changed) changed s (ok d, t)
      → Path (Result E Document) (ok d) (ok changed)
  IsEnded-ok (ok u) changed d s t (same, documents) = same
  IsEnded-ok (err x) changed d s t (thrown, documents) = absurd (ground arith)

  pub IsEnded-err :
      (answer : Result E Document) (e : E) (changed d : Document) (s t : State ports db)
      → IsEnded answer (err e) changed s (ok d, t)
      → ⊥
  IsEnded-err (ok u) e changed d s t (thrown, documents) = ground arith
  IsEnded-err (err x) e changed d s t (thrown, documents) = ground arith

  -- How an ingestion of a document ends, after what the body of its `try` did: a body that threw
  -- marks the document failed and its exception is thrown on, a body that went through marks it
  -- processed; where that last update throws, its exception is thrown, and the document has the
  -- status it had.
  abbrev pub IsSettled :
      Document
      → State ports db
      → Result E Document × State ports db
      → Result E Document × State ports db
      → Type 0
  IsSettled d s body p = (p.1.chunks ≡ body.1.chunks) × elim body.0 [
    | ok done ↦ IsEnded (update_document ports db done body.1).0 (ok done) done s p
    | err e ↦
        IsEnded (update_document ports db (mark_failed d) body.1).0 (err e) (mark_failed d) s p
  ]

  -- What an update did to the documents, if they are those of another state.
  answered_documents :
      (d u : Document) (s t v : State ports db)
      → t.documents ≡ s.documents
      → IsUpdated d t (ok u, v)
      → db.documents.content v.documents ≡ update_one d (db.documents.content s.documents)
  answered_documents d u s t v same (chunks, inl (answer, documents)) =
      documents ∙ ap (λ x. update_one d (db.documents.content x)) same
  answered_documents d u s t v same (chunks, inr (x, answer, documents)) = absurd (ground arith)

  thrown_documents :
      (d : Document) (x : E) (s t v : State ports db)
      → t.documents ≡ s.documents
      → IsUpdated d t (err x, v)
      → db.documents.content v.documents ≡ db.documents.content s.documents
  thrown_documents d x s t v same (chunks, inl (answer, documents)) = absurd (ground arith)
  thrown_documents d x s t v same (chunks, inr (y, answer, documents)) =
      documents ∙ ap db.documents.content same

  updated-IsEnded :
      (d : Document) (s t : State ports db) (q : Result E Document × State ports db)
      → t.documents ≡ s.documents
      → IsUpdated d t q
      → IsEnded q.0 (ok d) d s q
  updated-IsEnded d s t (ok u, v) same (chunks, inl (answer, documents)) =
      (answer, answered_documents d u s t v same (chunks, inl (answer, documents)))
  updated-IsEnded d s t (ok u, v) same (chunks, inr (x, answer, documents)) = absurd (ground arith)
  updated-IsEnded d s t (err x, v) same updated = (refl, thrown_documents d x s t v same updated)

  settle_ingest-IsSettled :
      (d : Document) (s : State ports db) (body : Result E Document × State ports db)
      → body.1.documents ≡ s.documents
      → IsSettled d s body (settle_ingest ports db d body)
  unfolding settle_ingest
  settle_ingest-IsSettled d s (ok done, t) same =
      let updated = update_document-IsUpdated done t in
      (updated.0, updated-IsEnded done s t (update_document ports db done t) same updated)
  settle_ingest-IsSettled d s (err e, t) same =
      let failed = mark_failed d in
      let mark = update_document ports db failed in
      let thrown : Document → Action E (State ports db) Document = λ _. throw e in
      let Ends : Result E Document × State ports db → Type 0 =
        λ p. (p.1.chunks ≡ t.chunks) × IsEnded (mark t).0 (err e) failed s p in
      elim (Action-cases mark t) [
        | inr (x, v, wrong) ↦
            let updated : IsUpdated failed t (err x, v) =
              subst (IsUpdated failed t) wrong (update_document-IsUpdated failed t) in
            subst Ends (sym (>>=-err thrown mark t v wrong)) (
              updated.0,
              subst (λ q. IsEnded q.0 (err e) failed s (err x, v)) (sym wrong)
                  (refl, thrown_documents failed x s t v same updated),
            )
        | inl (u, v, right) ↦
            let updated : IsUpdated failed t (ok u, v) =
              subst (IsUpdated failed t) right (update_document-IsUpdated failed t) in
            subst Ends (sym (>>=-ok thrown mark t v right)) (
              updated.0,
              subst (λ q. IsEnded q.0 (err e) failed s (err e, v)) (sym right)
                  (refl, answered_documents failed u s t v same updated),
            )
      ]

  pub execute_ingest-IsSettled :
      (command : IngestDocumentCommand B) (d : Document) (s t : State ports db)
      → document_of ports db command s ≡ (ok d, t)
      → IsSettled d t (ingest ports db command d t) (execute_ingest ports db command s)
  unfolding execute_ingest ingest_document
  execute_ingest-IsSettled command d s t h =
      let end : execute_ingest ports db command s
          ≡ settle_ingest ports db d (ingest ports db command d t) =
        >>=-ok (ingest_document ports db command) (document_of ports db command) s t h in
      subst (IsSettled d t (ingest ports db command d t)) (sym end)
        (settle_ingest-IsSettled d t (ingest ports db command d t) (ingest-Keeps command d t))
