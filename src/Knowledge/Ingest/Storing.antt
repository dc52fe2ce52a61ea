-- ===== src/Knowledge/Ingest/Storing.antt =====
-- How the chunks of a document are replaced.
use public_nest_server.Base.{
  ◌≡◌, sym, ap, ◌∙◌, List, [], ◌∷◌, length, String, not, Result, ok, err, Action, pure, guard,
  ◌>>=◌, arith, ⊤, >>=-eq-ok,
}
use public_nest_server.Knowledge.Document.{Document, mark_processed}
use public_nest_server.Knowledge.Vectors.{VectorDocument, upsert, delete_by_document_id}
use public_nest_server.Knowledge.Ingest.Building.{Ports, build_vector_docs}
use public_nest_server.Knowledge.Ingest.Outcomes.{chunks_of, guard-Keeps}
use public_nest_server.Knowledge.Ingest.{
  IngestDocumentCommand, Databases, State, outside, in_chunks, blocked, store, replace_chunks,
  ingest_text, ingest,
}

pub result_ok : {E A : Type 0} {a b : A} → Path (Result E A) (ok a) (ok b) → a ≡ b
result_ok h = ground arith

pub ok_not_err :
    {E A S : Type 0} {a : A} {e : E} {s t : S} → Path (Result E A × S) (ok a, s) (err e, t) → ⊥
ok_not_err h = ground arith

module _ {E W V B : Type 0} (ports : Ports E W V) (db : Databases E W V B) where
  outside_ok :
      {A : Type 0} (m : Action E W A) (s t : State ports db) (a : A)
      → outside ports db m s ≡ (ok a, t)
      → (m s.world ≡ (ok a, t.world)) × (t.chunks ≡ s.chunks)
  outside_ok m s t a h = (ap (λ p. (p.0, p.1.world)) h, ap (λ p. p.1.chunks) (sym h))

  in_chunks_ok :
      {A : Type 0} (m : Action E db.chunks.Store A) (s t : State ports db) (a : A)
      → in_chunks ports db m s ≡ (ok a, t)
      → m s.chunks ≡ (ok a, t.chunks)
  in_chunks_ok m s t a h = ap (λ p. (p.0, p.1.chunks)) h

  store_ok :
      (docs : List (VectorDocument V)) (s t : State ports db) (u : ⊤)
      → store ports db docs s ≡ (ok u, t)
      → db.chunks.content t.chunks ≡ upsert docs (db.chunks.content s.chunks)
  unfolding store upsert
  store_ok [] s t u h = ap (λ p. db.chunks.content p.1.chunks) (sym h)
  store_ok (doc ∷ docs) s t u h =
      db.chunks.write-ok (doc ∷ docs) s.chunks t.chunks u
        (in_chunks_ok (db.chunks.bulk_write (doc ∷ docs)) s t u h)

  replace_chunks_ok :
      (d done : Document) (docs : List (VectorDocument V)) (s t : State ports db)
      → replace_chunks ports db d docs s ≡ (ok done, t)
      → (done ≡ mark_processed d (length docs))
        × (db.chunks.content t.chunks
            ≡ upsert docs (delete_by_document_id d.id (db.chunks.content s.chunks)))
  unfolding replace_chunks
  replace_chunks_ok d done docs s t h =
      let finish : ⊤ → Action E (State ports db) Document =
        λ _. pure (mark_processed d (length docs)) in
      let removed = in_chunks ports db (db.chunks.delete_many d.id) in
      let (u, s₁, deleted, h₁) = >>=-eq-ok (λ _. store ports db docs >>= finish) removed s h in
      let (v, s₂, stored, h₂) = >>=-eq-ok finish (store ports db docs) s₁ h₁ in
      let emptied =
        db.chunks.delete-ok d.id s.chunks s₁.chunks u
          (in_chunks_ok (db.chunks.delete_many d.id) s s₁ u deleted) in
      (
        result_ok (ap (λ p. p.0) (sym h₂)),
        ap (λ p. db.chunks.content p.1.chunks) (sym h₂)
            ∙ store_ok docs s₁ s₂ v stored
            ∙ ap (upsert docs) emptied,
      )

  -- A body that went through has deleted the chunks of the document and stored those that it made
  -- of the text of the file.
  pub ingest_stored :
      (command : IngestDocumentCommand B) (d done : Document) (s t : State ports db)
      → ingest ports db command d s ≡ (ok done, t)
      → (text : String) × (docs : List (VectorDocument V)) × (w : W) × (w' : W) × (db.extract_text
            command.buffer command.mime_type s.world
          ≡ (ok text, w))
        × (build_vector_docs ports text d.id command.file_name w ≡ (ok docs, w'))
        × (done ≡ mark_processed d (length docs))
        × (db.chunks.content t.chunks
            ≡ upsert docs (delete_by_document_id d.id (db.chunks.content s.chunks)))
  unfolding ingest ingest_text
  ingest_stored command d done s t h =
      let extracted = outside ports db (db.extract_text command.buffer command.mime_type) in
      let (text, s₁, read, h₁) = >>=-eq-ok (ingest_text ports db command d) extracted s h in
      let allowed = guard (not (db.is_suspicious text)) (blocked ports db) in
      let built = outside ports db (build_vector_docs ports text d.id command.file_name) in
      let replaced = replace_chunks ports db d in
      let (u, s₂, passed, h₂) = >>=-eq-ok (λ _. built >>= replaced) allowed s₁ h₁ in
      let (docs, s₃, made, h₃) = >>=-eq-ok replaced built s₂ h₂ in
      let (build, same₃) =
        outside_ok (build_vector_docs ports text d.id command.file_name) s₂ s₃ docs made in
      let (count, stored) = replace_chunks_ok d done docs s₃ t h₃ in
      let same₂ : s₂.chunks ≡ s₁.chunks =
        ap (λ p. p.1.chunks) (sym passed)
        ∙ guard-Keeps ports db (chunks_of ports db) (not (db.is_suspicious text)) (blocked ports db)
            s₁ in
      let (extract, same₁) =
        outside_ok (db.extract_text command.buffer command.mime_type) s s₁ text read in
      let world : s₂.world ≡ s₁.world =
        ap (λ p. p.1.world) (sym passed)
        ∙ guard-Keeps ports db (λ s. s.world) (not (db.is_suspicious text)) (blocked ports db) s₁ in
      (
        text,
        docs,
        s₁.world,
        s₃.world,
        extract,
        ap (build_vector_docs ports text d.id command.file_name) (sym world) ∙ build,
        count,
        stored
            ∙ ap (λ c. upsert docs (delete_by_document_id d.id (db.chunks.content c)))
                (same₃ ∙ same₂ ∙ same₁),
      )
