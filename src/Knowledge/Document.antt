-- ===== src/Knowledge/Document.antt =====
-- Documents (domain/model/document.ts), and their collection in MongoDB, on which
-- infrastructure/persistence/document.repository-impl.ts works, as a parameter.
use public_nest_server.Base.{
  ℕ, Option, none, some, or_else, List, [], ◌∷◌, String, Bool, false, text_eq, if◌then◌else◌,
  Action, ⊤, ◌≡◌, ok, err,
}

pub data DocumentStatus : Type 0 where
  pending : DocumentStatus
  processed : DocumentStatus
  failed : DocumentStatus

pub record Document : Type 0 where
  pub id : Option String
  pub file_name : String
  pub mime_type : String
  pub status : DocumentStatus
  pub chunk_count : ℕ
  pub created_at : ℕ

-- `Document.create`, of the present time
abbrev pub create_document : String → String → ℕ → Document
create_document file_name mime_type now = record {
  id = none;
  file_name = file_name;
  mime_type = mime_type;
  status = pending;
  chunk_count = 0;
  created_at = now;
}

abbrev pub mark_processed : Document → ℕ → Document
mark_processed d count = record d { status = processed; chunk_count = count }

abbrev pub mark_failed : Document → Document
mark_failed d = record d { status = failed; chunk_count = 0 }

-- `{ _id: new ObjectId(id) }`: an id that is not there finds nothing
abbrev pub has_object_id : Option String → Document → Bool
has_object_id none d = false
has_object_id (some id) d = text_eq (or_else d.id "") id

-- `update`: the status and the number of chunks of the first document with the id
unfoldable pub update_one : Document → List Document → List Document
update_one d [] = []
update_one d (old ∷ documents) =
    let rest = update_one d documents in
    if has_object_id d.id old
    then record old { status = d.status; chunk_count = d.chunk_count } ∷ documents
    else old ∷ rest

-- The collection: `insertOne`, which gives the new id, `findOne` and `updateOne` of an id. An update
-- that throws has changed nothing.
pub record Documents (E : Type 0) : Type 1 where
  pub Store : Type 0
  pub content : Store → List Document
  pub insert_one : Document → Action E Store String
  pub find_one : String → Action E Store (Option Document)
  pub update_where : Document → Action E Store ⊤
  pub update-ok :
      (d : Document) (s t : Store) (u : ⊤)
      → update_where d s ≡ (ok u, t)
      → content t ≡ update_one d (content s)
  pub update-err :
      (d : Document) (s t : Store) (e : E) → update_where d s ≡ (err e, t) → content t ≡ content s
