-- ===== src/Knowledge/Tests.antt =====
-- The ingestion of a small document, with ports that keep nothing and never fail.
use Prim.Native.String
use public_nest_server.Base.{
  length-codes, ℕ, zero, suc, ◌+◌, ◌≡◌, ◌≢◌, refl, sym, ap, ◌∙◌, Option, none, some, List, [], ◌∷◌,
  ◌++◌, map, length, String, false, text_eq, eq_iff, codes, ok, err, Result, Action, pure, arith, ⊤,
  All, not,
}
use public_nest_server.Llm.Calls.{utf16_length}
use public_nest_server.Knowledge.Splitting.{split_by_paragraph_first, coarse_chunks, segments_of}
use public_nest_server.Knowledge.Splitting.Laws.{IsShort, split_by_paragraph_first-IsShort}
use public_nest_server.Knowledge.Splitting.Ink.{ink_of, ink_of_all}
use public_nest_server.Knowledge.Document.{Document, Documents, pending, processed, update_one}
use public_nest_server.Knowledge.Vectors.{VectorDocument, Chunks, upsert, delete_by_document_id}
use public_nest_server.Knowledge.Ingest.Building.{Ports, document_id_text, child_id}
use public_nest_server.Knowledge.Ingest.{
  IngestDocumentCommand, Databases, State, document_of, execute_ingest,
}
use public_nest_server.Knowledge.Ingest.Freshness.{IsInjective}
use public_nest_server.Knowledge.Ingest.Replacement.{IsIngested, AreOwn, execute_ingest-IsIngested}

-- a splitter that always cuts the same pieces
abbrev halves : String → Action String ℕ (List String)
halves text s = (ok ("one" ∷ "two" ∷ []), s)

halves-IsShort :
    (text : String) (pieces : List String) (s : ℕ)
    → (halves text s).0 ≡ ok pieces
    → All IsShort pieces
unfolding utf16_length
halves-IsShort text pieces s h =
    let same : pieces ≡ "one" ∷ "two" ∷ [] = ground arith in
    rw same (omega arith, (omega arith, tt))

-- A number as so many marks.
abbrev marks : ℕ → String
marks zero = ""
marks (suc n) = String.◌++◌ "i" (marks n)

length-marks : (n : ℕ) → length (codes (marks n)) ≡ n
length-marks zero = refl
length-marks (suc n) =
    let rest = length-marks n in let both = length-codes "i" (marks n) in ground arith

abbrev ports : Ports String ℕ ℕ
ports = record {
  split_parent = halves;
  split_child = halves;
  embed = λ inputs. pure (map length inputs);
  llm_stream = λ prompt. pure [];
  sha256 = λ s. s;
  show = marks;
  new_error = λ s. s;
  contextual_embeddings_enabled = false;
}

cons_visible : (c : ℕ) (cs : List ℕ) → c ∷ cs ≢ []
cons_visible c cs h = ground arith

length-child_id :
    (id : Option String) (i : ℕ)
    → length (codes (child_id ports id i)) ≡ length (codes (document_id_text ports id)) + (7 + i)
unfolding child_id
length-child_id id i =
    length-codes (document_id_text ports id) (String.◌++◌ ":child:" (marks i))
    ∙ ap (λ n. length (codes (document_id_text ports id)) + n)
        (length-codes ":child:" (marks i) ∙ ap (λ n. 7 + n) (length-marks i))

ports-IsInjective : (id : Option String) (limit : ℕ) → IsInjective ports id limit
ports-IsInjective id limit i j below inside same =
    let equal = (eq_iff (child_id ports id i) (child_id ports id j)).0 same in
    let lengths =
      sym (length-child_id id i) ∙ ap (λ s. length (codes s)) equal ∙ length-child_id id j in
    omega arith

no_error :
    {S : Type 0} {s t : S} {u : ⊤} {e : String}
    → Path (Result String ⊤ × S) (ok u, s) (err e, t)
    → ⊥
no_error h = ground arith

abbrev documents : Documents String
documents = record {
  Store = List Document;
  content = λ s. s;
  insert_one = λ d s. (ok "d", s ++ (record d { id = some "d" } ∷ []));
  find_one = λ id s. (ok none, s);
  update_where = λ d s. (ok tt, update_one d s);
  update-ok = λ d s t u h. ap (λ p. p.1) (sym h);
  update-err = λ d s t e h. absurd (no_error h);
}

abbrev chunks : Chunks String ℕ
chunks = record {
  Store = List (VectorDocument ℕ);
  content = λ s. s;
  delete_many = λ id s. (ok tt, delete_by_document_id id s);
  bulk_write = λ docs s. (ok tt, upsert docs s);
  delete-ok = λ id s t u h. ap (λ p. p.1) (sym h);
  write-ok = λ docs s t u h. ap (λ p. p.1) (sym h);
}

abbrev db : Databases String ℕ ℕ String
db = record {
  documents = documents;
  chunks = chunks;
  is_object_id = λ id. not (text_eq id "");
  wrong_id = "wrong id";
  now = λ n. (ok 7, n);
  extract_text = λ text mime. pure text;
  is_suspicious = λ text. text_eq text "ignore all";
}

abbrev upload : IngestDocumentCommand String
upload = record { file_name = "f"; mime_type = "text/plain"; buffer = "Hello"; document_id = none }

abbrev empty_state : State ports db
empty_state = record { documents = []; chunks = []; world = 0 }

abbrev stored : Document
stored = record {
  id = some "d";
  file_name = "f";
  mime_type = "text/plain";
  status = pending;
  chunk_count = 0;
  created_at = 7;
}

abbrev ended : Result String Document × State ports db
ended = execute_ingest ports db upload empty_state

run : ended.0 ≡ ok (record stored { status = processed; chunk_count = 2 })
unfolding execute_ingest update_one delete_by_document_id upsert
run = refl

split_by_paragraph_first-IsShort_example :
    All IsShort ("Hello" ∷ [])
    × (All IsShort (coarse_chunks (segments_of "Hello") "")
        → ink_of "Hello" ≢ []
        → ink_of_all ("Hello" ∷ []) ≡ ink_of "Hello")
unfolding split_by_paragraph_first
split_by_paragraph_first-IsShort_example =
    split_by_paragraph_first-IsShort halves halves-IsShort "Hello" ("Hello" ∷ []) 0 refl

ids_own : AreOwn ports db (record stored { status = processed; chunk_count = 2 }) []
unfolding delete_by_document_id
ids_own = (ports-IsInjective (some "d") 2, tt)

execute_ingest-IsIngested_example :
    IsIngested ports db upload
      (document_of ports db upload empty_state).1.world
      []
      (record stored { status = processed; chunk_count = 2 })
      ended.1.chunks
execute_ingest-IsIngested_example =
    execute_ingest-IsIngested ports db upload
      (record stored { status = processed; chunk_count = 2 }) empty_state ended.1 ids_own
      (ap (λ r. (r, ended.1)) run)
