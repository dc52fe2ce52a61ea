-- ===== src/Knowledge/Ingest/Building.antt =====
-- buildVectorDocs and generateContextualPrefix of IngestDocumentUseCase
-- (application/ingest-document.use-case.ts), and Chunk.of (domain/vo/chunk.vo.ts). A text that is cut by
-- `substring` is the list of its UTF-16 code units.
pub mod Laws
use Prim.Native.String
use public_nest_server.Base.{
  ℕ, ◌+◌, ◌/◌, Option, none, some, or_else, List, [], ◌∷◌, ◌++◌, map, length, get_elem?, String,
  codes, Bool, is_space, is_blank, if◌then◌else◌, Result, ok, err, result_map, Action, pure, lift,
  ◌>>=◌,
}
use public_nest_server.Chat.Hash.{utf16_units}
use public_nest_server.Knowledge.Vectors.{VectorDocument}
use public_nest_server.Knowledge.Splitting.{split_by_paragraph_first, size}
use public_nest_server.Knowledge.Offsets.{
  offsets_from, compute_chunk_offsets, substring, local_context,
}

abbrev pub Units : Type 0
Units = List ℕ

unfoldable pub units : String → Units
unfolding utf16_units
units s = utf16_units (codes s)

-- The splitters, the models and the hash that the use case calls, and the setting
-- CONTEXTUAL_EMBEDDINGS_ENABLED.
pub record Ports (E W V : Type 0) : Type 0 where
  pub split_parent : String → Action E W (List String)
  pub split_child : String → Action E W (List String)
  pub embed : List Units → Action E W (List V)
  pub llm_stream : Units → Action E W (List Units)
  pub sha256 : String → String
  pub show : ℕ → String
  pub new_error : String → E
  pub contextual_embeddings_enabled : Bool

-- `trim` of code units
abbrev pub trim_start_units : Units → Units
trim_start_units [] = []
trim_start_units (c ∷ cs) = if is_space c then trim_start_units cs else c ∷ cs

abbrev pub or_nothing : ℕ → Units → Units
or_nothing c [] = if is_space c then [] else c ∷ []
or_nothing c (d ∷ rest) = c ∷ d ∷ rest

abbrev pub trim_end_units : Units → Units
trim_end_units [] = []
trim_end_units (c ∷ cs) = or_nothing c (trim_end_units cs)

unfoldable pub trim_units : Units → Units
unfolding is_space
trim_units cs = trim_end_units (trim_start_units cs)

abbrev pub joined_units : List Units → Units
joined_units [] = []
joined_units (token ∷ tokens) = token ++ joined_units tokens

-- `prefix ? prefix + '\n\n' + ct : ct`
abbrev pub with_prefix : Units → Units → Units
with_prefix [] text = text
with_prefix (c ∷ cs) text = (c ∷ cs) ++ 10 ∷ 10 ∷ text

-- `a || b` on texts
abbrev pub first_of : Units → Units → Units
first_of [] other = other
first_of (c ∷ cs) other = c ∷ cs

-- the beginning and the middle of a document
unfoldable pub doc_sample : Units → Units
unfolding units
doc_sample full_text =
    let mid = length full_text / 2 in
    substring 0 200 full_text ++ units "\n...\n" ++ substring mid (mid + 200) full_text

unfoldable pub context_prompt : String → Units → Units → Units
unfolding units doc_sample
context_prompt doc_title full_text context =
    units "<document>\n제목: "
    ++ units doc_title
    ++ units "\n대표 내용: "
    ++ doc_sample full_text
    ++ units "\n</document>\n\n위 문서에서 아래 청크의 핵심 내용을 1문장으로 설명하세요. 설명 문장만 출력하세요.\n\n<chunk>"
    ++ context
    ++ units "</chunk>"

module _ {E W V : Type 0} (ports : Ports E W V) where
  unfoldable pub generate_contextual_prefix : String → Units → Units → ℕ → Action E W Units
  unfolding context_prompt local_context trim_units
  generate_contextual_prefix doc_title full_text chunk_text chunk_offset = do
    tokens ←
        ports.llm_stream
          (context_prompt doc_title full_text (local_context full_text chunk_text chunk_offset))
    pure (trim_units (joined_units tokens))

  -- the prefixes of the parents, each with its offset; empty ones if they are turned off
  unfoldable pub context_prefixes : String → Units → List String → List ℕ → Action E W (List Units)
  unfolding generate_contextual_prefix units
  context_prefixes file_name raw_text [] offsets = pure []
  context_prefixes file_name raw_text (parent ∷ parents) [] = pure []
  context_prefixes file_name raw_text (parent ∷ parents) (offset ∷ offsets) = do
    prefix ←
        (if ports.contextual_embeddings_enabled
          then generate_contextual_prefix file_name raw_text (units parent) offset
          else pure [])
    rest ← context_prefixes file_name raw_text parents offsets
    pure (prefix ∷ rest)

  -- `${documentId}` of an id that may be missing
  abbrev pub document_id_text : Option String → String
  document_id_text id = or_else id "undefined"

  unfoldable pub parent_id : Option String → ℕ → String
  parent_id document_id pi =
      ports.sha256
        (String.◌++◌ (document_id_text document_id) (String.◌++◌ ":parent:" (ports.show pi)))

  unfoldable pub child_id : Option String → ℕ → String
  child_id document_id i =
      ports.sha256
        (String.◌++◌ (document_id_text document_id) (String.◌++◌ ":child:" (ports.show i)))

  -- the text that is embedded for a child
  unfoldable pub embedding_input : Units → String → String → Units
  unfolding trim_units units
  embedding_input context_prefix parent_text child_text =
      let parent_anchor = trim_units (substring 0 100 (units parent_text)) in
      with_prefix (first_of context_prefix parent_anchor) (units child_text)

  unfoldable pub child_doc :
      Option String → String → String → ℕ → ℕ → Option V → String → VectorDocument V
  unfolding child_id parent_id
  child_doc document_id file_name parent_text pi index embedding text = record {
    id = child_id document_id index;
    text = text;
    embedding = embedding;
    metadata = record {
      document_id = document_id;
      file_name = file_name;
      chunk_index = index;
      char_count = some (size text);
      parent_text = some parent_text;
      parent_chunk_id = some (parent_id document_id pi);
    };
  }

  -- the inner loop: `Chunk.of` throws on a blank text
  unfoldable pub child_docs :
      Option String
      → String
      → String
      → ℕ
      → List V
      → ℕ
      → ℕ
      → List String
      → Result E (List (VectorDocument V))
  unfolding child_doc is_blank
  child_docs document_id file_name parent_text pi embeddings ci index [] = ok []
  child_docs document_id file_name parent_text pi embeddings ci index (text ∷ texts) =
      let doc =
        child_doc document_id file_name parent_text pi index (get_elem? embeddings ci) text in
      let rest =
        child_docs document_id file_name parent_text pi embeddings (ci + 1) (index + 1) texts in
      if is_blank text
      then err (ports.new_error "청크 텍스트는 비어있을 수 없습니다.")
      else result_map (λ docs. doc ∷ docs) rest

  -- the outer loop, from the number of the first parent and of its first child
  unfoldable pub parent_docs :
      Option String
      → String
      → List String
      → List Units
      → ℕ
      → ℕ
      → Action E W (List (VectorDocument V))
  unfolding child_docs embedding_input
  parent_docs document_id file_name [] prefixes pi index = pure []
  parent_docs document_id file_name (parent_text ∷ parents) [] pi index = pure []
  parent_docs document_id file_name (parent_text ∷ parents) (context_prefix ∷ prefixes) pi index =
      do
        child_texts ← ports.split_child parent_text
        embeddings ← ports.embed (map (embedding_input context_prefix parent_text) child_texts)
        docs ← lift (child_docs document_id file_name parent_text pi embeddings 0 index child_texts)
        rest ←
            parent_docs document_id file_name parents prefixes (pi + 1) (index + length child_texts)
        pure (docs ++ rest)

  unfoldable pub build_vector_docs :
      String → Option String → String → Action E W (List (VectorDocument V))
  unfolding split_by_paragraph_first offsets_from context_prefixes parent_docs units
  build_vector_docs raw_text document_id file_name = do
    parent_texts ← split_by_paragraph_first ports.split_parent raw_text
    prefixes ←
        context_prefixes file_name (units raw_text) parent_texts
          (compute_chunk_offsets (units raw_text) (map units parent_texts))
    parent_docs document_id file_name parent_texts prefixes 0 0
