-- ===== src/Knowledge/Splitting.antt =====
-- IngestDocumentUseCase.splitByParagraphFirst (application/ingest-document.use-case.ts). The splitter
-- of langchain is a parameter.
pub mod Laws
pub mod Ink
use Prim.Native.Char.{Char, code}
use Prim.Native.String
use public_nest_server.Base.{
  ℕ, ◌==◌, List, [], ◌∷◌, ◌++◌, String, Bool, true, false, not, ◌&&◌, ◌||◌, keep, ltb, codes,
  is_space, is_blank, text_eq, Action, pure, ◌>>=◌, if◌then◌else◌,
}
use public_nest_server.Llm.Calls.{utf16_length}
use public_nest_server.Llm.Routing.{trim}

-- a character in front of the first part
abbrev pub in_front : Char → List String → List String
in_front c [] = String.◌∷◌ c "" ∷ []
in_front c (s ∷ parts) = String.◌∷◌ c s ∷ parts

abbrev pub is_break : Char → Char → Bool
is_break c d = code c == 10 && code d == 10

-- `text.split(/\f|\n\n/)`
unfoldable pub split_segments : String → List String
split_segments String.[] = "" ∷ []
split_segments (String.◌∷◌ c String.[]) =
    if code c == 12 then "" ∷ "" ∷ [] else String.◌∷◌ c "" ∷ []
split_segments (String.◌∷◌ c (String.◌∷◌ d s)) =
    let after_one = split_segments (String.◌∷◌ d s) in
    let after_two = split_segments s in
    if code c == 12
    then "" ∷ after_one
    else (if is_break c d then "" ∷ after_two else in_front c after_one)

-- the segments that are not blank
unfoldable pub segments_of : String → List String
unfolding split_segments is_blank
segments_of text = keep (λ s. not (is_blank s)) (split_segments text)

-- `s.length`
abbrev pub size : String → ℕ
size s = utf16_length (codes s)

abbrev pub chunk_size : ℕ
chunk_size = 1536

-- `current ? current + '\n\n' + seg : seg`
abbrev pub join_segment : String → String → String
join_segment current seg =
    if text_eq current "" then seg else String.◌++◌ current (String.◌++◌ "\n\n" seg)

-- the loop over the segments
unfoldable pub coarse_chunks : List String → String → List String
unfolding trim utf16_length
coarse_chunks [] current = if text_eq current "" then [] else trim current ∷ []
coarse_chunks (seg ∷ segments) current =
    let joined = join_segment current seg in
    let cut = trim current ∷ coarse_chunks segments seg in
    let more = coarse_chunks segments joined in
    if ltb chunk_size (size joined) && not (text_eq current "") then cut else more

module _ {E S : Type 0} (split_text : String → Action E S (List String)) where
  -- the loop over the coarse chunks
  unfoldable pub refine_chunks : List String → Action E S (List String)
  unfolding utf16_length
  refine_chunks [] = pure []
  refine_chunks (chunk ∷ chunks) = do
    pieces ← (if ltb chunk_size (size chunk) then split_text chunk else pure (chunk ∷ []))
    rest ← refine_chunks chunks
    pure (pieces ++ rest)

  unfoldable pub or_whole : String → List String → Action E S (List String)
  or_whole text [] = split_text text
  or_whole text (c ∷ result) = pure (c ∷ result)

  unfoldable pub split_by_paragraph_first : String → Action E S (List String)
  unfolding coarse_chunks segments_of refine_chunks or_whole
  split_by_paragraph_first text = do
    result ← refine_chunks (coarse_chunks (segments_of text) "")
    or_whole text result
