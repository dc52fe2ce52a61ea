-- ===== src/Qa/Filtering.antt =====
-- AskUseCase.streamFiltered (application/ask.use-case.ts): an answer is passed on line by line, without
-- the lines that match a pattern and without repeated blank lines. The patterns are a parameter: a
-- test of a line.
pub mod Laws
use Prim.Native.Char.{Char, code}
use Prim.Native.String
use public_nest_server.Base.{
  ℕ, ◌+◌, ◌==◌, List, [], ◌∷◌, ◌++◌, String, Bool, not, ◌&&◌, ◌||◌, leb, text_eq, is_blank,
  if◌then◌else◌,
}

abbrev pub newline : String
newline = "\n"

-- a character in front of the first line
abbrev pub in_front : Char → List String × String → List String × String
in_front c ([], rest) = ([], String.◌∷◌ c rest)
in_front c (line ∷ lines, rest) = (String.◌∷◌ c line ∷ lines, rest)

-- `split('\n')`, with the last part, which `pop` takes off, on its own
unfoldable pub split_lines : String → List String × String
split_lines String.[] = ([], "")
split_lines (String.◌∷◌ c s) =
    let (lines, rest) = split_lines s in
    if code c == 10 then ("" ∷ lines, rest) else in_front c (lines, rest)

module _ (is_filtered_line : String → Bool) where
  -- the loop over the lines, with `consecutiveBlanks` before and after it
  unfoldable pub filter_lines : List String → ℕ → List String × ℕ
  filter_lines [] blanks = ([], blanks)
  filter_lines (line ∷ lines) blanks =
      let same = filter_lines lines blanks in
      let (after_blank, n) = filter_lines lines (blanks + 1) in
      let (after_text, k) = filter_lines lines 0 in
      if is_filtered_line line
      then same
      else (if is_blank line
          then ((if leb (blanks + 1) 1 then newline ∷ after_blank else after_blank), n)
          else (String.◌++◌ line newline ∷ after_text, k))

  -- what is left when the source has ended
  unfoldable pub filter_rest : String → List String
  filter_rest buffer =
      if not (text_eq buffer "") && not (is_filtered_line buffer) then buffer ∷ [] else []

  -- the loop over the tokens; where the source throws, nothing is left to yield
  unfoldable pub filter_tokens : Bool → List String → String → ℕ → List String
  unfolding filter_rest filter_lines split_lines
  filter_tokens ends [] buffer blanks = if ends then filter_rest buffer else []
  filter_tokens ends (token ∷ tokens) buffer blanks =
      let (lines, rest) = split_lines (String.◌++◌ buffer token) in
      let (out, n) = filter_lines lines blanks in out ++ filter_tokens ends tokens rest n

  abbrev pub stream_filtered : Bool → List String → List String
  stream_filtered ends tokens = filter_tokens ends tokens "" 0
