-- ===== src/Qa/Filtering/Laws.antt =====
-- What is passed on does not depend on how the answer was cut into tokens.
use Prim.Native.Char.{Char, code}
use Prim.Native.String
use mathlib.Core.List.{append_assoc}
use text.Mathlib.TextLemmas
use public_nest_server.Base.{
  ℕ, ◌+◌, ◌==◌, ◌≡◌, refl, sym, ap, ◌∙◌, List, [], ◌∷◌, ◌++◌, String, Bool, true, false, not, ◌&&◌,
  leb, text_eq, is_blank, if◌then◌else◌, arith, Bool-cases, inl, inr, ◌⊎◌, All, All-append,
}
use public_nest_server.Qa.Agentic.{joined}
use public_nest_server.Qa.Filtering.{
  newline, in_front, split_lines, filter_lines, filter_rest, filter_tokens, stream_filtered,
}

-- the lines and the rest of a text that follows another's
abbrev and_then : List String → List String × String → List String × String
and_then lines (more, rest) = (lines ++ more, rest)

in_front_step :
    (c : Char) (p q : List String × String) (t : String)
    → (code c == 10) ≡ false
    → q ≡ and_then p.0 (split_lines (String.◌++◌ p.1 t))
    → in_front c q ≡ and_then (in_front c p).0 (split_lines (String.◌++◌ (in_front c p).1 t))
unfolding split_lines
in_front_step c ([], rest) q t other h =
    rw (TextLemmas.cons-append c rest t) (rw other (ap (in_front c) h))
in_front_step c (line ∷ lines, rest) q t other h = ap (in_front c) h

split_lines-append :
    (s t : String)
    → split_lines (String.◌++◌ s t)
      ≡ and_then (split_lines s).0 (split_lines (String.◌++◌ (split_lines s).1 t))
unfolding split_lines
split_lines-append String.[] t = rw TextLemmas.nil-append refl
split_lines-append (String.◌∷◌ c s) t =
    let rest = split_lines-append s t in
    rw (TextLemmas.cons-append c s t) (elim (Bool-cases (code c == 10)) [
      | inl ends ↦ rw ends (ap (λ p. ("" ∷ p.0, p.1)) rest)
      | inr other ↦
          rw other (in_front_step c (split_lines s) (split_lines (String.◌++◌ s t)) t other rest)
    ])

-- A text without a line break is its own rest.
abbrev IsOneLine : String → Type 0
IsOneLine s = split_lines s ≡ ([], s)

in_front-IsOneLine :
    (c : Char) (p : List String × String)
    → (code c == 10) ≡ false
    → IsOneLine p.1
    → IsOneLine (in_front c p).1
unfolding split_lines
in_front-IsOneLine c ([], rest) other h = rw (other, h) refl
in_front-IsOneLine c (line ∷ lines, rest) other h = h

rest-IsOneLine : (s : String) → IsOneLine (split_lines s).1
unfolding split_lines
rest-IsOneLine String.[] = refl
rest-IsOneLine (String.◌∷◌ c s) = elim (Bool-cases (code c == 10)) [
  | inl ends ↦ rw ends (rest-IsOneLine s)
  | inr other ↦ rw other (in_front-IsOneLine c (split_lines s) other (rest-IsOneLine s))
]

module _ (is_filtered_line : String → Bool) where
  filter_lines-append :
      (xs ys : List String) (blanks : ℕ)
      → let first = filter_lines is_filtered_line xs blanks in
        filter_lines is_filtered_line (xs ++ ys) blanks ≡ (
          first.0 ++ (filter_lines is_filtered_line ys first.1).0,
          (filter_lines is_filtered_line ys first.1).1,
        )
  unfolding filter_lines
  filter_lines-append [] ys blanks = refl
  filter_lines-append (x ∷ xs) ys blanks = ground (
    arith,
    filter_lines-append xs ys blanks,
    filter_lines-append xs ys (blanks + 1),
    filter_lines-append xs ys 0,
  )

  -- A whole answer, cut into lines at once.
  abbrev pub filter_text : Bool → String → ℕ → List String
  filter_text ends text blanks =
      let (lines, rest) = split_lines text in
      (filter_lines is_filtered_line lines blanks).0
      ++ (if ends then filter_rest is_filtered_line rest else [])

  filter_tokens-joined :
      (ends : Bool) (tokens : List String) (buffer : String) (blanks : ℕ)
      → IsOneLine buffer
      → filter_tokens is_filtered_line ends tokens buffer blanks
        ≡ filter_text ends (String.◌++◌ buffer (joined tokens)) blanks
  unfolding filter_tokens joined
  filter_tokens-joined ends [] buffer blanks one = sym (
      ap (λ t. filter_text ends t blanks) (TextLemmas.append-nil buffer)
      ∙ ap
          (λ p.
            (filter_lines is_filtered_line p.0 blanks).0
            ++ (if ends then filter_rest is_filtered_line p.1 else []))
          one)
  filter_tokens-joined ends (token ∷ tokens) buffer blanks one =
      let text : String = String.◌++◌ buffer token in
      let cut : List String × String = split_lines text in
      let first : List String × ℕ = filter_lines is_filtered_line cut.0 blanks in
      let others : List String × String = split_lines (String.◌++◌ cut.1 (joined tokens)) in
      let rest = filter_tokens-joined ends tokens cut.1 first.1 (rest-IsOneLine text) in
      let last : List String = if ends then filter_rest is_filtered_line others.1 else [] in
      ap (λ l. first.0 ++ l) rest
      ∙ sym (append_assoc first.0 (filter_lines is_filtered_line others.0 first.1).0 last)
      ∙ sym (
          ap (λ t. filter_text ends t blanks)
            (sym (TextLemmas.append_assoc buffer token (joined tokens)))
          ∙ ap
              (λ p.
                (filter_lines is_filtered_line p.0 blanks).0
                ++ (if ends then filter_rest is_filtered_line p.1 else []))
              (split_lines-append text (joined tokens))
          ∙ ap (λ p. p.0 ++ last) (filter_lines-append cut.0 others.0 blanks))

  -- What is yielded: a line break for blank lines, a line that is not filtered, or the rest.
  abbrev pub IsPassed : String → String → Type 0
  IsPassed rest y =
      (y ≡ newline)
      ⊎ ((line : String) × (y ≡ String.◌++◌ line newline)
          × (is_filtered_line line ≡ false)
          × (is_blank line ≡ false))
      ⊎ ((y ≡ rest) × (is_filtered_line y ≡ false))

  filter_lines-IsPassed :
      (rest : String) (lines : List String) (blanks : ℕ)
      → All (IsPassed rest) (filter_lines is_filtered_line lines blanks).0
  unfolding filter_lines
  filter_lines-IsPassed rest [] blanks = tt
  filter_lines-IsPassed rest (line ∷ lines) blanks = elim (Bool-cases (is_filtered_line line)) [
    | inl bad ↦ rw bad (filter_lines-IsPassed rest lines blanks)
    | inr good ↦ elim (Bool-cases (is_blank line)) [
      | inr filled ↦
          rw (good, filled)
            (inr (inl (line, refl, good, filled)), filter_lines-IsPassed rest lines 0)
      | inl blank ↦ elim (Bool-cases (leb (blanks + 1) 1)) [
        | inl once ↦
            rw (good, blank, once) (inl refl, filter_lines-IsPassed rest lines (blanks + 1))
        | inr again ↦ rw (good, blank, again) (filter_lines-IsPassed rest lines (blanks + 1))
      ]
    ]
  ]

  filter_rest-IsPassed : (s : String) → All (IsPassed s) (filter_rest is_filtered_line s)
  unfolding filter_rest
  filter_rest-IsPassed s = elim (Bool-cases (not (text_eq s "") && not (is_filtered_line s))) [
    | inl kept ↦ rw kept (inr (inr (refl, ground arith)), tt)
    | inr dropped ↦ rw dropped tt
  ]

  filter_text-IsPassed :
      (ends : Bool) (text : String) (blanks : ℕ)
      → All (IsPassed (split_lines text).1) (filter_text ends text blanks)
  filter_text-IsPassed true text blanks =
      let cut = split_lines text in
      All-append (IsPassed cut.1) _ _ (filter_lines-IsPassed cut.1 cut.0 blanks)
        (filter_rest-IsPassed cut.1)
  filter_text-IsPassed false text blanks =
      let cut = split_lines text in
      All-append (IsPassed cut.1) _ _ (filter_lines-IsPassed cut.1 cut.0 blanks) tt

  -- What a client gets of an answer is the same however the answer was cut into tokens: the lines
  -- of the whole text, filtered. Each piece is a line break, a line that is neither blank nor
  -- filtered, or the rest of the text, if that is not filtered.
  pub stream_filtered-joined :
      (ends : Bool) (tokens : List String)
      → (stream_filtered is_filtered_line ends tokens ≡ filter_text ends (joined tokens) 0)
        × (stream_filtered is_filtered_line ends tokens
            ≡ stream_filtered is_filtered_line ends (joined tokens ∷ []))
        × All
            (IsPassed (split_lines (joined tokens)).1)
            (stream_filtered is_filtered_line ends tokens)
  unfolding split_lines joined
  stream_filtered-joined ends tokens =
      let whole : (ts : List String)
          → stream_filtered is_filtered_line ends ts ≡ filter_text ends (joined ts) 0 =
        λ ts.
          filter_tokens-joined ends ts "" 0 refl
          ∙ ap (λ t. filter_text ends t 0) (TextLemmas.nil-append (joined ts)) in
      (
        whole tokens,
        whole tokens
            ∙ sym (
                whole (joined tokens ∷ [])
                ∙ ap (λ t. filter_text ends t 0) (TextLemmas.append-nil (joined tokens))),
        rw (whole tokens) (filter_text-IsPassed ends (joined tokens) 0),
      )
