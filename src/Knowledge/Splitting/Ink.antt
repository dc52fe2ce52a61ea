-- ===== src/Knowledge/Splitting/Ink.antt =====
-- What is not white space in a text, through the steps of a cut.
use Prim.Native.Char.{Char, code}
use Prim.Native.String
use mathlib.Core.List.{append_assoc}
use text.Mathlib.TextLemmas
use public_nest_server.Base.{
  ℕ, ◌==◌, ◌≡◌, refl, sym, ap, ◌∙◌, List, [], ◌∷◌, ◌++◌, String, true, not, ◌&&◌, ◌||◌, keep, ltb,
  codes, is_space, is_blank, text_eq, eq_iff, if◌then◌else◌, arith, Bool-cases, inl, inr,
}
use public_nest_server.Llm.Routing.{trim_start, trim_end, trim}
use public_nest_server.Knowledge.Splitting.{
  in_front, is_break, split_segments, segments_of, size, chunk_size, join_segment, coarse_chunks,
}

-- The characters of a text that are not white space.
abbrev pub ink : List ℕ → List ℕ
ink [] = []
ink (c ∷ cs) = if is_space c then ink cs else c ∷ ink cs

abbrev pub ink_of : String → List ℕ
ink_of s = ink (codes s)

abbrev pub ink_of_all : List String → List ℕ
ink_of_all [] = []
ink_of_all (s ∷ texts) = ink_of s ++ ink_of_all texts

ink_of-append : (s t : String) → ink_of (String.◌++◌ s t) ≡ ink_of s ++ ink_of t
ink_of-append String.[] t = rw TextLemmas.nil-append refl
ink_of-append (String.◌∷◌ c s) t =
    let rest = ink_of-append s t in rw (TextLemmas.cons-append c s t) (ground arith)

ink_of-trim_start : (s : String) → ink_of (trim_start s) ≡ ink_of s
unfolding trim_start
ink_of-trim_start String.[] = refl
ink_of-trim_start (String.◌∷◌ c s) = let rest = ink_of-trim_start s in ground arith

ink_of-trim_end : (s : String) → ink_of (trim_end s) ≡ ink_of s
unfolding trim_end
ink_of-trim_end String.[] = refl
ink_of-trim_end (String.◌∷◌ c s) =
    let rest = ink_of-trim_end s in
    elim (Bool-cases (text_eq (trim_end s) "" && is_space (code c))) [
      | inr kept ↦ rw kept (ground arith)
      | inl cut ↦
          let empty : trim_end s ≡ "" = (eq_iff (trim_end s) "").0 (ground arith) in
          let nothing : ink_of s ≡ [] = sym rest ∙ ap ink_of empty in
          let space : is_space (code c) ≡ true = ground arith in rw (cut, space) (sym nothing)
    ]

ink_of-trim : (s : String) → ink_of (trim s) ≡ ink_of s
unfolding trim
ink_of-trim s = ink_of-trim_end (trim_start s) ∙ ink_of-trim_start s

space_of_break : (c : ℕ) → (c == 10) || (c == 12) ≡ true → is_space c ≡ true
unfolding is_space
space_of_break c h = ground arith

ink_of_all-in_front :
    (c : Char) (parts : List String)
    → ink_of_all (in_front c parts)
      ≡ (if is_space (code c) then ink_of_all parts else code c ∷ ink_of_all parts)
ink_of_all-in_front c [] = ground arith
ink_of_all-in_front c (s ∷ parts) = ground arith

ink_of_all-split_segments : (text : String) → ink_of_all (split_segments text) ≡ ink_of text
unfolding split_segments
ink_of_all-split_segments String.[] = refl
ink_of_all-split_segments (String.◌∷◌ c String.[]) = ground (arith, space_of_break (code c))
ink_of_all-split_segments (String.◌∷◌ c (String.◌∷◌ d s)) =
    let one = ink_of_all-split_segments (String.◌∷◌ d s) in
    let two = ink_of_all-split_segments s in
    let front = ink_of_all-in_front c (split_segments (String.◌∷◌ d s)) in
    elim (Bool-cases (code c == 12)) [
      | inl feed ↦ rw feed (ground (arith, space_of_break (code c)))
      | inr other ↦ elim (Bool-cases (is_break c d)) [
        | inl both ↦
            rw (other, both) (ground (arith, space_of_break (code c), space_of_break (code d)))
        | inr neither ↦
            rw (other, neither) (front ∙ ap (λ l. if is_space (code c) then l else code c ∷ l) one)
      ]
    ]

ink_of_blank : (s : String) → is_blank s ≡ true → ink_of s ≡ []
unfolding is_blank
ink_of_blank String.[] h = refl
ink_of_blank (String.◌∷◌ c s) h = ground (arith, ink_of_blank s)

ink_of_all-keep :
    (parts : List String) → ink_of_all (keep (λ s. not (is_blank s)) parts) ≡ ink_of_all parts
ink_of_all-keep [] = refl
ink_of_all-keep (s ∷ parts) =
    let rest = ink_of_all-keep parts in
    elim (Bool-cases (is_blank s)) [
      | inl blank ↦ rw blank (rest ∙ ap (λ l. l ++ ink_of_all parts) (sym (ink_of_blank s blank)))
      | inr text ↦ rw text (ap (λ l. ink_of s ++ l) rest)
    ]

ink_of-join_segment :
    (current seg : String) → ink_of (join_segment current seg) ≡ ink_of current ++ ink_of seg
unfolding is_space
ink_of-join_segment current seg = elim (Bool-cases (text_eq current "")) [
  | inl empty ↦
      let nothing : ink_of current ≡ [] = ap ink_of ((eq_iff current "").0 empty) in
      rw empty (ap (λ l. l ++ ink_of seg) (sym nothing))
  | inr some_text ↦ rw some_text (
      ink_of-append current (String.◌++◌ "\n\n" seg)
      ∙ ap (λ l. ink_of current ++ l) (ink_of-append "\n\n" seg))
]

-- Joining the paragraphs into coarse chunks loses no visible character.
ink_of_all-coarse_chunks :
    (segments : List String) (current : String)
    → ink_of_all (coarse_chunks segments current) ≡ ink_of current ++ ink_of_all segments
unfolding coarse_chunks
ink_of_all-coarse_chunks [] current = elim (Bool-cases (text_eq current "")) [
  | inl empty ↦
      let nothing : ink_of current ≡ [] = ap ink_of ((eq_iff current "").0 empty) in
      rw empty (ap (λ l. l ++ []) (sym nothing))
  | inr some_text ↦ rw some_text (ap (λ l. l ++ []) (ink_of-trim current))
]
ink_of_all-coarse_chunks (seg ∷ segments) current =
    let joined : String = join_segment current seg in
    elim (Bool-cases (ltb chunk_size (size joined) && not (text_eq current ""))) [
      | inl cut ↦ rw cut (
          ap (λ l. l ++ ink_of_all (coarse_chunks segments seg)) (ink_of-trim current)
          ∙ ap (λ l. ink_of current ++ l) (ink_of_all-coarse_chunks segments seg))
      | inr more ↦ rw more (
          ink_of_all-coarse_chunks segments joined
          ∙ ap (λ l. l ++ ink_of_all segments) (ink_of-join_segment current seg)
          ∙ append_assoc (ink_of current) (ink_of seg) (ink_of_all segments))
    ]

-- Cutting a text at its form feeds and empty lines, dropping the blank parts and joining the others
-- up to the size of a chunk loses and adds no visible character, and keeps their order.
pub coarse_ink : (text : String) → ink_of_all (coarse_chunks (segments_of text) "") ≡ ink_of text
unfolding segments_of
coarse_ink text =
    ink_of_all-coarse_chunks (segments_of text) ""
    ∙ ink_of_all-keep (split_segments text)
    ∙ ink_of_all-split_segments text
