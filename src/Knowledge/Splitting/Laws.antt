-- ===== src/Knowledge/Splitting/Laws.antt =====
-- Cutting a text by its paragraphs loses no visible character, and no piece is too long.
use public_nest_server.Base.{
  ◌≤◌, ◌≡◌, ◌≢◌, sym, ap, ◌∙◌, List, [], ◌∷◌, ◌++◌, String, ltb, arith, Bool-cases, inl, inr, All,
  All-append, ok, Result-cases, Action,
}
use public_nest_server.Knowledge.Splitting.{
  segments_of, size, chunk_size, coarse_chunks, refine_chunks, or_whole, split_by_paragraph_first,
}
use public_nest_server.Knowledge.Splitting.Ink.{ink_of, ink_of_all, coarse_ink}

abbrev pub IsShort : String → Type 0
IsShort s = size s ≤ chunk_size

module _ {E S : Type 0} (split_text : String → Action E S (List String))
    (bounded : (text : String) (pieces : List String) (s : S)
      → (split_text text s).0 ≡ ok pieces
      → All IsShort pieces) where
  refine_chunks-IsShort :
      (chunks pieces : List String) (s : S)
      → (refine_chunks split_text chunks s).0 ≡ ok pieces
      → All IsShort pieces × (All IsShort chunks → pieces ≡ chunks)
  unfolding refine_chunks
  refine_chunks-IsShort [] pieces s h =
      let none : pieces ≡ [] = ground arith in (rw none tt, λ short. none)
  refine_chunks-IsShort (chunk ∷ chunks) pieces s h =
      elim (Bool-cases (ltb chunk_size (size chunk))) [
        | inr fits ↦ elim (Result-cases (refine_chunks split_text chunks s).0) [
          | inr (x, e) ↦ absurd (ground arith)
          | inl (rest, e) ↦
              let (all, same) = refine_chunks-IsShort chunks rest s e in
              let end : pieces ≡ chunk ∷ rest = ground arith in
              let short : size chunk ≤ chunk_size = ground arith in
              (rw end (short, all), λ (here, others). end ∙ ap (λ l. chunk ∷ l) (same others))
        ]
        | inl long ↦ elim (Result-cases (split_text chunk s).0) [
          | inr (x, e) ↦ absurd (ground arith)
          | inl (cut, e) ↦
              elim (Result-cases (refine_chunks split_text chunks (split_text chunk s).1).0) [
                | inr (x, e₂) ↦ absurd (ground arith)
                | inl (rest, e₂) ↦
                    let (all, same) = refine_chunks-IsShort chunks rest (split_text chunk s).1 e₂ in
                    let end : pieces ≡ cut ++ rest = ground arith in
                    (
                      rw end (All-append IsShort cut rest (bounded chunk cut s e) all),
                      λ (here, others). absurd (ground arith),
                    )
              ]
        ]
      ]

  or_whole-IsShort :
      (text : String) (result pieces : List String) (s : S)
      → All IsShort result
      → (or_whole split_text text result s).0 ≡ ok pieces
      → All IsShort pieces
  unfolding or_whole
  or_whole-IsShort text [] pieces s short h = bounded text pieces s h
  or_whole-IsShort text (c ∷ result) pieces s short h =
      let same : pieces ≡ c ∷ result = ground arith in rw same short

  or_whole-ink :
      (text : String) (result pieces : List String) (s : S)
      → (or_whole split_text text result s).0 ≡ ok pieces
      → ink_of_all result ≡ ink_of text
      → ink_of text ≢ []
      → ink_of_all pieces ≡ ink_of text
  unfolding or_whole
  or_whole-ink text [] pieces s h same visible = absurd (visible (sym same))
  or_whole-ink text (c ∷ result) pieces s h same visible =
      let end : pieces ≡ c ∷ result = ground arith in ap ink_of_all end ∙ same

  -- A text that is cut without an exception gives chunks of at most 1536 code units, if the splitter
  -- keeps to that size; and where no run of paragraphs is longer, the chunks have the visible
  -- characters of the text, in order, each once.
  pub split_by_paragraph_first-IsShort :
      (text : String) (pieces : List String) (s : S)
      → (split_by_paragraph_first split_text text s).0 ≡ ok pieces
      → All IsShort pieces
        × (All IsShort (coarse_chunks (segments_of text) "")
            → ink_of text ≢ []
            → ink_of_all pieces ≡ ink_of text)
  unfolding split_by_paragraph_first
  split_by_paragraph_first-IsShort text pieces s h =
      let coarse : List String = coarse_chunks (segments_of text) "" in
      let refined = refine_chunks split_text coarse s in
      elim (Result-cases refined.0) [
        | inr (x, e) ↦ absurd (ground arith)
        | inl (result, e) ↦
            let (all, same) = refine_chunks-IsShort coarse result s e in
            let end : (split_by_paragraph_first split_text text s).0
                ≡ (or_whole split_text text result refined.1).0 =
              ground arith in
            (
              or_whole-IsShort text result pieces refined.1 all (sym end ∙ h),
              λ short visible.
                  or_whole-ink text result pieces refined.1 (sym end ∙ h)
                    (ap ink_of_all (same short) ∙ coarse_ink text) visible,
            )
      ]
