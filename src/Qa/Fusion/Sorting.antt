-- ===== src/Qa/Fusion/Sorting.antt =====
-- The order of a fusion: entries are sorted by their scores, best first, and none is lost.
use public_nest_server.Base.{
  ℕ, ◌≤◌, ◌≡◌, refl, ap, ◌∙◌, List, [], ◌∷◌, map, String, false, ◌||◌, leb, text_eq, if◌then◌else◌,
  arith, eq_iff, Bool-cases, inl, inr, All,
}
use public_nest_server.Llm.Models.{is_in, IsUnique}
use public_nest_server.Qa.Chunks.{SimilaritySearchResult}
use public_nest_server.Qa.Fusion.{ScoredDoc, place, sorted}

abbrev pub keys : List ScoredDoc → List String
keys entries = map (λ e. e.key) entries

-- The score under a key, 0 if there is none.
abbrev pub score_of : String → List ScoredDoc → ℕ
score_of m [] = 0
score_of m (e ∷ entries) = if text_eq m e.key then e.score else score_of m entries

-- Each entry is at least as good as all that follow.
abbrev pub IsRanked : List ScoredDoc → Type 0
IsRanked [] = Unit
IsRanked (e ∷ entries) = All (λ f. f.score ≤ e.score) entries × IsRanked entries

module _ (key_of : SimilaritySearchResult → String) (reciprocal : ℕ → ℕ) (k : ℕ) where
  is_in-place :
      (m : String) (e : ScoredDoc) (entries : List ScoredDoc)
      → is_in m (keys (place key_of reciprocal k e entries))
        ≡ text_eq m e.key || is_in m (keys entries)
  unfolding place
  is_in-place m e [] = refl
  is_in-place m e (f ∷ entries) = ground (arith, is_in-place m e entries)

  place-IsUnique :
      (e : ScoredDoc) (entries : List ScoredDoc)
      → is_in e.key (keys entries) ≡ false
      → IsUnique (keys entries)
      → IsUnique (keys (place key_of reciprocal k e entries))
  unfolding place
  place-IsUnique e [] new h = (refl, tt)
  place-IsUnique e (f ∷ entries) new (first, h) = ground (
    arith,
    is_in-place f.key e entries,
    place-IsUnique e entries,
    eq_iff e.key f.key,
    eq_iff f.key e.key,
  )

  score_of-place :
      (m : String) (e : ScoredDoc) (entries : List ScoredDoc)
      → is_in e.key (keys entries) ≡ false
      → score_of m (place key_of reciprocal k e entries) ≡ score_of m (e ∷ entries)
  unfolding place
  score_of-place m e [] new = refl
  score_of-place m e (f ∷ entries) new =
      ground (arith, score_of-place m e entries, eq_iff e.key f.key, eq_iff m e.key, eq_iff m f.key)

  pub place-All :
      (P : ScoredDoc → Type 0) (e : ScoredDoc) (entries : List ScoredDoc)
      → P e
      → All P entries
      → All P (place key_of reciprocal k e entries)
  unfolding place
  place-All P e [] p h = (p, tt)
  place-All P e (f ∷ entries) p (q, h) = elim (Bool-cases (leb f.score e.score)) [
    | inl here ↦ rw here (p, (q, h))
    | inr later ↦ rw later (q, place-All P e entries p h)
  ]

  All-lower :
      (low high : ℕ) (entries : List ScoredDoc)
      → low ≤ high
      → All (λ f. f.score ≤ low) entries
      → All (λ f. f.score ≤ high) entries
  All-lower low high [] le h = tt
  All-lower low high (f ∷ entries) le (p, h) = (omega arith, All-lower low high entries le h)

  place-IsRanked :
      (e : ScoredDoc) (entries : List ScoredDoc)
      → IsRanked entries
      → IsRanked (place key_of reciprocal k e entries)
  unfolding place
  place-IsRanked e [] h = (tt, tt)
  place-IsRanked e (f ∷ entries) (above, h) = elim (Bool-cases (leb f.score e.score)) [
    | inl here ↦
        let le : f.score ≤ e.score = ground arith in
        rw here ((le, All-lower f.score e.score entries le above), (above, h))
    | inr later ↦
        let le : e.score ≤ f.score = ground arith in
        rw later (place-All (λ g. g.score ≤ f.score) e entries le above, place-IsRanked e entries h)
  ]

  pub sorted-IsRanked : (entries : List ScoredDoc) → IsRanked (sorted key_of reciprocal k entries)
  unfolding sorted
  sorted-IsRanked [] = tt
  sorted-IsRanked (e ∷ entries) =
      place-IsRanked e (sorted key_of reciprocal k entries) (sorted-IsRanked entries)

  pub is_in-sorted :
      (m : String) (entries : List ScoredDoc)
      → is_in m (keys (sorted key_of reciprocal k entries)) ≡ is_in m (keys entries)
  unfolding sorted
  is_in-sorted m [] = refl
  is_in-sorted m (e ∷ entries) =
      is_in-place m e (sorted key_of reciprocal k entries)
      ∙ ap (λ b. text_eq m e.key || b) (is_in-sorted m entries)

  pub sorted-scores :
      (m : String) (entries : List ScoredDoc)
      → IsUnique (keys entries)
      → IsUnique (keys (sorted key_of reciprocal k entries))
        × (score_of m (sorted key_of reciprocal k entries) ≡ score_of m entries)
  unfolding sorted
  sorted-scores m [] h = (tt, refl)
  sorted-scores m (e ∷ entries) (new, h) =
      let rest : List ScoredDoc = sorted key_of reciprocal k entries in
      let (unique, same) = sorted-scores m entries h in
      let new' : is_in e.key (keys rest) ≡ false = is_in-sorted e.key entries ∙ new in
      (
        place-IsUnique e rest new' unique,
        score_of-place m e rest new' ∙ ap (λ n. if text_eq m e.key then e.score else n) same,
      )
