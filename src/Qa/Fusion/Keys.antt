-- ===== src/Qa/Fusion/Keys.antt =====
-- The chunks that a fusion returns, by their keys: those of the lists, none twice.
use mathlib.Core.Path.{subst}
use public_nest_server.Base.{
  ℕ, zero, suc, ◌+◌, ◌≡◌, refl, sym, ap, ◌∙◌, List, [], ◌∷◌, map, take, String, true, text_eq,
  arith, Bool-cases, inl, inr, All,
}
use public_nest_server.Llm.Models.{is_in, IsUnique}
use public_nest_server.Qa.Chunks.{SimilaritySearchResult}
use public_nest_server.Qa.Siblings.{chunk_key}
use public_nest_server.Qa.Fusion.{ScoredDoc, add_score, add_list, add_lists, sorted, ranked, fuse}
use public_nest_server.Qa.Fusion.Sorting.{keys, place-All}
use public_nest_server.Qa.Fusion.Scores.{occurs, ranked-Holds}

-- The beginning of a list, by the keys of its elements.
module _ {A : Type 0} (key : A → String) where
  pub is_in-take :
      (m : String) (n : ℕ) (xs : List A)
      → is_in m (map key (take n xs)) ≡ true
      → is_in m (map key xs) ≡ true
  is_in-take m zero xs h = absurd (ground arith)
  is_in-take m (suc n) [] h = h
  is_in-take m (suc n) (x ∷ xs) h = ground (arith, is_in-take m n xs)

  pub take-IsUnique : (n : ℕ) (xs : List A) → IsUnique (map key xs) → IsUnique (map key (take n xs))
  take-IsUnique zero xs h = tt
  take-IsUnique (suc n) [] h = tt
  take-IsUnique (suc n) (x ∷ xs) (new, h) =
      (ground (arith, is_in-take (key x) n xs), take-IsUnique n xs h)

module _ (show : ℕ → String) (reciprocal : ℕ → ℕ) (k : ℕ) where
  abbrev pub HasKey : ScoredDoc → Type 0
  HasKey e = e.key ≡ chunk_key show e.doc

  add_score-HasKey :
      (score : ℕ) (doc : SimilaritySearchResult) (entries : List ScoredDoc)
      → All HasKey entries
      → All HasKey (add_score (chunk_key show doc) score doc entries)
  unfolding add_score
  add_score-HasKey score doc [] h = (refl, tt)
  add_score-HasKey score doc (e ∷ entries) (p, h) =
      elim (Bool-cases (text_eq (chunk_key show doc) e.key)) [
        | inl same ↦ rw same (refl, h)
        | inr other ↦ rw other (p, add_score-HasKey score doc entries h)
      ]

  add_list-HasKey :
      (index : ℕ) (docs : List SimilaritySearchResult) (entries : List ScoredDoc)
      → All HasKey entries
      → All HasKey (add_list (chunk_key show) reciprocal k index docs entries)
  unfolding add_list
  add_list-HasKey index [] entries h = h
  add_list-HasKey index (doc ∷ docs) entries h =
      add_list-HasKey (index + 1) docs _
        (add_score-HasKey (reciprocal (k + index + 1)) doc entries h)

  add_lists-HasKey :
      (lists : List (List SimilaritySearchResult)) (entries : List ScoredDoc)
      → All HasKey entries
      → All HasKey (add_lists (chunk_key show) reciprocal k lists entries)
  unfolding add_lists
  add_lists-HasKey [] entries h = h
  add_lists-HasKey (list ∷ lists) entries h =
      add_lists-HasKey lists _ (add_list-HasKey 0 list entries h)

  sorted-HasKey :
      (entries : List ScoredDoc)
      → All HasKey entries
      → All HasKey (sorted (chunk_key show) reciprocal k entries)
  unfolding sorted
  sorted-HasKey [] h = tt
  sorted-HasKey (e ∷ entries) (p, h) =
      place-All (chunk_key show) reciprocal k HasKey e _ p (sorted-HasKey entries h)

  -- Chunks with a score have the keys of their entries.
  chunk_key-scored :
      (entries : List ScoredDoc)
      → All HasKey entries
      → map (chunk_key show) (map (λ e. record e.doc { score = e.score }) entries) ≡ keys entries
  unfolding chunk_key
  chunk_key-scored [] h = refl
  chunk_key-scored (e ∷ entries) (p, h) =
      ap (λ m. m ∷ map (chunk_key show) (map (λ e. record e.doc { score = e.score }) entries))
        (sym p)
      ∙ ap (λ l. e.key ∷ l) (chunk_key-scored entries h)

  chunk_key-fuse :
      (lists : List (List SimilaritySearchResult))
      → map (chunk_key show) (fuse (chunk_key show) reciprocal k lists)
        ≡ keys (ranked (chunk_key show) reciprocal k lists)
  unfolding fuse ranked
  chunk_key-fuse lists =
      chunk_key-scored (ranked (chunk_key show) reciprocal k lists)
        (sorted-HasKey _ (add_lists-HasKey lists [] tt))

  -- The first chunks of a fusion are chunks of its lists, and none of them comes twice.
  pub take_fuse-IsUnique :
      (n : ℕ) (lists : List (List SimilaritySearchResult))
      → IsUnique (map (chunk_key show) (take n (fuse (chunk_key show) reciprocal k lists)))
        × ((m : String)
            → is_in m (map (chunk_key show) (take n (fuse (chunk_key show) reciprocal k lists)))
              ≡ true
            → occurs (chunk_key show) reciprocal k m lists ≡ true)
  take_fuse-IsUnique n lists =
      let whole = fuse (chunk_key show) reciprocal k lists in
      let same = chunk_key-fuse lists in
      (
        take-IsUnique (chunk_key show) n whole (
            subst IsUnique (sym same)
              (ranked-Holds (chunk_key show) reciprocal k "" lists).0.unique),
        λ m h.
            sym (ranked-Holds (chunk_key show) reciprocal k m lists).0.complete
            ∙ ap (is_in m) (sym same)
            ∙ is_in-take (chunk_key show) m n whole h,
      )
