-- ===== src/Qa/Fusion/Scores.antt =====
-- What a fusion of ranked lists returns: every document of the lists once, with the sum of the
-- reciprocals of its ranks, best first.
use public_nest_server.Base.{
  ℕ, ◌+◌, ◌≡◌, refl, ap, ◌∙◌, List, [], ◌∷◌, map, String, Bool, false, ◌||◌, text_eq, if◌then◌else◌,
  arith, eq_iff,
}
use public_nest_server.Llm.Models.{is_in, IsUnique}
use public_nest_server.Qa.Chunks.{SimilaritySearchResult}
use public_nest_server.Qa.Fusion.{ScoredDoc, add_score, add_list, add_lists, ranked}
use public_nest_server.Qa.Fusion.Sorting.{
  keys, score_of, IsRanked, sorted-IsRanked, is_in-sorted, sorted-scores,
}

is_in-add_score :
    (m key : String) (score : ℕ) (doc : SimilaritySearchResult) (entries : List ScoredDoc)
    → is_in m (keys (add_score key score doc entries)) ≡ is_in m (keys entries) || text_eq m key
unfolding add_score
is_in-add_score m key score doc [] = ground arith
is_in-add_score m key score doc (e ∷ entries) =
    ground (
      arith,
      is_in-add_score m key score doc entries,
      eq_iff key e.key,
      eq_iff m key,
      eq_iff m e.key,
    )

add_score-IsUnique :
    (key : String) (score : ℕ) (doc : SimilaritySearchResult) (entries : List ScoredDoc)
    → IsUnique (keys entries)
    → IsUnique (keys (add_score key score doc entries))
unfolding add_score
add_score-IsUnique key score doc [] h = (refl, tt)
add_score-IsUnique key score doc (e ∷ entries) (new, h) = ground (
  arith,
  is_in-add_score e.key key score doc entries,
  add_score-IsUnique key score doc entries h,
  eq_iff key e.key,
  eq_iff e.key key,
)

score_of-add_score :
    (m key : String) (score : ℕ) (doc : SimilaritySearchResult) (entries : List ScoredDoc)
    → score_of m (add_score key score doc entries)
      ≡ score_of m entries + (if text_eq m key then score else 0)
unfolding add_score
score_of-add_score m key score doc [] = ground arith
score_of-add_score m key score doc (e ∷ entries) = ground (
  arith,
  score_of-add_score m key score doc entries,
  eq_iff key e.key,
  eq_iff m key,
  eq_iff m e.key,
)

module _ (key_of : SimilaritySearchResult → String) (reciprocal : ℕ → ℕ) (k : ℕ) where
  -- The reciprocals of the ranks of a document in a list, and in several.
  abbrev pub contribution : String → ℕ → List SimilaritySearchResult → ℕ
  contribution m index [] = 0
  contribution m index (doc ∷ docs) =
      (if text_eq m (key_of doc) then reciprocal (k + index + 1) else 0)
      + contribution m (index + 1) docs

  abbrev pub contributions : String → List (List SimilaritySearchResult) → ℕ
  contributions m [] = 0
  contributions m (list ∷ lists) = contribution m 0 list + contributions m lists

  abbrev pub occurs : String → List (List SimilaritySearchResult) → Bool
  occurs m [] = false
  occurs m (list ∷ lists) = is_in m (map key_of list) || occurs m lists

  -- What is true of the entries that some lists were added to.
  pub record Holds (m : String) (found : Bool) (score : ℕ) (entries : List ScoredDoc) : Type 0 where
    pub unique : IsUnique (keys entries)
    pub complete : is_in m (keys entries) ≡ found
    pub summed : score_of m entries ≡ score

  add_list-Holds :
      (m : String) (found : Bool) (score index : ℕ) (docs : List SimilaritySearchResult)
      (entries : List ScoredDoc)
      → Holds m found score entries
      → Holds m
          (found || is_in m (map key_of docs))
          (score + contribution m index docs)
          (add_list key_of reciprocal k index docs entries)
  unfolding add_list
  add_list-Holds m found score index [] entries h = record {
    unique = h.unique;
    complete = h.complete ∙ ground arith;
    summed = h.summed ∙ omega arith;
  }
  add_list-Holds m found score index (doc ∷ docs) entries h =
      let key : String = key_of doc in
      let rank : ℕ = reciprocal (k + index + 1) in
      let share : ℕ = if text_eq m key then rank else 0 in
      let mid : Holds m (found || text_eq m key) (score + share) (add_score key rank doc entries) =
        record {
          unique = add_score-IsUnique key rank doc entries h.unique;
          complete =
              is_in-add_score m key rank doc entries ∙ ap (λ b. b || text_eq m key) h.complete;
          summed = score_of-add_score m key rank doc entries ∙ ap (λ n. n + share) h.summed;
        } in
      let r =
        add_list-Holds m (found || text_eq m key) (score + share) (index + 1) docs
          (add_score key rank doc entries) mid in
      record {
        unique = r.unique;
        complete = r.complete ∙ ground arith;
        summed = r.summed ∙ omega arith;
      }

  add_lists-Holds :
      (m : String) (found : Bool) (score : ℕ) (lists : List (List SimilaritySearchResult))
      (entries : List ScoredDoc)
      → Holds m found score entries
      → Holds m
          (found || occurs m lists)
          (score + contributions m lists)
          (add_lists key_of reciprocal k lists entries)
  unfolding add_lists
  add_lists-Holds m found score [] entries h = record {
    unique = h.unique;
    complete = h.complete ∙ ground arith;
    summed = h.summed ∙ omega arith;
  }
  add_lists-Holds m found score (list ∷ lists) entries h =
      let r =
        add_lists-Holds m (found || is_in m (map key_of list)) (score + contribution m 0 list) lists
          (add_list key_of reciprocal k 0 list entries)
          (add_list-Holds m found score 0 list entries h) in
      record {
        unique = r.unique;
        complete = r.complete ∙ ground arith;
        summed = r.summed ∙ omega arith;
      }

  -- What a fusion ranks, for any document: it is ranked exactly if one of the lists has it, no
  -- document is ranked twice, its score is the sum of the reciprocals of its ranks, and no document
  -- comes before one with a higher score.
  pub ranked-Holds :
      (m : String) (lists : List (List SimilaritySearchResult))
      → Holds m (occurs m lists) (contributions m lists) (ranked key_of reciprocal k lists)
        × IsRanked (ranked key_of reciprocal k lists)
  unfolding ranked
  ranked-Holds m lists =
      let all : List ScoredDoc = add_lists key_of reciprocal k lists [] in
      let h =
        add_lists-Holds m false 0 lists []
          (record { unique = tt; complete = refl; summed = refl }) in
      let (unique, same) = sorted-scores key_of reciprocal k m all h.unique in
      (
        record {
          unique = unique;
          complete = is_in-sorted key_of reciprocal k m all ∙ h.complete;
          summed = same ∙ h.summed ∙ omega arith;
        },
        sorted-IsRanked key_of reciprocal k all,
      )
