-- ===== src/Qa/Fusion.antt =====
-- RrfFusionService (application/rrf-fusion.service.ts). Scores are whole numbers of some unit;
-- `reciprocal n` is 1 / n in that unit. A Map is the list of its entries in the order of insertion.
pub mod Sorting
pub mod Scores
pub mod Keys
use public_nest_server.Base.{ℕ, ◌+◌, List, [], ◌∷◌, map, String, Bool, leb, text_eq, if◌then◌else◌}
use public_nest_server.Qa.Chunks.{SimilaritySearchResult}

abbrev pub default_k : ℕ
default_k = 60

pub record ScoredDoc : Type 0 where
  pub key : String
  pub score : ℕ
  pub doc : SimilaritySearchResult

-- `scoreMap.set(key, …)`: the score is added to that of the key, and the document replaces its own
unfoldable pub add_score : String → ℕ → SimilaritySearchResult → List ScoredDoc → List ScoredDoc
add_score key score doc [] = record { key = key; score = score; doc = doc } ∷ []
add_score key score doc (e ∷ entries) =
    let others = add_score key score doc entries in
    if text_eq key e.key
    then record { key = key; score = e.score + score; doc = doc } ∷ entries
    else e ∷ others

module _ (key_of : SimilaritySearchResult → String) (reciprocal : ℕ → ℕ) (k : ℕ) where
  -- `list.forEach`, from an index on
  unfoldable pub add_list : ℕ → List SimilaritySearchResult → List ScoredDoc → List ScoredDoc
  unfolding add_score
  add_list index [] entries = entries
  add_list index (doc ∷ docs) entries =
      add_list (index + 1) docs (add_score (key_of doc) (reciprocal (k + index + 1)) doc entries)

  unfoldable pub add_lists : List (List SimilaritySearchResult) → List ScoredDoc → List ScoredDoc
  unfolding add_list
  add_lists [] entries = entries
  add_lists (list ∷ lists) entries = add_lists lists (add_list 0 list entries)

  -- `.sort((a, b) => b.score - a.score)`, which is stable
  unfoldable pub place : ScoredDoc → List ScoredDoc → List ScoredDoc
  place e [] = e ∷ []
  place e (f ∷ entries) =
      let later = place e entries in if leb f.score e.score then e ∷ f ∷ entries else f ∷ later

  unfoldable pub sorted : List ScoredDoc → List ScoredDoc
  unfolding place
  sorted [] = []
  sorted (e ∷ entries) = place e (sorted entries)

  unfoldable pub ranked : List (List SimilaritySearchResult) → List ScoredDoc
  unfolding sorted add_lists
  ranked lists = sorted (add_lists lists [])

  unfoldable pub fuse : List (List SimilaritySearchResult) → List SimilaritySearchResult
  unfolding ranked
  fuse lists = map (λ e. record e.doc { score = e.score }) (ranked lists)
