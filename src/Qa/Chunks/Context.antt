-- ===== src/Qa/Chunks/Context.antt =====
-- The context of a prompt: one entry for each parent, and what the filter has to do with it.
use mathlib.Core.Path.{ap₂}
use public_nest_server.Base.{
  ℕ, ◌+◌, ◌≡◌, refl, ap, ◌∙◌, some, List, [], ◌∷◌, map, String, Bool, not, ◌&&◌, arith, eq_iff,
  eq_refl, Bool-cases, inl, inr, All,
}
use public_nest_server.Llm.Models.{is_in, IsUnique}
use public_nest_server.Qa.Budget.{join}
use public_nest_server.Qa.Chunks.{
  SimilaritySearchResult, sanitize, parent_key, dedupe, entry, entries, context_of,
}

-- The keys of what is kept: every key of the chunks but those that were seen.
dedupe-keys :
    (key : SimilaritySearchResult → String) (m : String) (seen : List String)
    (chunks : List SimilaritySearchResult)
    → is_in m (map key (dedupe key seen chunks)) ≡ is_in m (map key chunks) && not (is_in m seen)
unfolding dedupe
dedupe-keys key m seen [] = refl
dedupe-keys key m seen (c ∷ chunks) = ground (
  arith,
  dedupe-keys key m seen chunks,
  dedupe-keys key m (key c ∷ seen) chunks,
  eq_iff m (key c),
)

dedupe-IsUnique :
    (key : SimilaritySearchResult → String) (seen : List String)
    (chunks : List SimilaritySearchResult)
    → IsUnique (map key (dedupe key seen chunks))
unfolding dedupe
dedupe-IsUnique key seen [] = tt
dedupe-IsUnique key seen (c ∷ chunks) = elim (Bool-cases (is_in (key c) seen)) [
  | inl old ↦ rw old (dedupe-IsUnique key seen chunks)
  | inr new ↦ rw new (
    dedupe-keys key (key c) (key c ∷ seen) chunks ∙ ground (arith, eq_refl (key c)),
    dedupe-IsUnique key (key c ∷ seen) chunks,
  )
]

-- The chunks that go into a prompt have each parent of the chunks that were found, once.
pub dedupe-IsOnePerParent :
    (key : SimilaritySearchResult → String) (chunks : List SimilaritySearchResult)
    → IsUnique (map key (dedupe key [] chunks))
      × ((m : String) → is_in m (map key (dedupe key [] chunks)) ≡ is_in m (map key chunks))
dedupe-IsOnePerParent key chunks =
    (dedupe-IsUnique key [] chunks, λ m. dedupe-keys key m [] chunks ∙ ground arith)

abbrev pub HasParent : SimilaritySearchResult → Type 0
HasParent c = (t : String) × (c.metadata.parent_text ≡ some t)

entries-sanitize :
    (bad bad' : String → Bool) (lines lines' : String → List String) (show : ℕ → String)
    (seen : List String) (i : ℕ) (chunks : List SimilaritySearchResult)
    → All HasParent chunks
    → entries show i (dedupe (parent_key show) seen (sanitize bad lines chunks))
      ≡ entries show i (dedupe (parent_key show) seen (sanitize bad' lines' chunks))
unfolding dedupe sanitize entries entry parent_key
entries-sanitize bad bad' lines lines' show seen i [] h = refl
entries-sanitize bad bad' lines lines' show seen i (c ∷ chunks) ((t, parent), h) =
    elim (Bool-cases (is_in (parent_key show c) seen)) [
      | inl old ↦ rw old (entries-sanitize bad bad' lines lines' show seen i chunks h)
      | inr new ↦ rw new (
          ap₂ ◌∷◌ (rw parent refl) (
            entries-sanitize bad bad' lines lines' show (parent_key show c ∷ seen) (i + 1) chunks
              h))
    ]

-- Where every chunk has the text of its parent, as all that are ingested have, the context is the
-- same whatever patterns the filter looks for: lines that it is there to remove reach the prompt.
pub context_of_unfiltered :
    (bad bad' : String → Bool) (lines lines' : String → List String) (show : ℕ → String)
    (chunks : List SimilaritySearchResult)
    → All HasParent chunks
    → context_of bad lines show chunks ≡ context_of bad' lines' show chunks
unfolding context_of
context_of_unfiltered bad bad' lines lines' show chunks h =
    ap (join "\n\n") (entries-sanitize bad bad' lines lines' show [] 0 chunks h)
