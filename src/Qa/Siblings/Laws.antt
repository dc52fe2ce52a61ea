-- ===== src/Qa/Siblings/Laws.antt =====
-- Which chunks expandWithSiblings adds: the neighbours of the last hit of each parent.
use mathlib.Core.List.{append-nil}
use public_nest_server.Base.{
  ℕ, ◌+◌, ◌≤◌, ◌≡◌, ◌≢◌, ◌↔◌, refl, ap, ◌∙◌, Option, none, some, List, [], ◌∷◌, ◌++◌, map, keep,
  String, true, false, ok, Action, arith, inl, inr, ◌⊎◌, Option-cases, Result-cases, Bool-cases,
  All, text_eq, eq_iff, eq_refl,
}
use public_nest_server.Llm.Models.{is_in}
use public_nest_server.Qa.Chunks.{SimilaritySearchResult}
use public_nest_server.Qa.Siblings.{
  parent_of, chunk_key, parent_ids, set_hit, hit_indices, is_near_hit, is_new_sibling, expand_under,
  expand_with_siblings,
}

-- The last of the chunks with a parent has the index `i`.
pub record IsLastHit (p : String) (i : ℕ) (chunks : List SimilaritySearchResult) : Type 0 where
  pub before : List SimilaritySearchResult
  pub hit : SimilaritySearchResult
  pub after : List SimilaritySearchResult
  pub split : chunks ≡ before ++ hit ∷ after
  pub same : parent_of hit ≡ some p
  pub index : hit.metadata.chunk_index ≡ i
  pub last : All (λ c. parent_of c ≢ some p) after

later :
    (p : String) (i : ℕ) (c : SimilaritySearchResult) (chunks : List SimilaritySearchResult)
    → IsLastHit p i chunks
    → IsLastHit p i (c ∷ chunks)
later p i c chunks l = record {
  before = c ∷ l.before;
  hit = l.hit;
  after = l.after;
  split = ap (λ x. c ∷ x) l.split;
  same = l.same;
  index = l.index;
  last = l.last;
}

-- What is looked up for a parent after the hits: its last hit, or what was there before.
hit_indices_sound :
    (hits : String → Option ℕ) (p : String) (i : ℕ) (chunks : List SimilaritySearchResult)
    → hit_indices hits chunks p ≡ some i
    → IsLastHit p i chunks ⊎ ((hits p ≡ some i) × All (λ c. parent_of c ≢ some p) chunks)
unfolding hit_indices
hit_indices_sound hits p i [] h = inr (h, tt)
hit_indices_sound hits p i (c ∷ chunks) h = elim (Option-cases (parent_of c)) [
  | inl e ↦ elim (hit_indices_sound hits p i chunks (ground arith)) [
    | inl l ↦ inl (later p i c chunks l)
    | inr (held, none_of) ↦ inr (held, ((λ x. cc), none_of))
  ]
  | inr (q, e) ↦
      elim (hit_indices_sound (set_hit hits q c.metadata.chunk_index) p i chunks (ground arith)) [
        | inl l ↦ inl (later p i c chunks l)
        | inr (held, none_of) ↦ elim (Bool-cases (text_eq q p)) [
          | inl same ↦
              let named : q ≡ p = (eq_iff q p).0 same in
              inl (record {
                before = [];
                hit = c;
                after = chunks;
                split = refl;
                same = e ∙ ap some named;
                index = ground arith;
                last = none_of;
              })
          | inr other ↦ inr (ground arith, ((λ x. ground (arith, eq_refl p)), none_of))
        ]
      ]
]

hit_indices_others :
    (hits : String → Option ℕ) (p : String) (chunks : List SimilaritySearchResult)
    → All (λ c. parent_of c ≢ some p) chunks
    → hit_indices hits chunks p ≡ hits p
unfolding hit_indices
hit_indices_others hits p [] h = refl
hit_indices_others hits p (c ∷ chunks) (other, h) = elim (Option-cases (parent_of c)) [
  | inl e ↦ let rest = hit_indices_others hits p chunks h in ground arith
  | inr (q, e) ↦
      let rest = hit_indices_others (set_hit hits q c.metadata.chunk_index) p chunks h in
      ground (arith, eq_iff q p)
]

hit_indices_last :
    (hits : String → Option ℕ) (p : String) (before after : List SimilaritySearchResult)
    (hit : SimilaritySearchResult)
    → parent_of hit ≡ some p
    → All (λ c. parent_of c ≢ some p) after
    → hit_indices hits (before ++ hit ∷ after) p ≡ some hit.metadata.chunk_index
unfolding hit_indices
hit_indices_last hits p [] after hit same h =
    let rest = hit_indices_others (set_hit hits p hit.metadata.chunk_index) p after h in
    ground (arith, eq_refl p)
hit_indices_last hits p (c ∷ before) after hit same h = elim (Option-cases (parent_of c)) [
  | inl e ↦ let rest = hit_indices_last hits p before after hit same h in ground arith
  | inr (q, e) ↦
      let rest =
        hit_indices_last (set_hit hits q c.metadata.chunk_index) p before after hit same h in
      ground arith
]

-- A chunk that was not found and is at most one place away from the last hit of its parent.
pub record IsNeighbour (show : ℕ → String) (chunks : List SimilaritySearchResult)
    (c : SimilaritySearchResult) : Type 0 where
  pub new : is_in (chunk_key show c) (map (chunk_key show) chunks) ≡ false
  pub parent : String
  pub of_parent : parent_of c ≡ some parent
  pub place : ℕ
  pub hit : IsLastHit parent place chunks
  pub not_after : c.metadata.chunk_index ≤ place + 1
  pub not_before : place ≤ c.metadata.chunk_index + 1

IsLastHit-hit_indices :
    (p : String) (i : ℕ) (chunks : List SimilaritySearchResult)
    → IsLastHit p i chunks
    → hit_indices (λ q. none) chunks p ≡ some i
IsLastHit-hit_indices p i chunks l =
    ap (λ x. hit_indices (λ q. none) x p) l.split
    ∙ hit_indices_last (λ q. none) p l.before l.after l.hit l.same l.last
    ∙ ap some l.index

hit_indices-IsLastHit :
    (p : String) (i : ℕ) (chunks : List SimilaritySearchResult)
    → hit_indices (λ q. none) chunks p ≡ some i
    → IsLastHit p i chunks
hit_indices-IsLastHit p i chunks h = elim (hit_indices_sound (λ q. none) p i chunks h) [
  | inl l ↦ l
  | inr (e, rest) ↦ absurd (ground arith)
]

is_new_sibling-IsNeighbour :
    (show : ℕ → String) (chunks : List SimilaritySearchResult) (c : SimilaritySearchResult)
    → is_new_sibling show chunks c ≡ true
    → IsNeighbour show chunks c
unfolding is_new_sibling is_near_hit
is_new_sibling-IsNeighbour show chunks c h = elim (Option-cases (parent_of c)) [
  | inl e ↦ absurd (ground arith)
  | inr (p, e) ↦ elim (Option-cases (hit_indices (λ q. none) chunks p)) [
    | inl e₂ ↦ absurd (ground arith)
    | inr (i, e₂) ↦ record {
      new = ground arith;
      parent = p;
      of_parent = e;
      place = i;
      hit = hit_indices-IsLastHit p i chunks e₂;
      not_after = ground arith;
      not_before = ground arith;
    }
  ]
]

IsNeighbour-is_new_sibling :
    (show : ℕ → String) (chunks : List SimilaritySearchResult) (c : SimilaritySearchResult)
    → IsNeighbour show chunks c
    → is_new_sibling show chunks c ≡ true
unfolding is_new_sibling is_near_hit
IsNeighbour-is_new_sibling show chunks c n =
    let new = n.new in
    let named = n.of_parent in
    let held = IsLastHit-hit_indices n.parent n.place chunks n.hit in
    let after = n.not_after in let before = n.not_before in ground arith

parent_ids-none :
    (seen : List String) (chunks : List SimilaritySearchResult)
    → All (λ c. parent_of c ≡ none) chunks
    → parent_ids seen chunks ≡ []
unfolding parent_ids
parent_ids-none seen [] h = refl
parent_ids-none seen (c ∷ chunks) (here, h) =
    let same = parent_ids-none seen chunks h in ground arith

module _ {E S : Type 0} (show : ℕ → String)
    (find_by_parent_chunk_ids : List String → Action E S (List SimilaritySearchResult)) where
  expand_under_result :
      (chunks : List SimilaritySearchResult) (ids : List String)
      (result : List SimilaritySearchResult) (s : S)
      → (expand_under show find_by_parent_chunk_ids chunks ids s).0 ≡ ok result
      → (siblings : List SimilaritySearchResult) × (((ids ≡ []) × (siblings ≡ []))
          ⊎ ((find_by_parent_chunk_ids ids s).0 ≡ ok siblings))
        × (result ≡ chunks ++ keep (is_new_sibling show chunks) siblings)
  expand_under_result chunks [] result s h =
      ([], inl (refl, refl), ground (arith, append-nil chunks))
  expand_under_result chunks (p ∷ ids) result s h =
      elim (Result-cases (find_by_parent_chunk_ids (p ∷ ids) s).0) [
        | inr (x, e) ↦ absurd (ground arith)
        | inl (siblings, e) ↦ (siblings, inr e, ground arith)
      ]

  pub expand_with_siblings-IsNeighbour :
      (chunks result : List SimilaritySearchResult) (s : S)
      → (expand_with_siblings show find_by_parent_chunk_ids chunks s).0 ≡ ok result
      → (siblings : List SimilaritySearchResult) × (((parent_ids [] chunks ≡ []) × (siblings ≡ []))
          ⊎ ((find_by_parent_chunk_ids (parent_ids [] chunks) s).0 ≡ ok siblings))
        × (result ≡ chunks ++ keep (is_new_sibling show chunks) siblings)
        × (All (λ c. parent_of c ≡ none) chunks
            → expand_with_siblings show find_by_parent_chunk_ids chunks s ≡ (ok chunks, s))
        × ((c : SimilaritySearchResult)
            → (is_new_sibling show chunks c ≡ true) ↔ IsNeighbour show chunks c)
  unfolding expand_with_siblings
  expand_with_siblings-IsNeighbour chunks result s h =
      let (siblings, asked, end) = expand_under_result chunks (parent_ids [] chunks) result s h in
      (
        siblings,
        asked,
        end,
        λ orphans. rw (parent_ids-none [] chunks orphans) refl,
        λ c. (is_new_sibling-IsNeighbour show chunks c, IsNeighbour-is_new_sibling show chunks c),
      )
