-- ===== src/Knowledge/Offsets/Laws.antt =====
-- Where the chunks of a text are found.
use public_nest_server.Base.{
  ℕ, zero, suc, ◌+◌, ◌-◌, ◌≤◌, ◌<◌, ◌≡◌, ◌≢◌, refl, sym, ap, ◌∙◌, none, some, List, [], ◌∷◌, true,
  false, leb, drop, length, arith, inl, inr, ◌⊎◌, All, Option-cases, Bool-cases,
}
use public_nest_server.Knowledge.Offsets.{
  is_prefix, index_at, smaller, index_of, probe_of, offsets_from, compute_chunk_offsets,
}

drop_nil : (n : ℕ) → drop {A = ℕ} n [] ≡ []
drop_nil zero = refl
drop_nil (suc n) = refl

drop-drop : (s k : ℕ) (text : List ℕ) → drop k (drop s text) ≡ drop (s + k) text
drop-drop zero k text = ap (λ n. drop n text) (omega arith)
drop-drop (suc s) k [] = drop_nil k ∙ sym (drop_nil (suc s + k))
drop-drop (suc s) k (d ∷ text) =
    let same : suc s + k ≡ suc (s + k) = omega arith in
    drop-drop s k text ∙ ap (λ n. drop n (d ∷ text)) (sym same)

-- Where a probe is found first in a text, from a place on.
abbrev IsFirst : List ℕ → List ℕ → ℕ → ℕ → Type 0
IsFirst probe text start k =
    (start ≤ k)
    × (is_prefix probe (drop k text) ≡ true)
    × ((j : ℕ) → start ≤ j → j < k → is_prefix probe (drop j text) ≡ false)

first_next :
    (probe text : List ℕ) (d k : ℕ)
    → is_prefix probe (d ∷ text) ≡ false
    → ((j : ℕ) → 0 ≤ j → j < k → is_prefix probe (drop j text) ≡ false)
    → (j : ℕ) → 0 ≤ j
    → j < suc k
    → is_prefix probe (drop j (d ∷ text)) ≡ false
first_next probe text d k miss first zero from before = miss
first_next probe text d k miss first (suc j) from before = first j (omega arith) (omega arith)

index_at-some :
    (probe text : List ℕ) (i k : ℕ)
    → index_at probe text i ≡ some k
    → (i ≤ k) × IsFirst probe text 0 (k - i)
unfolding index_at
index_at-some probe [] i k h =
    let hit : is_prefix probe [] ≡ true = ground arith in
    let here : k ≡ i = ground arith in
    let start : k - i ≡ 0 = omega arith in
    (omega arith, (omega arith, rw start hit, λ j from before. absurd (omega arith)))
index_at-some probe (d ∷ text) i k h = elim (Bool-cases (is_prefix probe (d ∷ text))) [
  | inl hit ↦
      let here : k ≡ i = ground arith in
      let start : k - i ≡ 0 = omega arith in
      (omega arith, (omega arith, rw start hit, λ j from before. absurd (omega arith)))
  | inr miss ↦
      let (later, (from, hit, first)) = index_at-some probe text (i + 1) k (ground arith) in
      let next : k - i ≡ suc (k - (i + 1)) = omega arith in
      (
        omega arith,
        (omega arith, rw next hit, rw next (first_next probe text d (k - (i + 1)) miss first)),
      )
]

index_at-none :
    (probe text : List ℕ) (i j : ℕ)
    → index_at probe text i ≡ none
    → is_prefix probe (drop j text) ≡ false
unfolding index_at
index_at-none probe [] i zero h = ground arith
index_at-none probe [] i (suc j) h = ground arith
index_at-none probe (d ∷ text) i zero h = ground arith
index_at-none probe (d ∷ text) i (suc j) h = index_at-none probe text (i + 1) j (ground arith)

drop_past : (n : ℕ) (text : List ℕ) → length text ≤ n → drop n text ≡ []
drop_past n [] past = drop_nil n
drop_past zero (d ∷ text) past = absurd (ground arith)
drop_past (suc n) (d ∷ text) past = drop_past n text (ground arith)

is_prefix_nil : (probe : List ℕ) → probe ≢ [] → is_prefix probe [] ≡ false
unfolding is_prefix
is_prefix_nil [] visible = absurd (visible refl)
is_prefix_nil (c ∷ probe) visible = refl

drop_from :
    (start j : ℕ) (text : List ℕ) → start ≤ j → drop (j - start) (drop start text) ≡ drop j text
drop_from start j text from =
    let place : start + (j - start) ≡ j = omega arith in
    drop-drop start (j - start) text ∙ ap (λ n. drop n text) place

-- `indexOf`: the first place from the start on, and none if there is none.
index_of-IsFirst :
    (probe text : List ℕ) (start k : ℕ)
    → probe ≢ []
    → index_of probe text start ≡ some k
    → IsFirst probe text start k
unfolding index_of
index_of-IsFirst probe text start k visible h = elim (Bool-cases (leb start (length text))) [
  | inr past ↦
      let nothing : drop start text ≡ [] = drop_past start text (ground arith) in
      let missed : index_at probe [] (smaller start (length text)) ≡ none =
        ground (arith, is_prefix_nil probe) in
      absurd (ground arith)
  | inl inside ↦
      let here : smaller start (length text) ≡ start = ground arith in
      let found : index_at probe (drop start text) start ≡ some k =
        ap (index_at probe (drop start text)) (sym here) ∙ h in
      let (later, (from, hit, first)) = index_at-some probe (drop start text) start k found in
      let place : is_prefix probe (drop k text) ≡ true =
        ap (is_prefix probe) (sym (drop_from start k text later)) ∙ hit in
      (
        later,
        place,
        λ j after before.
            ap (is_prefix probe) (sym (drop_from start j text after))
            ∙ first (j - start) (omega arith) (omega arith),
      )
]

index_of-none :
    (probe text : List ℕ) (start k : ℕ)
    → index_of probe text start ≡ none
    → start ≤ k
    → is_prefix probe (drop k text) ≡ false
unfolding index_of
index_of-none probe text start k h from =
    ap (is_prefix probe) (sym (drop_from start k text from))
    ∙ index_at-none probe (drop start text) (smaller start (length text)) (k - start) h

-- What the offsets of chunks are, from a place in the text on.
abbrev pub IsOffsets : List ℕ → ℕ → List (List ℕ) → List ℕ → Type 0
IsOffsets text start [] offsets = offsets ≡ []
IsOffsets text start (chunk ∷ chunks) [] = ⊥
IsOffsets text start (chunk ∷ chunks) (o ∷ offsets) =
    (IsFirst (probe_of chunk) text start o × IsOffsets text (o + length chunk) chunks offsets)
    ⊎ ((o ≡ start)
        × ((j : ℕ) → start ≤ j → is_prefix (probe_of chunk) (drop j text) ≡ false)
        × IsOffsets text start chunks offsets)

probe_of_visible : (chunk : List ℕ) → chunk ≢ [] → probe_of chunk ≢ []
probe_of_visible [] visible = visible
probe_of_visible (c ∷ chunk) visible = λ e. absurd (ground arith)

offsets_from-IsOffsets :
    (text : List ℕ) (start : ℕ) (chunks : List (List ℕ))
    → All (λ chunk. chunk ≢ []) chunks
    → IsOffsets text start chunks (offsets_from text start chunks)
unfolding offsets_from
offsets_from-IsOffsets text start [] visible = refl
offsets_from-IsOffsets text start (chunk ∷ chunks) (nonempty, others) =
    let probe : List ℕ = probe_of chunk in
    elim (Option-cases (index_of probe text start)) [
      | inl missed ↦
          let here : offsets_from text start (chunk ∷ chunks)
              ≡ start ∷ offsets_from text start chunks =
            ground arith in
          rw here (
            inr (
              refl,
              λ j from. index_of-none probe text start j missed from,
              offsets_from-IsOffsets text start chunks others,
            ))
      | inr (i, found) ↦
          let here : offsets_from text start (chunk ∷ chunks)
              ≡ i ∷ offsets_from text (i + length chunk) chunks =
            ground arith in
          rw here (
            inl (
              index_of-IsFirst probe text start i (probe_of_visible chunk nonempty) found,
              offsets_from-IsOffsets text (i + length chunk) chunks others,
            ))
    ]

-- The offset of each chunk that is not empty is the first place, from the end of the last chunk that
-- was found, where the first 50 code units of the chunk stand in the text; where they stand nowhere
-- from there on, it is that end, and the search goes on from it.
pub compute_chunk_offsets-IsOffsets :
    (text : List ℕ) (chunks : List (List ℕ))
    → All (λ chunk. chunk ≢ []) chunks
    → IsOffsets text 0 chunks (compute_chunk_offsets text chunks)
compute_chunk_offsets-IsOffsets text chunks visible = offsets_from-IsOffsets text 0 chunks visible
