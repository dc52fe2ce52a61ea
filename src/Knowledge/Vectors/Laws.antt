-- ===== src/Knowledge/Vectors/Laws.antt =====
-- Storing the chunks of a document replaces those it had.
use mathlib.Core.List.{append_assoc, append-nil}
use public_nest_server.Base.{
  ◌≡◌, refl, sym, ap, ◌∙◌, Option, List, [], ◌∷◌, ◌++◌, keep, String, true, false, not, text_eq,
  arith, ⊤, All,
}
use public_nest_server.Knowledge.Vectors.{
  VectorDocument, upsert_one, upsert, is_of, delete_by_document_id,
}

module _ {V : Type 0} where
  abbrev pub IsOther : VectorDocument V → VectorDocument V → Type 0
  IsOther doc r = text_eq r.id doc.id ≡ false

  -- Documents with ids of their own, which none of the records has.
  abbrev pub AreFresh : List (VectorDocument V) → List (VectorDocument V) → Type 0
  AreFresh records [] = ⊤
  AreFresh records (doc ∷ docs) = All (IsOther doc) records × AreFresh (records ++ (doc ∷ [])) docs

  upsert_one_fresh :
      (doc : VectorDocument V) (records : List (VectorDocument V))
      → All (IsOther doc) records
      → upsert_one doc records ≡ records ++ (doc ∷ [])
  unfolding upsert_one
  upsert_one_fresh doc [] fresh = refl
  upsert_one_fresh doc (r ∷ records) (other, fresh) =
      rw other (ap (λ l. r ∷ l) (upsert_one_fresh doc records fresh))

  pub upsert_fresh :
      (docs records : List (VectorDocument V))
      → AreFresh records docs
      → upsert docs records ≡ records ++ docs
  unfolding upsert
  upsert_fresh [] records fresh = sym (append-nil records)
  upsert_fresh (doc ∷ docs) records (first, fresh) =
      ap (upsert docs) (upsert_one_fresh doc records first)
      ∙ upsert_fresh docs (records ++ (doc ∷ [])) fresh
      ∙ append_assoc records (doc ∷ []) docs

  abbrev pub IsOf : Option String → VectorDocument V → Type 0
  IsOf id r = is_of id r ≡ true

  keep_of :
      (id : Option String) (docs records : List (VectorDocument V))
      → All (IsOf id) docs
      → keep (is_of id) (keep (λ r. not (is_of id r)) records ++ docs) ≡ docs
  keep_of id [] [] own = refl
  keep_of id (d ∷ docs) [] (first, own) = rw first (ap (λ l. d ∷ l) (keep_of id docs [] own))
  keep_of id docs (r ∷ records) own = let rest = keep_of id docs records own in ground arith

  keep_others :
      (id : Option String) (docs records : List (VectorDocument V))
      → All (IsOf id) docs
      → keep (λ r. not (is_of id r)) (keep (λ r. not (is_of id r)) records ++ docs)
        ≡ keep (λ r. not (is_of id r)) records
  keep_others id [] [] own = refl
  keep_others id (d ∷ docs) [] (first, own) = rw first (keep_others id docs [] own)
  keep_others id docs (r ∷ records) own = let rest = keep_others id docs records own in ground arith

  -- Deleting the records of a document and storing others of it, whose ids are fresh, leaves it
  -- exactly these, in their order, and every other document the records it had.
  pub upsert-delete_by_document_id :
      (id : Option String) (docs records : List (VectorDocument V))
      → All (IsOf id) docs
      → AreFresh (delete_by_document_id id records) docs
      → (keep (is_of id) (upsert docs (delete_by_document_id id records)) ≡ docs)
        × (keep (λ r. not (is_of id r)) (upsert docs (delete_by_document_id id records))
            ≡ keep (λ r. not (is_of id r)) records)
  unfolding delete_by_document_id
  upsert-delete_by_document_id id docs records own fresh =
      let stored = upsert_fresh docs (delete_by_document_id id records) fresh in
      (
        ap (keep (is_of id)) stored ∙ keep_of id docs records own,
        ap (keep (λ r. not (is_of id r))) stored ∙ keep_others id docs records own,
      )
