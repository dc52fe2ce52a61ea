-- ===== src/Knowledge/Ingest/Freshness.antt =====
-- The ids of the chunks of a document are fresh among the chunks of the others.
use public_nest_server.Base.{
  ℕ, length, ◌<◌, ◌+◌, ◌≤◌, ◌≡◌, refl, ap, ◌∙◌, Option, none, some, List, [], ◌∷◌, ◌++◌, String,
  true, false, text_eq, eq_refl, arith, inl, inr, All, All-append, Bool-cases,
}
use public_nest_server.Knowledge.Vectors.{VectorDocument, same_document}
use public_nest_server.Knowledge.Vectors.Laws.{AreFresh, IsOther, IsOf}
use public_nest_server.Knowledge.Ingest.Building.{Ports, child_id}
use public_nest_server.Knowledge.Ingest.Building.Laws.{AreChunks}

same_document_refl : (id : Option String) → same_document id id ≡ true
same_document_refl none = refl
same_document_refl (some id) = eq_refl id

module _ {E W V : Type 0} (ports : Ports E W V) where
  -- The records that have none of the ids of a document from a number on and below another.
  abbrev pub AreApart : Option String → ℕ → ℕ → List (VectorDocument V) → Type 0
  AreApart id n limit records =
      All (λ r. (i : ℕ) → n ≤ i → i < limit → text_eq r.id (child_id ports id i) ≡ false) records

  AreApart-IsOther :
      (id : Option String) (n limit : ℕ) (doc : VectorDocument V)
      (records : List (VectorDocument V))
      → doc.id ≡ child_id ports id n
      → n < limit
      → AreApart id n limit records
      → All (IsOther doc) records
  AreApart-IsOther id n limit doc [] own below apart = tt
  AreApart-IsOther id n limit doc (r ∷ records) own below (here, apart) = (
    ap (text_eq r.id) own ∙ here n (omega arith) below,
    AreApart-IsOther id n limit doc records own below apart,
  )

  AreApart-next :
      (id : Option String) (n limit : ℕ) (records : List (VectorDocument V))
      → AreApart id n limit records
      → AreApart id (n + 1) limit records
  AreApart-next id n limit [] apart = tt
  AreApart-next id n limit (r ∷ records) (here, apart) =
      (λ i after below. here i (omega arith) below, AreApart-next id n limit records apart)

  -- No two numbers below a limit give chunks of a document the same id.
  abbrev pub IsInjective : Option String → ℕ → Type 0
  IsInjective id limit =
      (i j : ℕ)
      → i < limit
      → j < limit
      → text_eq (child_id ports id i) (child_id ports id j) ≡ true
      → i ≡ j

  pub AreChunks-AreFresh :
      (parents : List String) (id : Option String) (file_name : String) (n limit : ℕ)
      (docs records : List (VectorDocument V))
      → IsInjective id limit
      → n + length docs ≤ limit
      → AreApart id n limit records
      → AreChunks ports parents id file_name n docs
      → AreFresh records docs × All (IsOf id) docs
  AreChunks-AreFresh parents id file_name n limit [] records distinct fit apart chunks = (tt, tt)
  AreChunks-AreFresh parents id file_name n limit (d ∷ docs) records distinct fit apart
        (here, chunks) =
      let own : d.id ≡ child_id ports id n = here.0 in
      let of_it : d.metadata.document_id ≡ id = here.2 in
      let below : n < limit = omega arith in
      let later : (i : ℕ) → n + 1 ≤ i → i < limit → text_eq d.id (child_id ports id i) ≡ false =
        λ i after inside.
          rw own (elim (Bool-cases (text_eq (child_id ports id n) (child_id ports id i))) [
            | inr differ ↦ differ
            | inl same ↦ let equal = distinct n i below inside same in absurd (omega arith)
          ]) in
      let next : AreApart id (n + 1) limit (records ++ (d ∷ [])) =
        All-append _ records (d ∷ []) (AreApart-next id n limit records apart) (later, tt) in
      let (fresh, of_all) =
        AreChunks-AreFresh parents id file_name (n + 1) limit docs (records ++ (d ∷ [])) distinct
          (omega arith) next chunks in
      (
        (AreApart-IsOther id n limit d records own below apart, fresh),
        (ap (λ x. same_document x id) of_it ∙ same_document_refl id, of_all),
      )
