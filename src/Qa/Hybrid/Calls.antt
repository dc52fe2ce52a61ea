-- ===== src/Qa/Hybrid/Calls.antt =====
-- Calls that are made one after the other, where none of them throws.
use mathlib.Core.Path.{subst}
use public_nest_server.Base.{
  ◌≡◌, List, [], ◌∷◌, inl, inr, Result, ok, err, Result-cases, Action, pure, ◌>>=◌, arith,
}
use public_nest_server.Qa.Hybrid.{both, together, all_of}

pub both-ok :
    {E A B : Type 0} (r : Result E A) (q : Result E B) (a : A) (b : B)
    → both r q ≡ ok (a, b)
    → (r ≡ ok a) × (q ≡ ok b)
both-ok (ok x) (ok y) a b h = ground arith
both-ok (ok x) (err e) a b h = absurd (ground arith)
both-ok (err e) q a b h = absurd (ground arith)

module _ {E S : Type 0} where
  pub bind-ok :
      {A B : Type 0} (m : Action E S A) (f : A → Action E S B) (s : S) (b : B)
      → ((m >>= f) s).0 ≡ ok b
      → (a : A) × ((m s).0 ≡ ok a) × ((f a (m s).1).0 ≡ ok b)
  bind-ok m f s b h = elim (Result-cases (m s).0) [
    | inl (a, e) ↦ (a, e, ground arith)
    | inr (x, e) ↦ absurd (ground arith)
  ]

  -- Elements of two lists at the same places, which are as many, that are related in the state in
  -- which the call for the first one is made, after those for the elements before it.
  abbrev pub Along :
      {A B : Type 0} → (A → Action E S B) → (A → B → S → Type 0) → List A → List B → S → Type 0
  Along f R [] [] s = Unit
  Along f R [] (y ∷ ys) s = ⊥
  Along f R (x ∷ xs) [] s = ⊥
  Along f R (x ∷ xs) (y ∷ ys) s = R x y s × Along f R xs ys (f x s).1

  pub all_of-Along :
      {A B : Type 0} (f : A → Action E S B) (R : A → B → S → Type 0) (xs : List A) (ys : List B)
      (s : S)
      → ((x : A) (y : B) (t : S) → (f x t).0 ≡ ok y → R x y t)
      → (all_of f xs s).0 ≡ ok ys
      → Along f R xs ys s
  unfolding all_of
  all_of-Along f R [] [] s each h = tt
  all_of-Along f R [] (y ∷ ys) s each h = absurd (ground arith)
  all_of-Along f R (x ∷ xs) ys s each h =
      let ((y, rest), made, end) =
        bind-ok (together (f x) (all_of f xs)) (λ (y, ys). pure (y ∷ ys)) s ys h in
      let (first, others) = both-ok (f x s).0 (all_of f xs (f x s).1).0 y rest made in
      let same : y ∷ rest ≡ ys = ground arith in
      subst (λ l. Along f R (x ∷ xs) l s) same
        (each x y s first, all_of-Along f R xs rest (f x s).1 each others)
