-- ===== src/Knowledge/Ingest/Steps.antt =====
-- How a chain of actions runs: a step that throws ends it, and what no step changes stays.
use public_nest_server.Base.{◌≡◌, refl, ap, ◌∙◌, Result, ok, err, Action, ◌>>=◌, ◌⊎◌, inl, inr}

module _ {E S A : Type 0} where
  -- A call has ended with a value, or has thrown.
  pub Action-cases :
      (m : Action E S A) (s : S)
      → ((a : A) × (t : S) × (m s ≡ (ok a, t))) ⊎ ((e : E) × (t : S) × (m s ≡ (err e, t)))
  Action-cases m s = pair_cases (m s)
    where
      pair_cases :
          (p : Result E A × S)
          → ((a : A) × (t : S) × (p ≡ (ok a, t))) ⊎ ((e : E) × (t : S) × (p ≡ (err e, t)))
      pair_cases (ok a, t) = inl (a, t, refl)
      pair_cases (err e, t) = inr (e, t, refl)

  module _ {B : Type 0} (k : A → Action E S B) where
    abbrev continued : Result E A × S → Result E B × S
    continued (ok a, s) = k a s
    continued (err e, s) = (err e, s)

    >>=-continued : (m : Action E S A) (s : S) → (m >>= k) s ≡ continued (m s)
    >>=-continued m s = is_continued (m s)
      where
        is_continued :
            (p : Result E A × S) → elim p.0 [ ok a ↦ k a p.1 | err e ↦ (err e, p.1) ] ≡ continued p
        is_continued (ok a, t) = refl
        is_continued (err e, t) = refl

    pub >>=-ok : (m : Action E S A) (s t : S) {a : A} → m s ≡ (ok a, t) → (m >>= k) s ≡ k a t
    >>=-ok m s t h = >>=-continued m s ∙ ap continued h

    pub >>=-err : (m : Action E S A) (s t : S) {e : E} → m s ≡ (err e, t) → (m >>= k) s ≡ (err e, t)
    >>=-err m s t h = >>=-continued m s ∙ ap continued h

  -- An action after which a part of the state is what it was.
  abbrev pub Keeps : {X : Type 0} → (S → X) → Action E S A → Type 0
  Keeps part m = (s : S) → part (m s).1 ≡ part s

module _ {E S A B X : Type 0} (part : S → X) (k : A → Action E S B) where
  pub >>=-Keeps :
      (m : Action E S A) → Keeps part m → ((a : A) → Keeps part (k a)) → Keeps part (m >>= k)
  >>=-Keeps m first rest s = ap (λ p. part (p.1)) (>>=-continued k m s) ∙ then_keeps (m s) ∙ first s
    where
      then_keeps : (p : Result E A × S) → part (continued k p).1 ≡ part p.1
      then_keeps (ok a, t) = rest a t
      then_keeps (err e, t) = refl
