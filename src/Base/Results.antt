-- ===== src/Base/Results.antt =====
-- Code that throws returns a `Result`. An `Action` also changes a state, and the state that a
-- throw has reached stays, as after a rejected promise.
use mathlib.Core.Path.{◌≡◌, refl}
use mathlib.Core.Logic.{◌⊎◌, inl, inr}
use mathlib.Core.Bool.{Bool, true, false}
use native.Mathlib.Omega.{arith}
use public_nest_server.Base.Tests.{⊤}

pub data Result (E A : Type 0) : Type 0 where
  ok : A → Result E A
  err : E → Result E A

abbrev pub Action : Type 0 → Type 0 → Type 0 → Type 0
Action E S A = S → Result E A × S

module _ {E A : Type 0} where
  abbrev pub result_map : {B : Type 0} → (A → B) → Result E A → Result E B
  result_map f (ok a) = ok (f a)
  result_map f (err e) = err e

  abbrev pub result_bind : {B : Type 0} → Result E A → (A → Result E B) → Result E B
  result_bind (ok a) f = f a
  result_bind (err e) f = err e

  -- A call that ended with a value, and one that threw.
  pub Result-cases : (r : Result E A) → ((a : A) × (r ≡ ok a)) ⊎ ((e : E) × (r ≡ err e))
  Result-cases (ok a) = inl (a, refl)
  Result-cases (err e) = inr (e, refl)

  module _ {S : Type 0} where
    abbrev pub pure : A → Action E S A
    pure a s = (ok a, s)

    abbrev pub throw : E → Action E S A
    throw e s = (err e, s)

    -- a computation that reads and writes no state
    abbrev pub lift : Result E A → Action E S A
    lift r s = (r, s)

    abbrev pub gets : (S → A) → Action E S A
    gets f s = (ok (f s), s)

module _ {E S : Type 0} where
  infixl 5 ◌>>=◌ ◌>>◌
  abbrev pub ◌>>=◌ : {A B : Type 0} → Action E S A → (A → Action E S B) → Action E S B
  ◌>>=◌ m f s = let (r, s') = m s in elim r [ ok a ↦ f a s' | err e ↦ (err e, s') ]

  abbrev pub ◌>>◌ : {A B : Type 0} → Action E S A → Action E S B → Action E S B
  m >> k = m >>= λ _. k

  abbrev pub modify : (S → S) → Action E S ⊤
  modify f s = (ok tt, f s)

  abbrev pub guard : Bool → E → Action E S ⊤
  guard true e s = (ok tt, s)
  guard false e s = (err e, s)

  -- Inversion of a bind that ended with a value, for proofs where the parts stay shut.
  module _ {A B : Type 0} (f : A → Action E S B) where
    bind_result : Result E A × S → Result E B × S
    bind_result (ok a, s) = f a s
    bind_result (err e, s) = (err e, s)

    bind_result-eq-ok :
        (p : Result E A × S) {b : B} {s'' : S}
        → bind_result p ≡ (ok b, s'')
        → (a : A) × (s' : S) × (p ≡ (ok a, s')) × (f a s' ≡ (ok b, s''))
    unfolding bind_result
    bind_result-eq-ok (ok a, s) h = (a, s, refl, h)
    bind_result-eq-ok (err e, s) h = cc

    pub >>=-eq-ok :
        (m : Action E S A) (s : S) {b : B} {s'' : S}
        → (m >>= f) s ≡ (ok b, s'')
        → (a : A) × (s' : S) × (m s ≡ (ok a, s')) × (f a s' ≡ (ok b, s''))
    unfolding bind_result
    >>=-eq-ok m s h = bind_result-eq-ok (m s) (ground arith)
