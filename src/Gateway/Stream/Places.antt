-- ===== src/Gateway/Stream/Places.antt =====
-- Places in the log of a job: the events before and after them, and their ids.
use public_nest_server.Base.{
  ℕ, zero, suc, ◌+◌, ◌≡◌, refl, sym, ap, ◌∙◌, List, [], ◌∷◌, ◌++◌, String, take, drop, length, ◌≤◌,
  arith,
}
use public_nest_server.Gateway.Stream.{StreamEvent}

from_place : (p : ℕ) → suc p ≡ suc p + 0
from_place p = omega arith

module _ {D : Type 0} where
  -- The id of the event before a place in a log, from the id before the log on.
  abbrev pub id_before : String → List (StreamEvent D) → ℕ → String
  id_before start log zero = start
  id_before start [] (suc p) = start
  id_before start (e ∷ log) (suc p) = id_before e.id log p

  abbrev pub last_id : String → List (StreamEvent D) → String
  last_id last [] = last
  last_id last (e ∷ events) = last_id e.id events

  pub drop-split :
      (log : List (StreamEvent D)) (p k : ℕ)
      → drop p log ≡ drop p (take k log) ++ drop (p + length (drop p (take k log))) log
  drop-split [] zero zero = refl
  drop-split [] zero (suc k) = refl
  drop-split [] (suc p) zero = ap (λ n. drop n []) (from_place p)
  drop-split [] (suc p) (suc k) = ap (λ n. drop n []) (from_place p)
  drop-split (e ∷ log) zero zero = refl
  drop-split (e ∷ log) zero (suc k) =
      let place : 0 + length (e ∷ take k log) ≡ suc (0 + length (take k log)) = omega arith in
      ap (λ l. e ∷ l) (drop-split log zero k ∙ ap (λ n. take k log ++ drop n (e ∷ log)) (sym place))
  drop-split (e ∷ log) (suc p) zero = ap (λ n. drop n (e ∷ log)) (from_place p)
  drop-split (e ∷ log) (suc p) (suc k) =
      let segment = drop p (take k log) in
      let place : suc p + length segment ≡ suc (p + length segment) = omega arith in
      drop-split log p k ∙ ap (λ n. segment ++ drop n (e ∷ log)) (sym place)

  -- Nothing follows the events after a place, and a long enough beginning of a log is the log.
  pub drop-length : (log : List (StreamEvent D)) (p : ℕ) → drop (p + length (drop p log)) log ≡ []
  drop-length [] zero = refl
  drop-length [] (suc p) = ap (λ n. drop n []) (sym (from_place p))
  drop-length (e ∷ log) zero =
      let place : 0 + length (e ∷ log) ≡ suc (0 + length log) = omega arith in
      ap (λ n. drop n (e ∷ log)) place ∙ drop-length log zero
  drop-length (e ∷ log) (suc p) =
      let place : suc p + length (drop p log) ≡ suc (p + length (drop p log)) = omega arith in
      ap (λ n. drop n (e ∷ log)) place ∙ drop-length log p

  pub take_of_length-le : (log : List (StreamEvent D)) (k : ℕ) → length log ≤ k → take k log ≡ log
  take_of_length-le [] zero h = refl
  take_of_length-le [] (suc k) h = refl
  take_of_length-le (e ∷ log) zero h = absurd (omega arith)
  take_of_length-le (e ∷ log) (suc k) h = ap (λ l. e ∷ l) (take_of_length-le log k (omega arith))

  pub append-IsEmpty :
      (whole beginning rest : List (StreamEvent D))
      → whole ≡ []
      → beginning ++ rest ≡ whole
      → beginning ≡ []
  append-IsEmpty whole [] rest empty same = refl
  append-IsEmpty whole (e ∷ beginning) rest empty same = absurd (ground arith)

  pub last_id-id_before :
      (start : String) (log : List (StreamEvent D)) (p k : ℕ)
      → last_id (id_before start log p) (drop p (take k log))
        ≡ id_before start log (p + length (drop p (take k log)))
  last_id-id_before start [] zero zero = refl
  last_id-id_before start [] zero (suc k) = refl
  last_id-id_before start [] (suc p) zero = ap (id_before start []) (from_place p)
  last_id-id_before start [] (suc p) (suc k) = ap (id_before start []) (from_place p)
  last_id-id_before start (e ∷ log) zero zero = refl
  last_id-id_before start (e ∷ log) zero (suc k) =
      let place : 0 + length (e ∷ take k log) ≡ suc (0 + length (take k log)) = omega arith in
      last_id-id_before e.id log zero k ∙ ap (id_before start (e ∷ log)) (sym place)
  last_id-id_before start (e ∷ log) (suc p) zero = ap (id_before start (e ∷ log)) (from_place p)
  last_id-id_before start (e ∷ log) (suc p) (suc k) =
      let segment = drop p (take k log) in
      let place : suc p + length segment ≡ suc (p + length segment) = omega arith in
      last_id-id_before e.id log p k ∙ ap (id_before start (e ∷ log)) (sym place)
